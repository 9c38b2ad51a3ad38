-- ===== src/ChatSession/Samples.antt =====
-- Two sessions of one room: p1 types, and p2 listens.
use minara_connect.Base.{
  ◌≡◌, refl, sym, ◌∙◌, ap, subst, true, false, arith, none, some, [], Str, str, str_eq,
  contains_byte, is_utf8, ok, pos,
}
use minara_connect.Message.{Message, from_wire_bytes}
use minara_connect.Message.Samples.{id, hash, hello, to_vec, from_slice, hello-is_received}
use minara_connect.RateLimit.{new}
use minara_connect.LogIo.Samples.{broken_log}
use minara_connect.LogIo.ReadBack.{IsEncoded}
use minara_connect.ChatSession.Mentions.{new_mentions}
use minara_connect.ChatSession.Drops.{Outside}
use minara_connect.ChatSession.Sender.{local, input, Turn, Sender, Self}
use minara_connect.ChatSession.Listener.{GossipEvent, received, Arrival, Listener, Setup}

abbrev pub text : Str
text = str "{m}"

unfoldable pub hello-IsEncoded : IsEncoded from_slice to_vec hello
unfolding is_utf8 contains_byte str_eq
hello-IsEncoded = record {
  text = text;
  encodes = refl;
  valid = refl;
  no_newline = refl;
  no_return = refl;
  ne_nil = refl;
  parses = refl;
}

-- One file, which is named by its path and is in no credential directory.
abbrev pub outside : Outside
outside = record {
  allow_dangerous = none;
  home = some (str "/home/p1");
  absolute = λ path. some path;
  metadata = λ path. some 3;
  add_path = λ path. some hash;
  copy_local = λ m path. true;
}

abbrev pub p1 : Self
p1 = record { pubkey = str "p1"; self_nick = none; files_dir = str "/files" }

abbrev pub typed : Turn
typed = record {
  event = input (some (str "hello @bob\n")) local;
  new_ulid = id;
  checked_ms = pos 1000;
  now_ms = pos 1000;
  outside = outside;
  index_ok = true;
  broadcast_ok = true;
}

abbrev pub sender : Sender
sender = record {
  log = broken_log;
  index = [];
  send_rate_limiter = new;
  mentions = new_mentions;
  mesh_health = pos 0;
  last_warn_at = pos 0;
  shown = [];
  sent = [];
}

abbrev pub bob : Setup
bob = record {
  our_pubkey = str "p2";
  self_nick = some (str "bob");
  owner_only = false;
  files_dir = str "/files";
}

abbrev pub listener : Listener
listener = record {
  log = broken_log;
  index = [];
  rate_limiter = new;
  mentions = new_mentions;
  mesh_health = pos 0;
  shown = [];
}

abbrev pub heard : Arrival
heard = record { event = received text; seen_ms = pos 1001; checked_ms = pos 1001 }

-- What is heard is the text of `hello`.
pub heard-hello :
    (payload : Str) (m : Message)
    → GossipEvent.received text ≡ received payload
    → from_wire_bytes from_slice payload ≡ ok m
    → IsEncoded from_slice to_vec m
heard-hello payload m e taken =
    let same : text ≡ payload = ground arith in
    let both : ok hello ≡ ok m =
      sym hello-is_received ∙ ap (from_wire_bytes from_slice) same ∙ taken in
    let q : hello ≡ m = ground arith in subst (IsEncoded from_slice to_vec) q hello-IsEncoded

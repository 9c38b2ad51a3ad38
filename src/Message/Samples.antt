-- ===== src/Message/Samples.antt =====
-- A message as the program builds it, with a text that stands for its JSON.
use minara_connect.Base.{
  ◌≡◌, contains_byte, ok, refl, Option, none, some, Str, str, str_eq, if◌then◌else◌, pos,
}
use minara_connect.Message.{
  Message, from_wire_bytes, to_canonical_json, new, new_file_drop, validate_filename,
  validate_blob_hash, validate_blob_size, kind_file_drop, normalize_ulid, validate_body, kind_chat,
  protocol_version,
}
use minara_connect.Message.Sent.{Built, Built-is_received, chat}

abbrev pub id : Str
id = str "01ARZ3NDEKTSV4RRFFQ69G5FAV"

abbrev pub hello : Message
hello = record {
  v = protocol_version;
  id = id;
  author = str "p1";
  ts = pos 1000;
  body = str "hello @bob";
  kind = kind_chat;
  nick = none;
  blob_hash = none;
  blob_size = none;
}

pub hello-Built : Built hello
unfolding new normalize_ulid validate_body
hello-Built = chat id (str "p1") (pos 1000) (str "hello @bob") refl

abbrev pub to_vec : Message → Option Str
to_vec m = some (str "{m}")

abbrev pub from_slice : Str → Option Message
from_slice s = if str_eq s (str "{m}") then some hello else none

pub normalize_ulid-id : normalize_ulid id ≡ ok id
unfolding normalize_ulid
normalize_ulid-id = refl

abbrev pub hash : Str
hash = str "aaaaaaaaaaaaaaaaaaaaaaaaaaaaaaaaaaaaaaaaaaaaaaaaaaaaaaaaaaaaaaaa"

abbrev pub notes_drop : Message
notes_drop = record {
  v = protocol_version;
  id = id;
  author = str "p1";
  ts = pos 1000;
  body = str "a.txt";
  kind = kind_file_drop;
  nick = none;
  blob_hash = some hash;
  blob_size = some 3;
}

pub new_file_drop-notes :
    new_file_drop id (str "p1") (pos 1000) (str "a.txt") hash 3 ≡ ok notes_drop
unfolding new_file_drop normalize_ulid validate_filename validate_blob_hash validate_blob_size
    contains_byte
new_file_drop-notes = refl

pub hello-is_received : from_wire_bytes from_slice (str "{m}") ≡ ok hello
unfolding str_eq
hello-is_received =
    Built-is_received from_slice to_vec hello (str "{m}") hello-Built
      (unfold to_canonical_json in refl) (λ h. refl)

-- ===== src/Hook/Tests.antt =====
-- One room, whose first message a session has not seen.
use minara_connect.Base.{◌≡◌, refl, true, false, none, some, List, [], ◌∷◌, ◌++◌, All, Str, str, ok}
use minara_connect.Message.Samples.{from_slice}
use minara_connect.LogIo.Samples.{broken_log, hello_log, read_since-broken_log}
use minara_connect.Cursor.{CursorFs}
use minara_connect.Cursor.ReadBack.{read_cursor_missing}
use minara_connect.Hook.{World, Setting, unread, inject, topics_of, run}
use minara_connect.Hook.Quiet.{IsQuiet, run_quiet}

abbrev no_cursor : CursorFs
no_cursor = record { path = none; next_ino = 7 }

abbrev world : World
world = record { log = λ t. some hello_log; cursor = λ s t. no_cursor; stdout = [] }

abbrev setting : Setting
setting = record {
  from_slice = from_slice;
  from_str = λ s. none;
  parse_session = λ s. some (str "s1");
  stdin = str "{}";
  claude_pid = some 4242;
  bound_topics = ok (str "aa" ∷ []);
  live_topics = ok (str "aa" ∷ []);
  nicknames = λ k. none;
  rooms_base = str "/rooms";
  self_nick = some (str "bob");
  self_pubkey = some (str "p2");
  owner_only = false;
  summary_file = λ t. none;
  index_file = λ t. none;
  iteration = λ rooms. rooms;
  others = λ t. [] ∷ [];
  stdout_ok = true;
}

-- the room with a message added
abbrev later : World
later = record {
  log = λ t. some (hello_log ++ broken_log);
  cursor = (inject setting (str "s1") (str "aa" ∷ []) world).0.cursor;
  stdout = [];
}

-- the room without its message
abbrev quiet : World
quiet = record world { log = λ t. some broken_log }

quiet-IsQuiet :
    (session_id : Str) (topics : List Str)
    → All (λ t. IsQuiet (unread setting session_id quiet t)) topics
unfolding unread
quiet-IsQuiet session_id [] = tt
quiet-IsQuiet session_id (t ∷ topics) = (
  rw (read_cursor_missing setting.from_str) read_since-broken_log,
  quiet-IsQuiet session_id topics,
)

nothing_unread_test : run setting quiet ≡ (quiet, ok tt)
nothing_unread_test =
    run_quiet setting quiet (str "aa" ∷ []) refl (λ rooms h. h)
      (λ session_id h. quiet-IsQuiet session_id (topics_of (str "aa" ∷ []) setting.live_topics))

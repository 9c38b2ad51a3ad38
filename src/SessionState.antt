-- ===== src/SessionState.antt =====
-- crates/cc-connect-core/src/session_state.rs: the rooms of one Claude Code process, and the joins
-- that wait for consent. A file is its content, `none` where it is missing. serde_json is a
-- parameter: `parse` and `print` at each file's type. Directories, modes and fsync are the operating
-- system's, and a write through a temporary file and a rename is one step.
pub mod Tests
pub mod Rooms
pub mod Pending
use minara_connect.Base.{
  ℕ, suc, ◌+◌, Bool, true, false, not, ◌||◌, ◌&&◌, Option, none, some, List, [], ◌∷◌, ◌++◌, ◌==◌,
  if◌then◌else◌, any, length, Str, str, str_eq, is_empty, contains_byte, Error, Result, ok, err,
  ◌>>=◌, ◌>>◌, bail_if, ok_or, not_found, json_error, rooms_version_mismatch,
  pending_version_mismatch, pending_token_invalid,
}

abbrev pub state_version : ℕ
state_version = 1

pub record RoomsFile : Type 0 where
  pub v : ℕ
  pub topics : List Str

-- `topics.retain(|t| t != topic_hex)`
pub retain_ne : Str → List Str → List Str
retain_ne topic [] = []
retain_ne topic (t ∷ topics) =
    let rest = retain_ne topic topics in if str_eq t topic then rest else t ∷ rest

abbrev pub fresh : RoomsFile
fresh = record { v = state_version; topics = [] }

abbrev is_not_found : Error → Bool
is_not_found not_found = true
is_not_found _ = false

module _ (parse : Str → Option RoomsFile) (print : RoomsFile → Str) where
  pub read_rooms_file : Option Str → Result RoomsFile
  read_rooms_file file = do
    raw ← ok_or not_found file
    rooms ← ok_or json_error (parse raw)
    bail_if (not (rooms.v == state_version)) rooms_version_mismatch
    ok rooms

  pub list_topics : Option Str → Result (List Str)
  unfolding read_rooms_file
  list_topics file = elim (read_rooms_file file) [
    | ok rooms ↦ ok rooms.topics
    | err e ↦ if is_not_found e then ok [] else err e
  ]

  -- `read_rooms_file(&path).unwrap_or_else(|_| RoomsFile { .. })`
  abbrev or_fresh : Result RoomsFile → RoomsFile
  or_fresh (ok rooms) = rooms
  or_fresh (err e) = fresh

  abbrev push_topic : Str → RoomsFile → RoomsFile
  push_topic topic rooms =
      if not (any (λ t. str_eq t topic) rooms.topics)
      then record rooms { topics = rooms.topics ++ topic ∷ [] }
      else rooms

  -- the file after `add_topic`
  pub add_topic : Option Str → Str → Option Str
  unfolding read_rooms_file
  add_topic file topic = some (print (push_topic topic (or_fresh (read_rooms_file file))))

  -- the file after `remove_topic`, or its error
  pub remove_topic : Option Str → Str → Result (Option Str)
  unfolding read_rooms_file retain_ne
  remove_topic file topic = elim (read_rooms_file file) [
    | err e ↦ if is_not_found e then ok file else err e
    | ok rooms ↦
        let left = retain_ne topic rooms.topics in
        if not (length left == length rooms.topics)
        then ok (some (print (record rooms { topics = left })))
        else ok file
  ]

  pub remove_all_topics : Option Str → Option Str
  remove_all_topics none = none
  remove_all_topics (some raw) = some (print fresh)

pub record PendingJoin : Type 0 where
  pub v : ℕ
  pub token : Str
  pub claude_pid : ℕ
  pub topic : Str
  pub ticket : Str
  pub requested_at_ms : ℕ

-- the check of `pending_join_path`
pub check_token : Str → Result (Unit {0})
check_token token =
    bail_if
      (is_empty token
        || contains_byte token b'/'
        || contains_byte token b'\\'
        || contains_byte token 0)
      pending_token_invalid

-- The directory of pending joins: the content of `<token>.json` for each token.
abbrev pub PendingDir : Type 0
PendingDir = Str → Option Str

abbrev put : PendingDir → Str → Option Str → PendingDir
put dir token content t = if str_eq token t then content else dir t

module _ (parse : Str → Option PendingJoin) (print : PendingJoin → Str) where
  pub read_pending_join : Option Str → Result PendingJoin
  read_pending_join file = do
    raw ← ok_or not_found file
    pj ← ok_or json_error (parse raw)
    bail_if (not (pj.v == state_version)) pending_version_mismatch
    ok pj

  -- `create_pending_join`, with the random token and the time given
  pub create_pending_join : PendingDir → Str → ℕ → ℕ → Str → Str → Result (Str × PendingDir)
  unfolding check_token
  create_pending_join dir token now claude_pid topic ticket = do
    check_token token
    let pj : PendingJoin = record {
      v = state_version;
      token = token;
      claude_pid = claude_pid;
      topic = topic;
      ticket = ticket;
      requested_at_ms = now;
    }
    ok (token, put dir token (some (print pj)))

  -- `consume_pending_join` with nobody in between: read, rename away, remove
  pub consume_pending_join : PendingDir → Str → Result (PendingJoin × PendingDir)
  unfolding check_token read_pending_join
  consume_pending_join dir token = do
    check_token token
    pj ← read_pending_join (dir token)
    ok (pj, put dir token none)

  -- the entries of the directory that can be read, in the order in which they are listed
  pub list_pending_joins : List Str → List PendingJoin
  unfolding read_pending_join
  list_pending_joins [] = []
  list_pending_joins (content ∷ files) = elim (read_pending_join (some content)) [
    | ok pj ↦ pj ∷ list_pending_joins files
    | err e ↦ list_pending_joins files
  ]

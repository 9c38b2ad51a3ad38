-- ===== src/Cursor.antt =====
-- crates/cc-connect-core/src/cursor_io.rs: the mark of the last message that a session has seen. The
-- file system is what the path points to, an inode with its content; `serde_json::from_str` on the
-- JSON form of a cursor is a parameter. Modes, fsync and the names of temporary files are outside.
pub mod Tests
pub mod Race
pub mod ReadBack
use minara_connect.Base.{
  ℕ, zero, suc, Bool, true, false, not, Option, none, some, List, [], ◌∷◌, ◌++◌, ◌==◌,
  if◌then◌else◌, Str, starts_with, is_empty, is_utf8, Result, ok, err, ◌>>=◌, ◌>>◌, bail_if, ok_or,
  io_error, cursor_parse_error, cursor_race_retry_exhausted,
}

abbrev pub race_retry_limit : ℕ
race_retry_limit = 5

-- `trim_end_matches(c)`
pub trim_end_matches : ℕ → Str → Str
trim_end_matches c [] = []
trim_end_matches c (b ∷ s) =
    let rest = trim_end_matches c s in
    if is_empty rest then (if b == c then [] else b ∷ []) else b ∷ rest

-- `read_cursor`, on the content of the file, if there is one
pub read_cursor : (Str → Option Str) → Option Str → Result (Option Str)
unfolding trim_end_matches
read_cursor from_str none = ok none
read_cursor from_str (some raw) =
    let trimmed = trim_end_matches b'\r' (trim_end_matches b'\n' raw) in
    if not (is_utf8 raw)
    then err io_error
    else if is_empty trimmed
    then ok none
    else if starts_with trimmed (b'{' ∷ [])
    then (do id ← ok_or cursor_parse_error (from_str trimmed); ok (some id))
    else ok (some trimmed)

-- The inode at the path with its content, if there is one, and the next inode. An inode that is held
-- open is not given out again.
pub record CursorFs : Type 0 where
  pub path : Option (ℕ × Str)
  pub next_ino : ℕ

pub new_file : Str → CursorFs → CursorFs
new_file content fs = record { path = some (fs.next_ino, content); next_ino = suc fs.next_ino }

-- `open_cursor_rwc`: the inode that the descriptor holds
pub open_cursor_rwc : CursorFs → ℕ × CursorFs
unfolding new_file
open_cursor_rwc fs = elim fs.path [
  | some file ↦ (file.0, fs)
  | none ↦ (fs.next_ino, new_file [] fs)
]

-- `path_matches_fd`
abbrev pub path_matches_fd : CursorFs → ℕ → Bool
path_matches_fd fs fd = elim fs.path [ none ↦ false | some file ↦ file.0 == fd ]

-- `write_atomically`: a new file is renamed over the path.
pub write_atomically : Str → CursorFs → CursorFs
unfolding new_file
write_atomically new_ulid fs = new_file new_ulid fs

-- What other writers rename over the path, in their order.
pub others_write : List Str → CursorFs → CursorFs
unfolding write_atomically
others_write [] fs = fs
others_write (ulid ∷ ulids) fs = others_write ulids (write_atomically ulid fs)

abbrev pub written_at : List (List Str) → List Str
written_at [] = []
written_at (ulids ∷ later) = ulids

abbrev pub written_later : List (List Str) → List (List Str)
written_later [] = []
written_later (ulids ∷ later) = later

-- what an attempt does behind the lock: it writes, or it tries again
pub behind_lock :
    ℕ → Str → (CursorFs → CursorFs × Result (Unit {0})) → CursorFs → CursorFs × Result (Unit {0})
unfolding write_atomically
behind_lock fd new_ulid retry fs = elim (path_matches_fd fs fd) [
  | true ↦ (write_atomically new_ulid fs, ok tt)
  | false ↦ retry fs
]

-- The loop, with so many attempts left. The list has what other writers do in each attempt between
-- our open and our lock.
pub advance : ℕ → List (List Str) → Str → CursorFs → CursorFs × Result (Unit {0})
unfolding open_cursor_rwc others_write behind_lock
advance zero others new_ulid fs = (fs, err cursor_race_retry_exhausted)
advance (suc attempts) others new_ulid fs =
    let (fd, opened) = open_cursor_rwc fs in
    behind_lock fd new_ulid (advance attempts (written_later others) new_ulid)
      (others_write (written_at others) opened)

pub advance_cursor : List (List Str) → Str → CursorFs → CursorFs × Result (Unit {0})
unfolding advance
advance_cursor others new_ulid fs = advance race_retry_limit others new_ulid fs

-- the content of the cursor file
abbrev pub content_of : CursorFs → Option Str
content_of fs = elim fs.path [ none ↦ none | some file ↦ some file.1 ]

-- ===== src/LogIo.antt =====
-- crates/cc-connect-core/src/log_io.rs: the append-only log, one JSON message to a line. The state is
-- the content of the file. Opening, modes, locks and fsync are the operating system's; an append
-- under the exclusive lock is one step.
pub mod Tests
pub mod Lines
pub mod ReadBack
pub mod Ids
pub mod Samples
use minara_connect.Base.{
  ℕ, suc, Bool, true, false, not, ◌&&◌, Option, none, some, List, [], ◌∷◌, ◌++◌, ◌==◌,
  if◌then◌else◌, Str, str, str_le, starts_with, contains_byte, is_empty, is_utf8, Result, ok, err,
  ◌>>=◌, ◌>>◌, bail_if, append_invariant,
}
use minara_connect.Message.{Message, from_wire_bytes, to_canonical_json}

-- `append`: the content after it, or its error, at which nothing is written
pub append : (Message → Option Str) → Str → Message → Result Str
append to_vec content m = do
  payload ← to_canonical_json to_vec m
  bail_if (contains_byte payload b'\n') append_invariant
  ok (content ++ (payload ++ b'\n' ∷ []))

abbrev push_byte : ℕ → List Str → List Str
push_byte b [] = (b ∷ []) ∷ []
push_byte b (l ∷ ls) = (b ∷ l) ∷ ls

-- `reader.lines()`: without the newlines, nor a carriage return in front of one
pub lines : Str → List Str
lines [] = []
lines (b ∷ s) =
    let rest = lines s in
    if b == b'\n'
    then [] ∷ rest
    else if b == b'\r' && starts_with s (b'\n' ∷ [])
    then rest
    else push_byte b rest

-- `if let Some(c) = cursor { if msg.id.as_str() <= c { continue; } }`
abbrev pub is_after : Option Str → Message → Bool
is_after none m = true
is_after (some c) m = not (str_le m.id c)

-- the body of the loop on one line: the message that it pushes, if any
pub read_line : (Str → Option Message) → Option Str → Str → Option Message
read_line from_slice cursor line =
    if not (is_utf8 line)
    then none
    else if is_empty line
    then none
    else elim (from_wire_bytes from_slice line) [
      | err e ↦ none
      | ok m ↦ if is_after cursor m then some m else none
    ]

pub read_lines : (Str → Option Message) → Option Str → List Str → List Message
unfolding read_line
read_lines from_slice cursor [] = []
read_lines from_slice cursor (l ∷ ls) = elim (read_line from_slice cursor l) [
  | none ↦ read_lines from_slice cursor ls
  | some m ↦ m ∷ read_lines from_slice cursor ls
]

unfoldable pub read_since : (Str → Option Message) → Str → Option Str → List Message
unfolding read_lines lines
read_since from_slice content cursor = read_lines from_slice cursor (lines content)

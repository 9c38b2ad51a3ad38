-- ===== src/ChatSession/History.antt =====
-- What is read from the log for the callers of the socket, and the summary that they save.
pub mod Window
pub mod Tests
use minara_connect.Base.{
  ℕ, ◌-◌, ◌*◌, Bool, true, false, not, Option, none, some, List, [], ◌∷◌, ◌++◌, drop, take, length,
  ltb, leb, if◌then◌else◌, Str, str, str_le, ends_with,
}
use minara_connect.Message.{Message}
use minara_connect.LogIo.{read_since}

abbrev pub mention_context_max : ℕ
mention_context_max = 50

-- `filter(|m| m.id.as_str() < until_id)`
pub before_id : Str → List Message → List Message
before_id until_id [] = []
before_id until_id (m ∷ ms) =
    let rest = before_id until_id ms in if str_le until_id m.id then rest else m ∷ rest

-- The log is none where it cannot be opened.
pub context_between : (Str → Option Message) → Option Str → Option Str → Str → List Message
unfolding before_id
context_between from_slice log none until_id = []
context_between from_slice none (some since) until_id = []
context_between from_slice (some content) (some since) until_id =
    let in_range = before_id until_id (read_since from_slice content (some since)) in
    drop (length in_range - mention_context_max) in_range

pub recent_messages : (Str → Option Message) → Str → ℕ → List Message
recent_messages from_slice content limit =
    let all = read_since from_slice content none in drop (length all - limit) all

abbrev pub summary_max_bytes : ℕ
summary_max_bytes = 64 * 1024

-- the bytes that `save_summary` writes
pub summary_payload : Str → Str
summary_payload text =
    let payload =
      if ltb summary_max_bytes (length text)
      then take summary_max_bytes text ++ str "\n\n…(truncated to 64 KiB)\n"
      else text in
    if ends_with payload (str "\n") then payload else payload ++ b'\n' ∷ []

-- An entry of the directory of files, with its time of modification.
pub record FileEntry : Type 0 where
  pub path : Str
  pub is_file : Bool
  pub mtime : ℕ
  pub size : ℕ

-- `sort_by_key(|e| Reverse(e.0))`, which is stable
pub insert_recent : FileEntry → List FileEntry → List FileEntry
insert_recent e [] = e ∷ []
insert_recent e (f ∷ fs) =
    let behind = f ∷ insert_recent e fs in if leb f.mtime e.mtime then e ∷ f ∷ fs else behind

pub newest_first : List FileEntry → List FileEntry
unfolding insert_recent
newest_first [] = []
newest_first (e ∷ fs) =
    let rest = newest_first fs in if e.is_file then insert_recent e rest else rest

-- A directory that is missing has no entries.
pub list_files_in : List FileEntry → ℕ → List FileEntry
unfolding newest_first
list_files_in entries limit = take limit (newest_first entries)

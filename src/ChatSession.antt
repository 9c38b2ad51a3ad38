-- ===== src/ChatSession.antt =====
-- crates/cc-connect/src/chat_session.rs: one room's session. Mentions has the buffer of mentions,
-- Listener what an event from the gossip mesh does, Sender what a typed line does, Drops how a file
-- is announced, History what is read from the log for the callers of the socket, and Ipc the socket's
-- requests. The mesh, the blob store, the clock and the random ids are outside.
pub mod Mentions
pub mod Drops
pub mod Sender
pub mod Delivery
pub mod History
pub mod Ipc
pub mod Samples
pub mod Tests
pub mod Listener
use minara_connect.Base.{
  ℕ, Bool, true, false, ◌||◌, Option, none, some, List, [], ◌∷◌, ◌++◌, map, ◌==◌, if◌then◌else◌,
  Str, str, str_eq, is_empty, take_chars, decimal, ℤ, Error,
}
use minara_connect.Message.{Message, kind_file_drop}
use minara_connect.HookFormat.Mentions.{mentions_self}
use minara_connect.HookFormat.Line.{join}

-- What a warning is about; its text is left out.
pub data Warning : Type 0 where
  stream_error outgoing_rate_limit unknown_command append_failed index_failed : Warning
  broadcast_failed : Warning
  malformed drop_failed : Error → Warning
  rate_limited blob_failed : Str → Warning
  mesh_quiet : ℕ → Warning

pub data DisplayLine : Type 0 where
  system marker echo : Str → DisplayLine
  incoming : Str → Str → Bool → DisplayLine
  warn : Warning → DisplayLine

abbrev pub is_file_drop : Message → Bool
is_file_drop m = str_eq m.kind kind_file_drop

abbrev pub line_mentions_me : Str → Option Str → Bool
line_mentions_me = mentions_self

-- the sender's own nick, or the start of its key
pub nick_short : Message → Str
nick_short m = elim m.nick [
  | none ↦ take_chars 8 m.author
  | some n ↦ if is_empty n then take_chars 8 m.author else n
]

-- `replace(['\n', '\r', '\t'], " ")` of one byte
abbrev plain_byte : ℕ → ℕ
plain_byte b = if b == b'\n' || b == b'\r' || b == b'\t' then b' ' else b

-- the body as it is shown
pub shown_body : Message → Str
shown_body m =
    if str_eq m.kind kind_file_drop then str "dropped " ++ m.body else map plain_byte m.body

abbrev size_of : Option ℕ → ℕ
size_of none = 0
size_of (some n) = n

-- the line that `append_file_index_entry` writes for a file drop
pub index_entry : Str → Message → Str
index_entry files_dir m =
    str "- "
    ++ (nick_short m
        ++ (str "  "
            ++ (m.body
                ++ (str "  ("
                    ++ (decimal (size_of m.blob_size)
                        ++ (str "B)  @file:"
                            ++ (join files_dir (m.id ++ (b'-' ∷ m.body)) ++ b'\n' ∷ [])))))))

-- `append_file_index_entry`, on the content of INDEX.md
pub append_file_index_entry : Str → Str → Message → Str
unfolding index_entry
append_file_index_entry files_dir index m =
    if str_eq m.kind kind_file_drop then index ++ index_entry files_dir m else index

-- ===== src/Lib.antt =====
-- cc-connect: chat rooms between people and their Claude Code sessions. A peer builds messages,
-- sends them by gossip, keeps a log for each room, answers peers that ask for history, and a hook
-- prints what is unread into the next prompt of the session.
--
-- Base has what all parts share: lists measured by native numbers, the signed integers with the
-- `i64` operations, byte strings (`Str`, with the tests of `str` and the trimming of white space),
-- UTF-8, and results with the error codes of the sources. Every other file of this directory models
-- one source file, with its theorems in child modules and concrete runs in a child Tests:
--
--   RateLimit      crates/cc-connect-core/src/rate_limit.rs: RateLimiter is the state, by author;
--                  check_and_record is one call, of which evict and should_warn are parts.
--   Message        crates/cc-connect-core/src/message.rs: the constructors, the validators,
--                  normalize_ulid, to_canonical_json and from_wire_bytes.
--   HookFormat     crates/cc-connect-core/src/hook_format.rs: Budget (fit_to_budget), Sanitize,
--                  Mentions (is_owner_directive, mentions_self, match_at_token), Truncate, Line
--                  (format_line) and Render (render).
--   LogIo          crates/cc-connect-core/src/log_io.rs: append and read_since on a file's content.
--   SessionState   crates/cc-connect-core/src/session_state.rs: the rooms file and the pending joins.
--   Cursor         crates/cc-connect-core/src/cursor_io.rs: read_cursor, and advance_cursor with what
--                  other writers rename over the path in each attempt.
--   DropSafety     crates/cc-connect-core/src/drop_safety.rs: evaluate on the components of a path.
--   Ticket         crates/cc-connect-core/src/ticket.rs: room codes and their CRC-32.
--   ClaudePid      crates/cc-connect-core/src/claude_pid.rs: find_claude_ancestor_with; Stat has
--                  parse_proc_stat_ppid.
--   Backfill       crates/cc-connect/src/backfill.rs: handle_one (from the parsed request), attempt
--                  (from the parsed response) and the frames.
--   Mention        crates/cc-connect-tui/src/mention.rs: mention_candidates and complete_at.
--   Tabs           crates/cc-connect-tui/src/tabs.rs: TabSet and record_nick.
--   ChatSession    crates/cc-connect/src/chat_session.rs: Listener (handle_event is the body of the
--                  listener's loop), Sender (round is the body of the send loop), Mentions
--                  (MentionState), Drops (build_file_drop), History (context_between,
--                  recent_messages, save_summary, list_files_in), Ipc (dispatch_ipc); Delivery puts a
--                  sender and a listener together.
--   Hook           crates/cc-connect-hook/src/main.rs: run and its steps, Header
--                  (build_orientation_header), Active (enumerate_active_rooms, check_pid_alive).
--   Posix          crates/cc-connect-core/src/posix.rs: ensure_secure_dir.
--   Setup          crates/cc-connect/src/setup.rs: ensure_self_nick.
--
-- The parts meet as in the program: LogIo reads a line by Message.from_wire_bytes, Backfill reads and
-- appends by LogIo, HookFormat renders the messages of Message, ChatSession sends and hears them under
-- RateLimit, keeps them by LogIo and asks DropSafety about files, and Hook reads what is behind a
-- Cursor and prints what HookFormat renders. Of the mesh, the clock, the fresh ids, the files and the
-- blob store, a session sees the values that come with each event.
--
-- Conventions. A `String` is the list of its bytes, and a file is its content. A `u32` or `usize` is
-- a native number; the checksum is cut to 32 bits. What serde_json, base32 and the operating system
-- do is a parameter, with the documented behaviour that a theorem needs as its hypothesis. A hash
-- map is a function. An error is the code that its text begins with.
--
-- Loops and fuel: match_at_token has one round for each byte and one more, since every round moves
-- the position on; trimming has one for each byte; the walk of ClaudePid has the 16 levels and
-- the loop of Cursor the five attempts of the source. The recursion of Posix has a list of what each
-- attempt meets, and is answered by the first attempt that is not raced. All other loops are
-- structural, those of a session on the list of what arrives.
--
-- Not modelled: network, tasks and processes (gossip, blobs, the daemon, the terminal's drawing and
-- its embedded terminals), file modes, locks, fsync and directories, so an append under the lock and
-- a write by rename are one step each; the vendored ed25519 crates; the VS Code extension, the web
-- chat and the scripts. `current_at_token` of mention.rs asks for the Unicode classes of characters
-- and is left out.
pub mod Base
pub mod RateLimit
pub mod Message
pub mod HookFormat
pub mod LogIo
pub mod SessionState
pub mod ClaudePid
pub mod Backfill
pub mod Ticket
pub mod Mention
pub mod Tabs
pub mod Cursor
pub mod DropSafety
pub mod ChatSession
pub mod Hook
pub mod Posix
pub mod Setup

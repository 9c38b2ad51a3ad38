-- ===== src/Setup.antt =====
-- crates/cc-connect/src/setup.rs: the nickname that the user chooses. The file of the settings is its
-- nickname, and the terminal's answer an argument.
pub mod Nick
pub mod Tests
use minara_connect.Base.{
  ℕ, Option, none, some, ltb, length, any, if◌then◌else◌, Str, trim, chars, is_empty, Result, ok,
  err, ◌>>=◌, ◌>>◌, bail_if, nick_too_large, nick_invalid, Bool, not, io_error,
}
use minara_connect.Message.{nick_max_bytes, is_control}

pub sanitize_nick : Str → Result Str
sanitize_nick raw = do
  bail_if (ltb nick_max_bytes (length (trim raw))) nick_too_large
  bail_if (any is_control (chars (trim raw))) nick_invalid
  ok (trim raw)

abbrev unless_empty : Str → Option Str
unless_empty nick = if is_empty nick then none else some nick

-- `ensure_self_nick`: the nickname in the settings afterwards, and the one returned; the settings are
-- read as `saved` and can be written or not.
pub ensure_self_nick : Bool → Option Str → Option Str → Str → Result (Option Str × Option Str)
unfolding sanitize_nick
ensure_self_nick write_ok (some raw) saved answer = do
  nick ← sanitize_nick raw
  bail_if (not write_ok) io_error
  ok (some nick, unless_empty nick)
ensure_self_nick write_ok none (some existing) answer = ok (some existing, unless_empty existing)
ensure_self_nick write_ok none none answer = do
  nick ← sanitize_nick answer
  bail_if (not write_ok) io_error
  ok (some nick, unless_empty nick)

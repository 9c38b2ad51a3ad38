-- ===== src/HookFormat/Sanitize.antt =====
-- `sanitize_nick` and `sanitize_body`, and the validity test of `String::from_utf8`.
pub mod Valid
use minara_connect.Base.{
  ℕ, zero, suc, ◌||◌, ◌&&◌, not, Bool, true, false, Option, none, some, List, [], ◌∷◌, map, Str,
  str, ltb, ◌==◌, within, if◌then◌else◌, is_utf8,
}

abbrev pub sanitize_nick_byte : ℕ → ℕ
sanitize_nick_byte b =
    if b == b'\n' || b == b'\r' || b == b'\t' || not (within 0x20 0x7E b) then b'?' else b

pub sanitize_nick : Str → Str
sanitize_nick = map sanitize_nick_byte

abbrev pub sanitize_body_byte : ℕ → ℕ
sanitize_body_byte b = if ltb b 0x20 || b == 0x7F then b' ' else b

abbrev pub sanitize_fault : Str
sanitize_fault = str "[chatroom] (sanitize fault)"

pub sanitize_body : Str → Str
sanitize_body s =
    let bytes = map sanitize_body_byte s in if is_utf8 bytes then bytes else sanitize_fault

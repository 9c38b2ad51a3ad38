-- ===== src/Ticket.antt =====
-- crates/cc-connect-core/src/ticket.rs: the room code around the bytes of a ticket. RFC 4648 base32
-- is the data_encoding crate's, a parameter: `encode` and `decode` of BASE32_NOPAD.
pub mod Tests
pub mod Crc
pub mod RoundTrip
use minara_connect.Base.{
  ℕ, zero, suc, ◌+◌, ◌-◌, ◌*◌, ◌/◌, ◌%◌, ◌^◌, Bool, true, false, not, ◌&&◌, Option, none, some,
  List, [], ◌∷◌, ◌++◌, take, drop, ◌==◌, ltb, leb, if◌then◌else◌, length, Str, str, map,
  to_ascii_lowercase, starts_with, Result, ok, err, ◌>>=◌, ◌>>◌, bail_if, ok_or, invalid_prefix,
  base32_error, truncated, checksum_mismatch,
}

abbrev pub room_code_prefix : Str
room_code_prefix = str "cc1-"

-- Exclusive or on so many bits.
pub xor_bits : ℕ → ℕ → ℕ → ℕ
xor_bits zero a b = 0
xor_bits (suc w) a b = (a % 2 + b % 2) % 2 + 2 * xor_bits w (a / 2) (b / 2)

pub xor : ℕ → ℕ → ℕ
unfolding xor_bits
xor a b = xor_bits 32 a b

-- One round of the inner loop. The mask is all ones if the low bit is set, and 0 else.
pub crc_bit : ℕ → ℕ
unfolding xor
crc_bit crc = xor (crc / 2) (if crc % 2 == 1 then 3988292384 else 0)

pub crc_bits : ℕ → ℕ → ℕ
unfolding crc_bit
crc_bits zero crc = crc
crc_bits (suc n) crc = crc_bits n (crc_bit crc)

pub crc_bytes : Str → ℕ → ℕ
unfolding crc_bits xor
crc_bytes [] crc = crc
crc_bytes (b ∷ bytes) crc = crc_bytes bytes (crc_bits 8 (xor crc b))

pub crc32_iso_hdlc : Str → ℕ
unfolding crc_bytes xor
crc32_iso_hdlc bytes = xor (crc_bytes bytes 4294967295) 4294967295

-- `u32::to_be_bytes` and `u32::from_be_bytes`
abbrev pub crc_to_be_bytes : ℕ → Str
crc_to_be_bytes n = n / 2 ^ 24 % 256 ∷ n / 2 ^ 16 % 256 ∷ n / 2 ^ 8 % 256 ∷ n % 256 ∷ []

pub encode_room_code : (Str → Str) → Str → Str
unfolding crc32_iso_hdlc
encode_room_code encode ticket_bytes =
    room_code_prefix
    ++ to_ascii_lowercase (encode (ticket_bytes ++ crc_to_be_bytes (crc32_iso_hdlc ticket_bytes)))

-- `strip_prefix(ROOM_CODE_PREFIX)`
abbrev strip_prefix : Str → Option Str
strip_prefix s =
    if starts_with s room_code_prefix then some (drop (length room_code_prefix) s) else none

abbrev to_upper : ℕ → ℕ
to_upper b = if leb b'a' b && leb b b'z' then b - 32 else b

abbrev pub to_ascii_uppercase : Str → Str
to_ascii_uppercase s = map to_upper s

-- `u32::from_be_bytes` of the four bytes split off
abbrev claimed_crc : Str → ℕ
claimed_crc (a ∷ b ∷ c ∷ d ∷ _) = ((a * 256 + b) * 256 + c) * 256 + d
claimed_crc _ = 0

-- from step 3 on, on the decoded payload
pub check_payload : Str → Result Str
unfolding crc32_iso_hdlc
check_payload payload = do
  bail_if (ltb (length payload) 4) truncated
  let crc_start = length payload - 4
  let ticket_bytes = take crc_start payload
  bail_if (not (claimed_crc (drop crc_start payload) == crc32_iso_hdlc ticket_bytes))
      checksum_mismatch
  ok ticket_bytes

pub decode_room_code : (Str → Option Str) → Str → Result Str
unfolding check_payload
decode_room_code decode room_code = do
  b32 ← ok_or invalid_prefix (strip_prefix room_code)
  payload ← ok_or base32_error (decode (to_ascii_uppercase b32))
  check_payload payload

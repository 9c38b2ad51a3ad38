-- ===== src/Ticket/Crc.antt =====
-- crates/cc-connect-core/src/ticket.rs, crc32_iso_hdlc: its value is a u32.
use minara_connect.Base.{ℕ, zero, suc, ◌/◌, ◌^◌, ◌<◌, arith, Str}
use minara_connect.Ticket.{xor_bits, xor, crc_bytes, crc32_iso_hdlc}

xor_bits-bound : (w a b : ℕ) → xor_bits w a b < 2 ^ w
unfolding xor_bits
xor_bits-bound zero a b = omega arith
xor_bits-bound (suc w) a b = omega (arith, xor_bits-bound w (a / 2) (b / 2))

pub crc32_iso_hdlc_bound : (bytes : Str) → crc32_iso_hdlc bytes < 2 ^ 32
unfolding crc32_iso_hdlc xor
crc32_iso_hdlc_bound bytes = xor_bits-bound 32 (crc_bytes bytes 4294967295) 4294967295

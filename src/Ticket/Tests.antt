-- ===== src/Ticket/Tests.antt =====
-- Room codes over a small codec in the base32 alphabet: two letters for a byte.
use minara_connect.Base.{
  ℕ, ◌+◌, ◌-◌, ◌*◌, ◌/◌, ◌%◌, ◌<◌, ◌≡◌, ◌↔◌, inl, inr, refl, true, ◌&&◌, Option, none, some, [],
  ◌∷◌, ◌++◌, All, arith, if◌then◌else◌, within, Str, str, ok, Bool-cases,
}
use minara_connect.Ticket.{
  crc32_iso_hdlc, crc_to_be_bytes, room_code_prefix, encode_room_code, decode_room_code,
  to_ascii_uppercase,
}
use minara_connect.Ticket.RoundTrip.{
  IsBase32, IsByte, decode-encode_room_code, decode_room_code_iff,
}

crc32_iso_hdlc_test : crc32_iso_hdlc (str "123456789") ≡ 0xCBF43926
unfolding crc32_iso_hdlc
crc32_iso_hdlc_test = refl

encode : Str → Str
encode [] = []
encode (b ∷ s) = (b'A' + b / 16) ∷ (b'A' + b % 16) ∷ encode s

push : ℕ → ℕ → Option Str → Option Str
push x y none = none
push x y (some s) =
    if within b'A' b'P' x && within b'A' b'P' y
    then some (((x - b'A') * 16 + (y - b'A')) ∷ s)
    else none

decode : Str → Option Str
unfolding push
decode [] = some []
decode (x ∷ []) = none
decode (x ∷ y ∷ s) = push x y (decode s)

encode-IsBase32 : (s : Str) → All IsByte s → IsBase32 (encode s)
unfolding encode
encode-IsBase32 [] h = tt
encode-IsBase32 (b ∷ s) h =
    (inl (omega arith, omega arith), (inl (omega arith, omega arith), encode-IsBase32 s h.1))

push_byte :
    (b : ℕ) (s : Str) → b < 256 → push (b'A' + b / 16) (b'A' + b % 16) (some s) ≡ some (b ∷ s)
unfolding push
push_byte b s h =
    let fits : (within b'A' b'P' (b'A' + b / 16) && within b'A' b'P' (b'A' + b % 16)) ≡ true =
      ground arith in
    let back : (b'A' + b / 16 - b'A') * 16 + (b'A' + b % 16 - b'A') ≡ b = omega arith in
    rw (fits, back) refl

decode-encode : (s : Str) → All IsByte s → decode (encode s) ≡ some s
unfolding decode encode
decode-encode [] h = refl
decode-encode (b ∷ s) h = rw (decode-encode s h.1) (push_byte b s h.0)

IsByteOption : Option Str → Type 0
IsByteOption none = Unit
IsByteOption (some s) = All IsByte s

push-IsByte : (x y : ℕ) (o : Option Str) → IsByteOption o → IsByteOption (push x y o)
unfolding push IsByteOption
push-IsByte x y none h = tt
push-IsByte x y (some s) h = elim (Bool-cases (within b'A' b'P' x && within b'A' b'P' y)) [
  | inl e ↦ rw e (ground arith, h)
  | inr e ↦ rw e tt
]

decode-option : (s : Str) → IsByteOption (decode s)
unfolding decode IsByteOption
decode-option [] = tt
decode-option (x ∷ []) = tt
decode-option (x ∷ y ∷ s) = push-IsByte x y (decode s) (decode-option s)

decode-IsByte : (s t : Str) → decode s ≡ some t → All IsByte t
unfolding IsByteOption
decode-IsByte s t h = rw h at (decode-option s)

abbrev ticket : Str
ticket = 0 ∷ 255 ∷ 7 ∷ []

decode-encode_room_code_example :
    decode_room_code decode (encode_room_code encode ticket) ≡ ok ticket
decode-encode_room_code_example =
    decode-encode_room_code encode decode encode-IsBase32 decode-encode decode-IsByte ticket
      (omega arith)

decode_room_code_iff_example : (decode_room_code decode (str "cc1-aappahcb") ≡ ok ticket) ↔ (
    (b32 : Str) × (str "cc1-aappahcb" ≡ room_code_prefix ++ b32)
    × (decode (to_ascii_uppercase b32) ≡ some (ticket ++ crc_to_be_bytes (crc32_iso_hdlc ticket))))
decode_room_code_iff_example =
    decode_room_code_iff encode decode encode-IsBase32 decode-encode decode-IsByte
      (str "cc1-aappahcb") ticket

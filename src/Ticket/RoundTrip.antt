-- ===== src/Ticket/RoundTrip.antt =====
-- crates/cc-connect-core/src/ticket.rs: which room codes decode, and to what.
use minara_connect.Base.{
  ℕ, zero, suc, ◌-◌, ◌/◌, ◌%◌, ◌^◌, ◌≤◌, ◌<◌, ◌≡◌, ◌↔◌, ◌⊎◌, refl, sym, ap, ◌∙◌, inl, inr, true,
  false, not, Option, none, some, [], ◌∷◌, ◌++◌, take, drop, take-append-drop, length,
  length-append, arith, ◌==◌, ltb, Str, to_ascii_lowercase, lower_byte, starts_with, All,
  All-append, ok, >>=-eq-ok, >>-eq-ok, bail_if, bail_if-eq-ok, ok_or, Error, base32_error,
  invalid_prefix, Bool-cases,
}
use minara_connect.Ticket.{
  room_code_prefix, crc32_iso_hdlc, crc_to_be_bytes, encode_room_code, strip_prefix, to_upper,
  to_ascii_uppercase, claimed_crc, check_payload, decode_room_code,
}
use minara_connect.Ticket.Crc.{crc32_iso_hdlc_bound}

-- the letters of base32: A to Z and 2 to 7
abbrev pub IsBase32 : Str → Type 0
IsBase32 s = All (λ b. ((b'A' ≤ b) × (b ≤ b'Z')) ⊎ ((b'2' ≤ b) × (b ≤ b'7'))) s

upper-lower : (s : Str) → IsBase32 s → to_ascii_uppercase (to_ascii_lowercase s) ≡ s
unfolding to_ascii_lowercase
upper-lower [] h = refl
upper-lower (b ∷ s) (h, hs) =
    let e : to_upper (lower_byte b) ≡ b = ground arith in rw (e, upper-lower s hs) refl

claimed-be : (n : ℕ) → n < 2 ^ 32 → claimed_crc (crc_to_be_bytes n) ≡ n
claimed-be n h = omega arith

take-append : (xs ys : Str) → take (length xs) (xs ++ ys) ≡ xs
take-append [] ys = refl
take-append (x ∷ xs) ys = ap (◌∷◌ x) (take-append xs ys)

drop-append : (xs ys : Str) → drop (length xs) (xs ++ ys) ≡ ys
drop-append [] ys = refl
drop-append (x ∷ xs) ys = drop-append xs ys

-- A payload is accepted exactly if it is the ticket with its checksum behind it.
check_payload_of :
    (ticket : Str) → check_payload (ticket ++ crc_to_be_bytes (crc32_iso_hdlc ticket)) ≡ ok ticket
unfolding check_payload
check_payload_of ticket =
    let tail = crc_to_be_bytes (crc32_iso_hdlc ticket) in
    let long : ltb (length (ticket ++ tail)) 4 ≡ false =
      ground (arith, length-append ticket tail) in
    let start : length (ticket ++ tail) - 4 ≡ length ticket =
      omega (arith, length-append ticket tail) in
    let same : (claimed_crc tail == crc32_iso_hdlc ticket) ≡ true =
      ground (arith, claimed-be _ (crc32_iso_hdlc_bound ticket)) in
    rw (long, start, take-append ticket tail, drop-append ticket tail, same) refl

abbrev pub IsByte : ℕ → Type 0
IsByte b = b < 256

be-claimed : (s : Str) → All IsByte s → length s ≡ 4 → crc_to_be_bytes (claimed_crc s) ≡ s
be-claimed [] h k = absurd (omega arith)
be-claimed (a ∷ []) h k = absurd (omega arith)
be-claimed (a ∷ b ∷ []) h k = absurd (omega arith)
be-claimed (a ∷ b ∷ c ∷ []) h k = absurd (omega arith)
be-claimed (a ∷ b ∷ c ∷ d ∷ []) (ha, (hb, (hc, (hd, _)))) k =
    let n = claimed_crc (a ∷ b ∷ c ∷ d ∷ []) in
    let e1 : n / 2 ^ 24 % 256 ≡ a = omega arith in
    let e2 : n / 2 ^ 16 % 256 ≡ b = omega arith in
    let e3 : n / 2 ^ 8 % 256 ≡ c = omega arith in
    let e4 : n % 256 ≡ d = omega arith in rw (e1, e2, e3, e4) refl
be-claimed (a ∷ b ∷ c ∷ d ∷ e ∷ s) h k = absurd (omega arith)

All-drop : (n : ℕ) (s : Str) → All IsByte s → All IsByte (drop n s)
All-drop zero s h = h
All-drop (suc n) [] h = tt
All-drop (suc n) (b ∷ s) (_, h) = All-drop n s h

length-drop : (n : ℕ) (s : Str) → length (drop n s) ≡ length s - n
length-drop zero s = omega arith
length-drop (suc n) [] = omega arith
length-drop (suc n) (b ∷ s) = omega (arith, length-drop n s)

check_payload_is :
    (payload ticket : Str)
    → All IsByte payload
    → check_payload payload ≡ ok ticket
    → payload ≡ ticket ++ crc_to_be_bytes (crc32_iso_hdlc ticket)
unfolding check_payload
check_payload_is payload ticket bytes h =
    let start = length payload - 4 in
    let (long, h1) = >>-eq-ok (bail_if (ltb (length payload) 4) _) _ h in
    let long' = bail_if-eq-ok _ _ long in
    let (same, h2) =
      >>-eq-ok
        (bail_if (not (claimed_crc (drop start payload) == crc32_iso_hdlc (take start payload))) _)
        _ h1 in
    let same' = bail_if-eq-ok _ _ same in
    let is_ticket : take start payload ≡ ticket = ground arith in
    let claimed : claimed_crc (drop start payload) ≡ crc32_iso_hdlc (take start payload) =
      ground arith in
    let four : length (drop start payload) ≡ 4 = ground (arith, length-drop start payload) in
    let is_tail : drop start payload ≡ crc_to_be_bytes (crc32_iso_hdlc (take start payload)) =
      sym (be-claimed (drop start payload) (All-drop start payload bytes) four)
      ∙ ap crc_to_be_bytes claimed in
    sym (take-append-drop start payload) ∙ rw (is_tail, is_ticket) refl

starts_with_cases : (p s : Str) → starts_with s p ≡ true → s ≡ p ++ drop (length p) s
unfolding starts_with
starts_with_cases [] s h = refl
starts_with_cases (b ∷ p) [] h = absurd (ground arith)
starts_with_cases (b ∷ p) (c ∷ s) h =
    let same : c ≡ b = ground arith in rw same (ap (◌∷◌ b) (starts_with_cases p s (ground arith)))

ok_or-some : {o : Option Str} {s : Str} (e : Error) → ok_or e o ≡ ok s → o ≡ some s
ok_or-some {o = none} e h = cc
ok_or-some {o = some t} e h = ap some (ground arith)

strip_prefix_is : (s t : Str) → strip_prefix s ≡ some t → s ≡ room_code_prefix ++ t
strip_prefix_is s t h = elim (Bool-cases (starts_with s room_code_prefix)) [
  | inl e ↦
      let rest : drop (length room_code_prefix) s ≡ t = let h' = rw e at h in ground arith in
      rw rest at (starts_with_cases room_code_prefix s e)
  | inr e ↦ absurd (let h' = rw e at h in ground arith)
]

module _ (encode : Str → Str) (decode : Str → Option Str)
    (encode-IsBase32 : (s : Str) → All IsByte s → IsBase32 (encode s))
    (decode-encode : (s : Str) → All IsByte s → decode (encode s) ≡ some s)
    (decode-IsByte : (s t : Str) → decode s ≡ some t → All IsByte t) where
  payload-IsByte :
      (ticket : Str)
      → All IsByte ticket
      → All IsByte (ticket ++ crc_to_be_bytes (crc32_iso_hdlc ticket))
  payload-IsByte ticket h =
      All-append IsByte ticket _ h (omega arith, (omega arith, (omega arith, (omega arith, tt))))

  -- Every ticket of bytes comes back from its room code, if base32 decodes what it encodes and
  -- encodes in its alphabet.
  pub decode-encode_room_code :
      (ticket : Str)
      → All IsByte ticket
      → decode_room_code decode (encode_room_code encode ticket) ≡ ok ticket
  unfolding decode_room_code encode_room_code starts_with
  decode-encode_room_code ticket h =
      let payload = ticket ++ crc_to_be_bytes (crc32_iso_hdlc ticket) in
      let bytes = payload-IsByte ticket h in
      rw (upper-lower (encode payload) (encode-IsBase32 payload bytes), decode-encode payload bytes)
        (check_payload_of ticket)

  -- If base32 decodes to bytes: a text decodes to a ticket exactly if it is `cc1-` before a text whose upper-case form is base32
  -- for the ticket and its own checksum. So a payload with any other checksum is refused.
  pub decode_room_code_iff :
      (code ticket : Str)
      → (decode_room_code decode code ≡ ok ticket) ↔ (
          (b32 : Str) × (code ≡ room_code_prefix ++ b32)
          × (decode (to_ascii_uppercase b32)
              ≡ some (ticket ++ crc_to_be_bytes (crc32_iso_hdlc ticket))))
  unfolding decode_room_code starts_with
  decode_room_code_iff code ticket = (
    (λ h.
        let (b32, e, h1) = >>=-eq-ok (ok_or _ (strip_prefix code)) _ h in
        let (payload, d, h2) = >>=-eq-ok (ok_or _ (decode (to_ascii_uppercase b32))) _ h1 in
        let is_payload = ok_or-some base32_error d in
        (
          b32,
          strip_prefix_is code b32 (ok_or-some invalid_prefix e),
          is_payload ∙ ap some (check_payload_is payload ticket (decode-IsByte _ _ is_payload) h2),
        )),
    (λ k. rw k.1 (rw k.2 (check_payload_of ticket))),
  )

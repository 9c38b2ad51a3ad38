-- ===== src/HookFormat/Sanitize/Valid.antt =====
-- What the sanitizers promise: no fault on a `String`, no control byte in the output, same length.
use minara_connect.Base.{
  lead, is_utf8_from, is_utf8, inl, inr, ◌≢◌, ◌∙◌, Bool-cases, Option-cases, ℕ, zero, suc, ◌≤◌, ◌≡◌,
  refl, true, some, [], ◌∷◌, map, arith, Str, within, All, length,
}
use minara_connect.HookFormat.Sanitize.{
  sanitize_nick, sanitize_body_byte, sanitize_body, sanitize_fault,
}

lead-sanitize_body_byte : (b : ℕ) → lead (sanitize_body_byte b) ≡ lead b
unfolding lead
lead-sanitize_body_byte b = ground arith

within-sanitize_body_byte :
    (lo hi b : ℕ) → 0x80 ≤ lo → within lo hi (sanitize_body_byte b) ≡ within lo hi b
within-sanitize_body_byte lo hi b h = ground arith

-- the range that a lead byte gives starts at 0x80 or later
lead-le : (b left lo hi : ℕ) → lead b ≡ some (left, lo, hi) → 0x80 ≤ lo
unfolding lead
lead-le b left lo hi h = ground arith

is_utf8_from-map :
    (left lo hi : ℕ) (s : Str)
    → 0x80 ≤ lo
    → is_utf8_from left lo hi (map sanitize_body_byte s) ≡ is_utf8_from left lo hi s
unfolding is_utf8_from
is_utf8_from-map zero lo hi [] h = refl
is_utf8_from-map (suc left) lo hi [] h = refl
is_utf8_from-map zero lo hi (b ∷ s) h = elim (Option-cases (lead b)) [
  | inl e ↦ rw (lead-sanitize_body_byte b, e, is_utf8_from)
  | inr ((left, lo', hi'), e) ↦
      rw (lead-sanitize_body_byte b, e, is_utf8_from)
        (is_utf8_from-map left lo' hi' s (lead-le b left lo' hi' e))
]
is_utf8_from-map (suc left) lo hi (b ∷ s) h =
    rw (within-sanitize_body_byte lo hi b h, is_utf8_from-map left 0x80 0xBF s (omega arith))

-- On valid UTF-8, such as the bytes of a `String`, the sanitized bytes are valid too. So the fault
-- marker is never printed: what comes back is every byte, the control bytes made spaces.
pub sanitize_body_never_faults :
    (s : Str)
    → is_utf8 s ≡ true
    → (sanitize_body s ≡ map sanitize_body_byte s) × (is_utf8 (sanitize_body s) ≡ true)
unfolding sanitize_body is_utf8
sanitize_body_never_faults s h =
    let valid = is_utf8_from-map 0 0x80 0xBF s (omega arith) ∙ h in (rw valid, rw valid valid)

-- a byte that is no control character: neither C0 nor DEL
abbrev pub IsPlain : ℕ → Type 0
IsPlain b = (0x20 ≤ b) × (b ≢ 0x7F)

map-sanitize_body_byte-IsPlain : (s : Str) → All IsPlain (map sanitize_body_byte s)
map-sanitize_body_byte-IsPlain [] = tt
map-sanitize_body_byte-IsPlain (b ∷ s) =
    ((ground arith, ground arith), map-sanitize_body_byte-IsPlain s)

sanitize_fault-IsPlain : All IsPlain sanitize_fault
sanitize_fault-IsPlain = omega arith

-- Whatever the body holds, the sanitized body has no control byte, so no newline.
pub sanitize_body-IsPlain : (s : Str) → All IsPlain (sanitize_body s)
unfolding sanitize_body
sanitize_body-IsPlain s = elim (Bool-cases (is_utf8 (map sanitize_body_byte s))) [
  | inl valid ↦ rw valid (map-sanitize_body_byte-IsPlain s)
  | inr fault ↦ rw fault sanitize_fault-IsPlain
]

abbrev pub IsPrintable : ℕ → Type 0
IsPrintable b = (0x20 ≤ b) × (b ≤ 0x7E)

-- A sanitized nickname is printable ASCII, byte for byte as long as the raw one.
pub sanitize_nick-IsPrintable :
    (s : Str) → All IsPrintable (sanitize_nick s) × (length (sanitize_nick s) ≡ length s)
unfolding sanitize_nick
sanitize_nick-IsPrintable [] = (tt, refl)
sanitize_nick-IsPrintable (b ∷ s) =
    let (rest, len) = sanitize_nick-IsPrintable s in
    (((ground arith, ground arith), rest), omega arith)

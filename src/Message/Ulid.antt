-- ===== src/Message/Ulid.antt =====
-- `normalize_ulid`: which texts it takes, and the canonical form that it gives.
use minara_connect.Base.{
  ℕ, ◌≡◌, ◌↔◌, refl, Bool, true, not, ◌&&◌, ◌||◌, [], ◌∷◌, arith, ◌==◌, within, is_alphanumeric,
  All, length, Str, ok, >>=-eq-ok, Result-cases, inl, inr,
}
use minara_connect.Message.{map_char, map_chars, normalize_ulid, ulid_len}

-- The Crockford alphabet: digits, and upper-case letters without I, L, O and U.
abbrev pub is_crockford : ℕ → Bool
is_crockford c =
    within b'0' b'9' c
    || (within b'A' b'Z' c && not (c == b'I' || c == b'L' || c == b'O' || c == b'U'))

-- 26 characters of the alphabet
pub record IsUlid (s : Str) : Type 0 where
  pub has_len : length s ≡ ulid_len
  pub in_alphabet : All (λ c. is_crockford c ≡ true) s

map_char-is_crockford : (c m : ℕ) → map_char c ≡ ok m → is_crockford m ≡ true
map_char-is_crockford c m h = ground arith

map_char_self : (c : ℕ) → is_crockford c ≡ true → map_char c ≡ ok c
map_char_self c h = ground arith

map_chars-lem :
    (s t : Str) → map_chars s ≡ ok t → (length t ≡ length s) × All (λ c. is_crockford c ≡ true) t
unfolding map_chars
map_chars-lem [] t h = ground arith
map_chars-lem (c ∷ s) t h =
    let (m, e, h1) = >>=-eq-ok (map_char c) _ h in
    let (out, e2, h2) = >>=-eq-ok (map_chars s) _ h1 in
    let rest = map_chars-lem s out e2 in ground (arith, map_char-is_crockford c m e)

map_chars_self : (s : Str) → All (λ c. is_crockford c ≡ true) s → map_chars s ≡ ok s
unfolding map_chars
map_chars_self [] h = refl
map_chars_self (c ∷ s) h = rw (map_char_self c h.0) (rw (map_chars_self s h.1))

-- What comes back is a ULID in canonical form, as long as the input.
pub normalize_ulid-IsUlid : (s t : Str) → normalize_ulid s ≡ ok t → IsUlid t × (length s ≡ ulid_len)
unfolding normalize_ulid
normalize_ulid-IsUlid s t h =
    let (out, e, h1) = >>=-eq-ok (map_chars s) _ h in
    let (len, alphabet) = map_chars-lem s out e in
    let same : (out ≡ t) × (length out ≡ ulid_len) = ground arith in
    (rw (← same.0) (record { has_len = same.1; in_alphabet = alphabet }), omega arith)

-- A ULID in canonical form is left as it is.
pub normalize_ulid_self : (s : Str) → IsUlid s → normalize_ulid s ≡ ok s
unfolding normalize_ulid
normalize_ulid_self s h = rw (map_chars_self s h.in_alphabet) (ground arith)

-- an ASCII letter or digit other than U and u
abbrev pub IsTaken : ℕ → Type 0
IsTaken c = (is_alphanumeric c && not (c == b'U' || c == b'u')) ≡ true

map_char-IsTaken : (c m : ℕ) → map_char c ≡ ok m → IsTaken c
map_char-IsTaken c m h = ground arith

map_char_takes : (c : ℕ) → IsTaken c → (m : ℕ) × (map_char c ≡ ok m)
map_char_takes c h = elim (Result-cases (map_char c)) [
  | inl taken ↦ taken
  | inr refused ↦ absurd (let (e, p) = refused in ground arith)
]

map_chars_takes : (s : Str) → All IsTaken s → (t : Str) × (map_chars s ≡ ok t)
unfolding map_chars
map_chars_takes [] h = ([], refl)
map_chars_takes (c ∷ s) h =
    let (m, e) = map_char_takes c h.0 in
    let (t, e2) = map_chars_takes s h.1 in (m ∷ t, rw e (rw e2))

map_chars-IsTaken : (s t : Str) → map_chars s ≡ ok t → All IsTaken s
unfolding map_chars
map_chars-IsTaken [] t h = tt
map_chars-IsTaken (c ∷ s) t h =
    let (m, e, h1) = >>=-eq-ok (map_char c) _ h in
    let (out, e2, h2) = >>=-eq-ok (map_chars s) _ h1 in
    (map_char-IsTaken c m e, map_chars-IsTaken s out e2)

-- A text is taken exactly if it has 26 characters, all of them ASCII letters or digits but U and u.
pub normalize_ulid_takes_iff :
    (s : Str) → ((t : Str) × (normalize_ulid s ≡ ok t)) ↔ ((length s ≡ ulid_len) × All IsTaken s)
unfolding normalize_ulid
normalize_ulid_takes_iff s = (
  λ h.
      let (t, e) = h in
      let (out, e1, _) = >>=-eq-ok (map_chars s) _ e in
      ((normalize_ulid-IsUlid s t e).1, map_chars-IsTaken s out e1),
  λ h.
      let (t, e) = map_chars_takes s h.1 in
      let (len, _) = map_chars-lem s t e in (t, rw e (ground arith)),
)

-- Normalising twice is normalising once.
pub normalize_ulid_idem : (s t : Str) → normalize_ulid s ≡ ok t → normalize_ulid t ≡ ok t
normalize_ulid_idem s t h = normalize_ulid_self t (normalize_ulid-IsUlid s t h).0

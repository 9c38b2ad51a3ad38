-- ===== src/Base/Text.antt =====
-- Rust's `String` and `&str` as the list of their UTF-8 bytes, and the methods that the program uses.
use Prim.Native.Nat.{ℕ, zero, suc, ◌+◌, ◌*◌, ◌/◌, ◌%◌, ◌≤◌, compare, Ordering, ◌<◌}
use Prim.Native.Char.{code}
use Prim.Native.String.{String}
use mathlib.Core.Path.{◌≡◌, refl, ap}
use mathlib.Core.Logic.{◌↔◌, inl, inr}
use mathlib.Core.Bool.{Bool, true, false, ◌&&◌, ◌||◌}
use mathlib.Core.List.{List, [], ◌∷◌, ◌++◌, map, reverse}
use native.Mathlib.Omega.{arith}
use minara_connect.Base.Lists.{All}
use minara_connect.Base.Tests.{Bool-cases, ltb, ◌==◌, if◌then◌else◌, within}

abbrev pub Str : Type 0
Str = List ℕ

-- The UTF-8 form of a code point.
abbrev pub utf8 : ℕ → Str
utf8 c =
    if ltb c 0x80
    then c ∷ []
    else if ltb c 0x800
    then (0xC0 + c / 64) ∷ (0x80 + c % 64) ∷ []
    else if ltb c 0x10000
    then (0xE0 + c / 4096) ∷ (0x80 + c / 64 % 64) ∷ (0x80 + c % 64) ∷ []
    else (0xF0 + c / 262144) ∷ (0x80 + c / 4096 % 64) ∷ (0x80 + c / 64 % 64) ∷ (0x80 + c % 64) ∷ []

-- A literal of the source.
abbrev pub str : String → Str
str String.[] = []
str (String.◌∷◌ c s) = utf8 (code c) ++ str s

unfoldable pub str_eq : Str → Str → Bool
str_eq [] [] = true
str_eq (x ∷ xs) (y ∷ ys) = x == y && str_eq xs ys
str_eq _ _ = false

pub str_eq_iff : (a b : Str) → (str_eq a b ≡ true) ↔ (a ≡ b)
unfolding str_eq
str_eq_iff (x ∷ a) (y ∷ b) = ground (arith, str_eq_iff a b)
str_eq_iff _ _ = ground arith

pub str_eq_refl : (a : Str) → str_eq a a ≡ true
str_eq_refl a = (str_eq_iff a a).1 refl

-- `a.cmp(b)`, byte by byte
unfoldable pub str_cmp : Str → Str → Ordering
str_cmp [] [] = Ordering.eq
str_cmp [] (y ∷ ys) = Ordering.lt
str_cmp (x ∷ xs) [] = Ordering.gt
str_cmp (x ∷ xs) (y ∷ ys) =
    let rest = str_cmp xs ys in
    elim (compare x y) [
      | Ordering.lt ↦ Ordering.lt
      | Ordering.gt ↦ Ordering.gt
      | Ordering.eq ↦ rest
    ]

-- `a <= b`
abbrev pub str_le : Str → Str → Bool
str_le a b = elim (str_cmp a b) [ Ordering.gt ↦ false | _ ↦ true ]

unfoldable pub starts_with : Str → Str → Bool
starts_with s [] = true
starts_with [] (y ∷ ys) = false
starts_with (x ∷ xs) (y ∷ ys) = x == y && starts_with xs ys

abbrev pub ends_with : Str → Str → Bool
ends_with s t = starts_with (reverse s) (reverse t)

-- `s.contains(c)`, for an ASCII character
unfoldable pub contains_byte : Str → ℕ → Bool
contains_byte [] c = false
contains_byte (x ∷ xs) c = x == c || contains_byte xs c

abbrev pub is_empty {ℓ} : {A : Type ℓ} → List A → Bool
is_empty [] = true
is_empty (x ∷ xs) = false

abbrev pub lower_byte : ℕ → ℕ
lower_byte b = if within b'A' b'Z' b then b + 32 else b

-- `to_ascii_lowercase`
unfoldable pub to_ascii_lowercase : Str → Str
to_ascii_lowercase = map lower_byte

abbrev pub is_alphanumeric : ℕ → Bool
is_alphanumeric b = within b'0' b'9' b || within b'A' b'Z' b || within b'a' b'z' b

-- `n.to_string()`: the digits of `n` in front of `acc`. A number below 10 ^ fuel needs no more
-- fuel, and `n < 10 ^ (n + 1)`.
decimal_onto : ℕ → ℕ → Str → Str
decimal_onto zero n acc = acc
decimal_onto (suc fuel) n acc =
    let d = (b'0' + n % 10) ∷ acc in
    elim (ltb n 10) [ true ↦ d | false ↦ decimal_onto fuel (n / 10) d ]

unfoldable pub decimal : ℕ → Str
unfolding decimal_onto
decimal n = decimal_onto (n + 1) n []

abbrev pub IsDigit : ℕ → Type 0
IsDigit b = (b'0' ≤ b) × (b ≤ b'9')

All-decimal_onto :
    (fuel n : ℕ) (acc : Str) → All IsDigit acc → All IsDigit (decimal_onto fuel n acc)
unfolding decimal_onto
All-decimal_onto zero n acc h = h
All-decimal_onto (suc fuel) n acc h = elim (Bool-cases (ltb n 10)) [
  | inl last ↦ rw (last, decimal_onto) ((omega arith, omega arith), h)
  | inr more ↦
      rw (more, decimal_onto) (All-decimal_onto fuel (n / 10) _ ((omega arith, omega arith), h))
]

pub decimal_digits : (n : ℕ) → All IsDigit (decimal n)
unfolding decimal
decimal_digits n = All-decimal_onto (n + 1) n [] tt

-- `s.chars()`: the code points of valid UTF-8. `left` counts the bytes that the character in
-- `acc` still wants.
chars_from : ℕ → ℕ → Str → List ℕ
chars_from left acc [] = []
chars_from zero acc (b ∷ s) =
    let one = b ∷ chars_from 0 0 s in
    let two = chars_from 1 (b % 32) s in
    let three = chars_from 2 (b % 16) s in
    let four = chars_from 3 (b % 8) s in
    if ltb b 0x80 then one else if ltb b 0xE0 then two else if ltb b 0xF0 then three else four
chars_from (suc zero) acc (b ∷ s) = (acc * 64 + b % 64) ∷ chars_from 0 0 s
chars_from (suc (suc left)) acc (b ∷ s) = chars_from (suc left) (acc * 64 + b % 64) s

unfoldable pub chars : Str → List ℕ
unfolding chars_from
chars = chars_from 0 0

-- An ASCII text is its own list of code points.
pub chars-ascii : (s : Str) → All (λ b. b < 0x80) s → chars s ≡ s
unfolding chars chars_from
chars-ascii [] h = refl
chars-ascii (b ∷ s) h =
    let one : ltb b 0x80 ≡ true = let lt = h.0 in ground arith in
    rw one (ap (◌∷◌ b) (chars-ascii s h.1))

-- the bytes of `s.chars().take(n)`: a continuation byte belongs to the character before it
unfoldable pub take_chars : ℕ → Str → Str
take_chars n [] = []
take_chars n (b ∷ s) = elim (within 0x80 0xBF b) [
  | true ↦ b ∷ take_chars n s
  | false ↦ elim n [ zero ↦ [] | suc left ↦ b ∷ take_chars left s ]
]

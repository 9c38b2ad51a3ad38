-- ===== src/Base/Trim.antt =====
-- `str::trim`: the ends of a text without the characters that Unicode calls white space.
use Prim.Native.Nat.{ℕ, zero, suc}
use mathlib.Core.Bool.{Bool, ◌&&◌, ◌||◌}
use mathlib.Core.List.{[], ◌∷◌, reverse}
use mathlib.Core.Option.{Option, none, some}
use minara_connect.Base.Tests.{◌==◌, within, if◌then◌else◌}
use minara_connect.Base.Text.{Str}
use minara_connect.Base.Lists.{length}

-- White space by the length of its UTF-8 form: U+0009 to U+000D and the space; U+0085 and U+00A0;
-- U+1680, U+2000 to U+200A, U+2028, U+2029, U+202F, U+205F and U+3000.
abbrev pub is_white1 : ℕ → Bool
is_white1 a = within 9 13 a || a == b' '

abbrev pub is_white2 : ℕ → ℕ → Bool
is_white2 a b = a == 0xC2 && (b == 0x85 || b == 0xA0)

abbrev pub is_white3 : ℕ → ℕ → ℕ → Bool
is_white3 a b c =
    (a == 0xE1 && b == 0x9A && c == 0x80)
    || (a == 0xE2 && b == 0x80 && (within 0x80 0x8A c || within 0xA8 0xA9 c || c == 0xAF))
    || (a == 0xE2 && b == 0x81 && c == 0x9F)
    || (a == 0xE3 && b == 0x80 && c == 0x80)

-- The text without the white space character at its start, if there is one. The tests are given,
-- so that the end of a text is trimmed as the start of its reversal.
module _ (w1 : ℕ → Bool) (w2 : ℕ → ℕ → Bool) (w3 : ℕ → ℕ → ℕ → Bool) where
  strip : Str → Option Str
  strip [] = none
  strip (a ∷ []) = if w1 a then some [] else none
  strip (a ∷ b ∷ []) = if w1 a then some (b ∷ []) else if w2 a b then some [] else none
  strip (a ∷ b ∷ c ∷ s) =
      if w1 a
      then some (b ∷ c ∷ s)
      else if w2 a b
      then some (c ∷ s)
      else if w3 a b c
      then some s
      else none

  -- each round strips a byte at least, so the length is fuel enough
  trim_by : ℕ → Str → Str
  unfolding strip
  trim_by zero s = s
  trim_by (suc fuel) s = elim (strip s) [ none ↦ s | some rest ↦ trim_by fuel rest ]

unfoldable pub trim : Str → Str
unfolding trim_by
trim s =
    let front = trim_by is_white1 is_white2 is_white3 (length s) s in
    reverse (
      trim_by is_white1 (λ b a. is_white2 a b) (λ c b a. is_white3 a b c) (length front)
        (reverse front))

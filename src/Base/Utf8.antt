-- ===== src/Base/Utf8.antt =====
-- The validity test of `String::from_utf8` and of `BufRead::lines`.
use Prim.Native.Nat.{ℕ, zero, suc}
use mathlib.Core.Bool.{Bool, true, false, ◌&&◌}
use mathlib.Core.List.{[], ◌∷◌}
use mathlib.Core.Option.{Option, none, some}
use minara_connect.Base.Tests.{ltb, ◌==◌, within, if◌then◌else◌}
use minara_connect.Base.Text.{Str}

-- What a lead byte of UTF-8 asks for: how many bytes follow, and the range of the first of them.
unfoldable pub lead : ℕ → Option (ℕ × ℕ × ℕ)
lead b =
    if ltb b 0x80
    then some (0, 0x80, 0xBF)
    else if within 0xC2 0xDF b
    then some (1, 0x80, 0xBF)
    else if b == 0xE0
    then some (2, 0xA0, 0xBF)
    else if b == 0xED
    then some (2, 0x80, 0x9F)
    else if within 0xE1 0xEF b
    then some (2, 0x80, 0xBF)
    else if b == 0xF0
    then some (3, 0x90, 0xBF)
    else if within 0xF1 0xF3 b
    then some (3, 0x80, 0xBF)
    else if b == 0xF4
    then some (3, 0x80, 0x8F)
    else none

-- `left` bytes are due, the next of them in the range `lo..=hi`.
unfoldable pub is_utf8_from : ℕ → ℕ → ℕ → Str → Bool
is_utf8_from zero lo hi [] = true
is_utf8_from (suc left) lo hi [] = false
is_utf8_from zero lo hi (b ∷ s) = elim (lead b) [
  | none ↦ false
  | some (left, lo', hi') ↦ is_utf8_from left lo' hi' s
]
is_utf8_from (suc left) lo hi (b ∷ s) = within lo hi b && is_utf8_from left 0x80 0xBF s

-- `String::from_utf8(bytes).is_ok()`
unfoldable pub is_utf8 : Str → Bool
unfolding is_utf8_from lead
is_utf8 = is_utf8_from 0 0x80 0xBF

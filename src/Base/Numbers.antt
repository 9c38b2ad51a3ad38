-- ===== src/Base/Numbers.antt =====
-- Numbers as the standard library reads them.
use Prim.Native.Nat.{ℕ, ◌+◌, ◌-◌, ◌*◌}
use mathlib.Core.List.{List, [], ◌∷◌}
use mathlib.Core.Option.{Option, none, some}
use minara_connect.Base.Tests.{◌==◌, within, if◌then◌else◌}
use minara_connect.Base.Text.{is_empty}

-- the digits of a number, on top of what has been read
abbrev pub parse_digits : ℕ → List ℕ → Option ℕ
parse_digits n [] = some n
parse_digits n (b ∷ s) = if within b'0' b'9' b then parse_digits (10 * n + (b - 48)) s else none

-- `parse()` of a text without a minus at an integer type, before the test of the range: digits, with
-- or without a plus
abbrev pub parse_unsigned : List ℕ → Option ℕ
parse_unsigned [] = none
parse_unsigned (b ∷ s) =
    if b == b'+' then (if is_empty s then none else parse_digits 0 s) else parse_digits 0 (b ∷ s)

-- ===== src/HookFormat/Truncate.antt =====
-- `truncate_head` and `tail_lines_within_budget`: the cuts that keep the preamble small.
pub mod Head
pub mod Tail
use minara_connect.Base.{
  ℕ, zero, suc, ◌+◌, ◌-◌, ◌||◌, ◌&&◌, not, Bool, true, false, Option, none, some, List, [], ◌∷◌,
  ◌++◌, Str, str, ltb, leb, ◌==◌, within, if◌then◌else◌, length, take, drop, get_elem?,
}

-- `s.is_char_boundary(i)`: the start, the end, and every byte that is no continuation byte
pub is_char_boundary : Str → ℕ → Bool
is_char_boundary s i =
    i == 0
    || (if leb (length s) i
        then i == length s
        else elim (get_elem? s i) [ none ↦ false | some b ↦ not (within 0x80 0xBF b) ])

-- `while !s.is_char_boundary(cut) && cut > 0 { cut -= 1; }`
pub floor_char_boundary : Str → ℕ → ℕ
floor_char_boundary s zero = zero
floor_char_boundary s (suc cut) =
    let below = floor_char_boundary s cut in
    if not (is_char_boundary s (suc cut)) then below else suc cut

abbrev pub summary_marker : Str
summary_marker = str "\n…(summary truncated)"

pub truncate_head : Str → ℕ → Str
truncate_head s max =
    if leb (length s) max
    then s
    else take (floor_char_boundary s (max - length summary_marker)) s ++ summary_marker

-- `i == 0 || s.as_bytes()[i - 1] == b'\n'`
abbrev pub is_line_start : Str → ℕ → Bool
is_line_start s zero = true
is_line_start s (suc i) = elim (get_elem? s i) [ none ↦ false | some b ↦ b == b'\n' ]

-- The loop over `s.char_indices().rev()`, with the indices below `i` still to come, and the pair of
-- `total` and `start_idx`. A position that is no character boundary is no index.
pub tail_start : Str → ℕ → ℕ → ℕ × ℕ → ℕ × ℕ
tail_start s max zero best = best
tail_start s max (suc i) best =
    let stop = best in
    let skip = tail_start s max i best in
    let line = tail_start s max i (length s - i, i) in
    if not (is_char_boundary s i)
    then skip
    else if ltb max (length s - i)
    then stop
    else if is_line_start s i
    then line
    else skip

abbrev pub older_marker : Str
older_marker = str "…(older entries truncated)\n"

pub tail_lines_within_budget : Str → ℕ → Str
tail_lines_within_budget s max =
    if leb (length s) max
    then s
    else let (total, start_idx) = tail_start s max (length s) (0, length s) in
      if total == 0 then truncate_head s max else older_marker ++ drop start_idx s

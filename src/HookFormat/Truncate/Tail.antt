-- ===== src/HookFormat/Truncate/Tail.antt =====
-- `tail_lines_within_budget` keeps the longest tail of whole lines that fits.
use minara_connect.Base.{
  ℕ, zero, suc, ◌-◌, ◌≤◌, ◌<◌, ◌≡◌, ◌≢◌, ◌⊎◌, inl, inr, refl, true, ◌++◌, arith, Str, ltb, leb,
  leb→le, leb_false→lt, ◌==◌, if◌then◌else◌, length, length-drop, drop, Bool-cases,
}
use minara_connect.HookFormat.Truncate.{
  is_char_boundary, is_line_start, tail_start, truncate_head, older_marker,
  tail_lines_within_budget,
}

-- a place where a tail can start: a character boundary that starts a line, inside the text
abbrev pub IsTailStart : Str → ℕ → Type 0
IsTailStart s j = (j < length s) × (is_char_boundary s j ≡ true) × (is_line_start s j ≡ true)

-- Where no tail starts at `i`, the tails that start from there on start behind it.
behind : (s : Str) (i j : ℕ) → (IsTailStart s i → ⊥) → i ≤ j → IsTailStart s j → suc i ≤ j
behind s i j no_start le st = elim (Bool-cases (i == j)) [
  | inl same ↦ let e : i ≡ j = ground arith in absurd (no_start (rw e st))
  | inr other ↦ ground arith
]

-- The best start among those at `i` and behind: the first whose tail fits, if there is one.
record IsBestFrom (s : Str) (max i : ℕ) (best : ℕ × ℕ) : Type 0 where
  total_lem : (best.0 ≡ 0) ⊎ ((best.0 ≡ length s - best.1) × IsTailStart s best.1)
  fits : best.0 ≤ max
  none_before : (j : ℕ) → i ≤ j → IsTailStart s j → length s - j ≤ max → (best.0 ≢ 0) × (best.1 ≤ j)

tail_start-IsBestFrom :
    (s : Str) (max i : ℕ) (best : ℕ × ℕ)
    → i ≤ length s
    → IsBestFrom s max i best
    → IsBestFrom s max 0 (tail_start s max i best)
unfolding tail_start
tail_start-IsBestFrom s max zero best h b = b
tail_start-IsBestFrom s max (suc i) best h b = elim (Bool-cases (is_char_boundary s i)) [
  | inr inside ↦ rw inside (
      tail_start-IsBestFrom s max i best (omega arith) (record {
        total_lem = b.total_lem;
        fits = b.fits;
        none_before =
            λ j le st f. b.none_before j (behind s i j (λ x. cc (x.1, inside)) le st) st f;
      }))
  | inl boundary ↦ elim (Bool-cases (ltb max (length s - i))) [
    | inl too_long ↦
        rw (boundary, too_long)
          (record {
            total_lem = b.total_lem;
            fits = b.fits;
            none_before = λ j le st f. b.none_before j (ground arith) st f;
          })
    | inr room ↦ elim (Bool-cases (is_line_start s i)) [
      | inl line ↦
          rw (boundary, room, line)
            (tail_start-IsBestFrom s max i (length s - i, i) (omega arith)
              (record {
                total_lem = inr (refl, (omega arith, boundary, line));
                fits = ground arith;
                none_before = λ j le st f. (omega arith, le);
              }))
      | inr no_line ↦
          rw (boundary, room, no_line)
            (tail_start-IsBestFrom s max i best (omega arith) (record {
              total_lem = b.total_lem;
              fits = b.fits;
              none_before =
                  λ j le st f. b.none_before j (behind s i j (λ x. cc (x.2, no_line)) le st) st f;
            }))
    ]
  ]
]

-- what the loop found, as the output that is made of it
abbrev made_of : Str → ℕ → ℕ × ℕ → Str
made_of s max found = if found.0 == 0 then truncate_head s max else older_marker ++ drop found.1 s

abbrev pub IsLongest : Str → ℕ → Str → Type 0
IsLongest s max out =
    ((start : ℕ) × IsTailStart s start
      × (out ≡ older_marker ++ drop start s)
      × (length (drop start s) ≤ max)
      × ((j : ℕ) → IsTailStart s j → length s - j ≤ max → start ≤ j))
    ⊎ ((out ≡ truncate_head s max) × ((j : ℕ) → IsTailStart s j → max < length s - j))

long_tail :
    (s : Str) (max total start : ℕ)
    → IsBestFrom s max 0 (total, start)
    → (j : ℕ) → (total == 0) ≡ true
    → IsTailStart s j
    → max < length s - j
long_tail s max total start b j z st = elim (Bool-cases (leb (length s - j) max)) [
  | inl f ↦ absurd ((b.none_before j (omega arith) st (leb→le _ _ f)).0 (ground arith))
  | inr f ↦ leb_false→lt _ _ f
]

made_of-IsLongest :
    (s : Str) (max : ℕ) (found : ℕ × ℕ)
    → IsBestFrom s max 0 found
    → IsLongest s max (made_of s max found)
made_of-IsLongest s max (total, start) b = elim (Bool-cases (total == 0)) [
  | inl none_fits ↦ inr (rw none_fits, λ j st. long_tail s max total start b j none_fits st)
  | inr some_fits ↦ elim b.total_lem [
    | inl e ↦ absurd (ground arith)
    | inr (e, st) ↦ inl (
      start,
      st,
      rw some_fits,
      omega (arith, length-drop start s),
      λ j st' f. (b.none_before j (omega arith) st' f).1,
    )
  ]
]

-- A text within the limit is kept. Of another, the output is the marker and the longest tail of
-- whole lines that fits in the limit; and if no tail of whole lines fits, the text is cut like a
-- summary.
pub tail_lines-IsLongest :
    (s : Str) (max : ℕ)
    → ((length s ≤ max) × (tail_lines_within_budget s max ≡ s))
      ⊎ ((max < length s) × IsLongest s max (tail_lines_within_budget s max))
unfolding tail_lines_within_budget
tail_lines-IsLongest s max = elim (Bool-cases (leb (length s) max)) [
  | inl fits ↦ inl (leb→le _ _ fits, rw fits)
  | inr long ↦
      let best =
        tail_start-IsBestFrom s max (length s) (0, length s) (omega arith)
          (record {
            total_lem = inl refl;
            fits = omega arith;
            none_before = λ j le st f. absurd (omega arith);
          }) in
      let found = tail_start s max (length s) (0, length s) in
      inr (leb_false→lt _ _ long, rw long (made_of-IsLongest s max found best))
]

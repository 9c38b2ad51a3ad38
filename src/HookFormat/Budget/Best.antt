-- ===== src/HookFormat/Budget/Best.antt =====
-- The output of `fit_to_budget` is the best one: all lines, or the fewest dropped that make room.
use minara_connect.Base.{
  true, false, ℕ, zero, suc, ◌+◌, ◌≤◌, ◌<◌, ◌≡◌, refl, ap, ◌∙◌, ◌⊎◌, inl, inr, List, [], ◌∷◌, ◌++◌,
  arith, Str, leb, leb→le, leb_false→lt, length, length-append, drop, Bool-cases,
}
use minara_connect.HookFormat.Budget.{total_len, concat, marker_line, drop_oldest, fit_to_budget}

pub length-concat : (lines : List Str) → length (concat lines) ≡ total_len lines
length-concat [] = refl
length-concat (l ∷ lines) = omega (arith, length-append l (concat lines), length-concat lines)

-- The output with the first `j` of `kept` dropped, when `dropped` lines went before.
abbrev pub candidate : List Str → ℕ → ℕ → Str
candidate kept dropped j = marker_line (dropped + j) ++ concat (drop j kept)

-- What dropping the oldest lines of `kept` gives: the first candidate that fits, or nothing.
abbrev pub IsFirstFit : ℕ → List Str → ℕ → Str → Type 0
IsFirstFit budget kept dropped out =
    ((j : ℕ) × (1 ≤ j)
      × (j ≤ length kept)
      × (out ≡ candidate kept dropped j)
      × (length (candidate kept dropped j) ≤ budget)
      × ((i : ℕ) → 1 ≤ i → i < j → budget < length (candidate kept dropped i)))
    ⊎ ((out ≡ [])
        × ((i : ℕ) → 1 ≤ i → i ≤ length kept → budget < length (candidate kept dropped i)))

length-candidate :
    (kept : List Str) (dropped j : ℕ)
    → length (candidate kept dropped j)
      ≡ length (marker_line (dropped + j)) + total_len (drop j kept)
length-candidate kept dropped j =
    length-append (marker_line (dropped + j)) (concat (drop j kept))
    ∙ ap (λ n. length (marker_line (dropped + j)) + n) (length-concat (drop j kept))

-- One line later, the candidates are the same, counted from one less.
candidate-suc :
    (l : Str) (kept : List Str) (dropped j : ℕ)
    → candidate (l ∷ kept) dropped (suc j) ≡ candidate kept (dropped + 1) j
candidate-suc l kept dropped j = ap (λ n. marker_line n ++ concat (drop j kept)) (omega arith)

too_long :
    (budget : ℕ) (l : Str) (kept : List Str) (dropped : ℕ)
    → leb (length (marker_line (dropped + 1)) + total_len kept) budget ≡ false
    → budget < length (candidate (l ∷ kept) dropped 1)
too_long budget l kept dropped h =
    omega (arith, length-candidate (l ∷ kept) dropped 1, leb_false→lt _ _ h)

module _ (budget : ℕ) (l : Str) (kept : List Str) (dropped : ℕ)
    (long : budget < length (candidate (l ∷ kept) dropped 1)) where
  all_too_long :
      (n i : ℕ)
      → ((k : ℕ) → 1 ≤ k → k < n → budget < length (candidate kept (dropped + 1) k))
      → 1 ≤ i
      → i < suc n
      → budget < length (candidate (l ∷ kept) dropped i)
  all_too_long n zero h p q = absurd (omega arith)
  all_too_long n (suc zero) h p q = long
  all_too_long n (suc (suc i)) h p q = rw candidate-suc (h (suc i) (omega arith) (omega arith))

  IsFirstFit-cons :
      (out : Str)
      → IsFirstFit budget kept (dropped + 1) out
      → IsFirstFit budget (l ∷ kept) dropped out
  IsFirstFit-cons out (inl (j, p, q, e, fits, before)) = inl (
    suc j,
    omega arith,
    omega arith,
    rw candidate-suc e,
    rw candidate-suc fits,
    λ i. all_too_long j i before,
  )
  IsFirstFit-cons out (inr (e, none_fits)) = inr (
    e,
    λ i a b.
        all_too_long (suc (length kept)) i (λ k c d. none_fits k c (omega arith)) a (omega arith),
  )

drop_oldest-nil :
    (budget dropped : ℕ)
    → budget < length (marker_line dropped)
    → drop_oldest budget [] dropped ≡ []
unfolding drop_oldest
drop_oldest-nil budget dropped h = ground arith

-- If the first candidate fits, it is the output.
first_fits :
    (budget : ℕ) (l : Str) (kept : List Str) (dropped : ℕ)
    → leb (length (marker_line (dropped + 1)) + total_len kept) budget ≡ true
    → IsFirstFit budget (l ∷ kept) dropped (drop_oldest budget (l ∷ kept) dropped)
unfolding drop_oldest
first_fits budget l kept dropped fits = inl (
  1,
  omega arith,
  omega arith,
  rw fits,
  omega (arith, length-candidate (l ∷ kept) dropped 1, leb→le _ _ fits),
  λ i a b. absurd (omega arith),
)

drop_oldest-next :
    (budget : ℕ) (l : Str) (kept : List Str) (dropped : ℕ)
    → leb (length (marker_line (dropped + 1)) + total_len kept) budget ≡ false
    → drop_oldest budget (l ∷ kept) dropped ≡ drop_oldest budget kept (dropped + 1)
unfolding drop_oldest
drop_oldest-next budget l kept dropped h = ground arith

drop_oldest-IsFirstFit :
    (budget : ℕ) (l : Str) (kept : List Str) (dropped : ℕ)
    → IsFirstFit budget (l ∷ kept) dropped (drop_oldest budget (l ∷ kept) dropped)
drop_oldest-IsFirstFit budget l [] dropped =
    elim (Bool-cases (leb (length (marker_line (dropped + 1)) + total_len []) budget)) [
      | inl fits ↦ first_fits budget l [] dropped fits
      | inr long ↦ IsFirstFit-cons budget l [] dropped (too_long budget l [] dropped long) _ (
          inr (
            drop_oldest-next budget l [] dropped long
                ∙ drop_oldest-nil budget (dropped + 1) (omega (arith, leb_false→lt _ _ long)),
            λ i a b. absurd (omega arith),
          ))
    ]
drop_oldest-IsFirstFit budget l (l' ∷ kept) dropped =
    elim (Bool-cases (leb (length (marker_line (dropped + 1)) + total_len (l' ∷ kept)) budget)) [
      | inl fits ↦ first_fits budget l (l' ∷ kept) dropped fits
      | inr long ↦
          IsFirstFit-cons budget l (l' ∷ kept) dropped (too_long budget l (l' ∷ kept) dropped long)
            _
            (rw (drop_oldest-next budget l (l' ∷ kept) dropped long)
              (drop_oldest-IsFirstFit budget l' kept (dropped + 1)))
    ]

-- If all lines fit they are all there. Otherwise the output is the marker for the fewest lines
-- dropped, one at least, that makes the rest fit; and it is empty if no number of them does.
pub fit_to_budget_best :
    (lines : List Str) (budget : ℕ)
    → ((total_len lines ≤ budget) × (fit_to_budget lines budget ≡ concat lines))
      ⊎ ((budget < total_len lines) × IsFirstFit budget lines 0 (fit_to_budget lines budget))
unfolding fit_to_budget
fit_to_budget_best [] budget = inl (omega arith, ground arith)
fit_to_budget_best (l ∷ lines) budget = elim (Bool-cases (leb (total_len (l ∷ lines)) budget)) [
  | inl fits ↦ inl (leb→le _ _ fits, rw fits)
  | inr long ↦ inr (leb_false→lt _ _ long, rw long (drop_oldest-IsFirstFit budget l lines 0))
]

-- The output never exceeds the budget.
pub length-fit_to_budget :
    (lines : List Str) (budget : ℕ) → length (fit_to_budget lines budget) ≤ budget
length-fit_to_budget lines budget = elim (fit_to_budget_best lines budget) [
  | inl (fits, e) ↦ rw e (omega (arith, length-concat lines))
  | inr (_, inl (_, _, _, e, fits, _)) ↦ rw e fits
  | inr (_, inr (e, _)) ↦ rw e (omega arith)
]

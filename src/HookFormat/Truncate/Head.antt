-- ===== src/HookFormat/Truncate/Head.antt =====
-- `truncate_head` cuts at a character boundary, and stays within the limit.
use minara_connect.Base.{
  ℕ, zero, suc, ◌-◌, ◌≤◌, ◌<◌, ◌≡◌, ◌⊎◌, inl, inr, refl, true, false, ◌++◌, arith, Str, leb, leb→le,
  leb_false→lt, ◌==◌, length, length-append, length-take, take, Bool-cases,
}
use minara_connect.HookFormat.Truncate.{
  is_char_boundary, floor_char_boundary, summary_marker, truncate_head,
}

-- One more position that is no boundary changes nothing between the cut and the boundary.
no_boundary_between :
    (s : Str) (at_most cut : ℕ)
    → is_char_boundary s (suc cut) ≡ false
    → ((j : ℕ) → at_most < j → j ≤ cut → is_char_boundary s j ≡ false)
    → (j : ℕ) → at_most < j
    → j ≤ suc cut
    → is_char_boundary s j ≡ false
no_boundary_between s at_most cut here below j a b = elim (Bool-cases (j == suc cut)) [
  | inl same ↦ let e : j ≡ suc cut = ground arith in rw e here
  | inr other ↦ below j a (ground arith)
]

-- The loop ends at a boundary at or below `cut`, with none between them: so the slice is no panic.
pub floor_char_boundary_lem :
    (s : Str) (cut : ℕ)
    → (is_char_boundary s (floor_char_boundary s cut) ≡ true)
      × (floor_char_boundary s cut ≤ cut)
      × ((j : ℕ) → floor_char_boundary s cut < j → j ≤ cut → is_char_boundary s j ≡ false)
unfolding floor_char_boundary
floor_char_boundary_lem s zero =
    (unfold is_char_boundary in refl, omega arith, λ j a b. absurd (omega arith))
floor_char_boundary_lem s (suc cut) = elim (Bool-cases (is_char_boundary s (suc cut))) [
  | inl here ↦
      (rw here here, rw here (omega arith), λ j a b. absurd (let a' = rw here at a in omega arith))
  | inr not_here ↦
      let (boundary, le, between) = floor_char_boundary_lem s cut in
      (
        rw not_here boundary,
        rw not_here (omega arith),
        rw not_here (no_boundary_between s _ cut not_here between),
      )
]

-- If the limit has room for the marker: a text within the limit is kept; another is cut at the last
-- character boundary that leaves room for the marker, which follows. The result is within the limit.
pub truncate_head_lem :
    (s : Str) (max : ℕ)
    → length summary_marker ≤ max
    → ((length s ≤ max) × (truncate_head s max ≡ s))
      ⊎ ((max < length s)
          × (cut : ℕ) × (is_char_boundary s cut ≡ true)
          × (truncate_head s max ≡ take cut s ++ summary_marker)
          × (length (truncate_head s max) ≤ max)
          × ((j : ℕ) → cut < j → j ≤ max - length summary_marker → is_char_boundary s j ≡ false))
unfolding truncate_head
truncate_head_lem s max h = elim (Bool-cases (leb (length s) max)) [
  | inl fits ↦ inl (leb→le _ _ fits, rw fits)
  | inr long ↦
      let (boundary, le, between) = floor_char_boundary_lem s (max - length summary_marker) in
      let cut = floor_char_boundary s (max - length summary_marker) in
      inr (
        leb_false→lt _ _ long,
        cut,
        boundary,
        rw long,
        rw long (omega (arith, length-append (take cut s) summary_marker, length-take cut s)),
        between,
      )
]

-- ===== src/ClaudePid/Nearest.antt =====
-- crates/cc-connect-core/src/claude_pid.rs, find_claude_ancestor_with: which process it finds.
use mathlib.Core.Path.{subst}
use minara_connect.Base.{
  ℕ, zero, suc, ◌≤◌, ◌<◌, ◌≡◌, ◌≢◌, ◌↔◌, refl, inl, inr, true, false, arith, Str, str_eq,
  str_eq_iff, leb, Result, ok, Bool-cases, Result-cases,
}
use minara_connect.ClaudePid.{claude_bin_name, max_depth, walk, find_claude_ancestor_with}

module _ (lookup : ℕ → Result (ℕ × Str)) where
  -- `p` is a `claude` so many levels above `pid`, and no process between them is one. Neither is
  -- the kernel or init, and all can be looked up.
  pub data NearestClaude : ℕ → ℕ → ℕ → Type 0 where
    parent :
        {pid p q : ℕ} {name parent_name : Str}
        → lookup pid ≡ ok (p, name)
        → 1 < p
        → lookup p ≡ ok (q, parent_name)
        → parent_name ≡ claude_bin_name
        → NearestClaude 1 pid p
    above :
        {levels pid p q r : ℕ} {name parent_name : Str}
        → lookup pid ≡ ok (p, name)
        → 1 < p
        → lookup p ≡ ok (q, parent_name)
        → parent_name ≢ claude_bin_name
        → NearestClaude levels p r
        → NearestClaude (suc levels) pid r

  walk-finds :
      (levels n pid r : ℕ) → NearestClaude n pid r → n ≤ levels → walk lookup levels pid ≡ ok r
  unfolding walk
  walk-finds zero n pid r (parent e lt f c) le = absurd (ground arith)
  walk-finds zero _ pid r (above e lt f c k) le = absurd (ground arith)
  walk-finds (suc levels) _ pid r (parent {p = p} e lt f c) le =
      let past : leb p 1 ≡ false = ground arith in
      let found : str_eq _ claude_bin_name ≡ true = (str_eq_iff _ claude_bin_name).1 c in
      rw (e, walk) (rw past (rw (f, walk) (rw found refl)))
  walk-finds (suc levels) _ pid r (above {p = p} {parent_name = name} e lt f c k) le =
      let past : leb p 1 ≡ false = ground arith in
      let other : str_eq name claude_bin_name ≡ false =
        ground (arith, str_eq_iff name claude_bin_name) in
      rw (e, walk) (rw past (rw (f, walk) (rw other (walk-finds levels _ _ r k (omega arith)))))

  walk-found :
      (levels pid r : ℕ)
      → walk lookup levels pid ≡ ok r
      → (n : ℕ) × (n ≤ levels) × NearestClaude n pid r
  unfolding walk
  walk-found zero pid r h = absurd (ground arith)
  walk-found (suc levels) pid r h = elim (Result-cases (lookup pid)) [
    | inr (x, e) ↦ absurd (let h' = rw (e, walk) at h in ground arith)
    | inl ((p, name), e) ↦ elim (Bool-cases (leb p 1)) [
      | inl low ↦ absurd (let h' = rw (e, low, walk) at h in ground arith)
      | inr past ↦ elim (Result-cases (lookup p)) [
        | inr (x, f) ↦ absurd (let h' = rw (e, past, f, walk) at h in ground arith)
        | inl ((q, parent_name), f) ↦ elim (Bool-cases (str_eq parent_name claude_bin_name)) [
          | inl same ↦
              let is_p : p ≡ r = let h' = rw (e, past, f, same, walk) at h in ground arith in
              (
                1,
                omega arith,
                subst (λ x. NearestClaude 1 pid x) is_p
                    (parent e (ground arith) f ((str_eq_iff parent_name claude_bin_name).0 same)),
              )
          | inr other ↦
              let further : walk lookup levels p ≡ ok r = rw (e, past, f, other, walk) at h in
              let (n, le, k) = walk-found levels p r further in
              (
                suc n,
                omega arith,
                above e (ground arith) f (ground (arith, str_eq_iff parent_name claude_bin_name)) k,
              )
        ]
      ]
    ]
  ]

  -- The walk finds a process exactly if that is the nearest `claude` above the start, at most 16
  -- levels up.
  pub find_claude_ancestor_with_iff :
      (start r : ℕ)
      → (find_claude_ancestor_with lookup start ≡ ok r)
        ↔ ((n : ℕ) × (n ≤ max_depth) × NearestClaude n start r)
  unfolding find_claude_ancestor_with
  find_claude_ancestor_with_iff start r =
      (walk-found max_depth start r, λ h. walk-finds max_depth h.0 start r h.2 h.1)

-- ===== src/RateLimit/Warning.antt =====
-- The announcements of dropped messages over a whole run.
use minara_connect.Base.{
  ℕ, ◌+◌, ◌^◌, ◌≤◌, ◌<◌, ◌≡◌, refl, ◌∙◌, inl, inr, Bool, true, false, ◌&&◌, Option, some, none,
  List, [], ◌∷◌, arith, Str, str_eq, str_eq_iff, str_eq_refl, ℤ, pos, saturating_sub_i64,
  saturating_sub_i64-pos, Bool-cases, if◌then◌else◌,
}
use minara_connect.RateLimit.{
  RateLimitDecision, allow, drop_it, RateLimiter, new, should_warn, check_and_record,
  rate_limit_warn_cooldown_ms,
}
use minara_connect.RateLimit.Window.{decision, after}
use minara_connect.RateLimit.Budget.{IsClocked}

abbrev pub is_warning : RateLimitDecision → Bool
is_warning allow = false
is_warning (drop_it warn) = warn

-- The times at which a run announces that it drops messages of `a`, latest first.
abbrev pub warned_times : Str → RateLimiter → List (Str × ℕ) → List ℕ → List ℕ
warned_times a s [] earlier = earlier
warned_times a s ((b, now) ∷ calls) earlier =
    warned_times a (after s b (pos now)) calls
      (if str_eq b a && is_warning (decision s b (pos now)) then now ∷ earlier else earlier)

-- Two announcements that follow one another are at least the cooldown apart.
abbrev pub IsCooled : List ℕ → Type 0
IsCooled [] = Unit
IsCooled (t ∷ []) = Unit
IsCooled (t ∷ u ∷ earlier) = (u + rate_limit_warn_cooldown_ms ≤ t) × IsCooled (u ∷ earlier)

-- the latest announcement, as the limiter keeps it
abbrev latest : List ℕ → Option ℤ
latest [] = none
latest (t ∷ earlier) = some (pos t)

abbrev InRange : List ℕ → Type 0
InRange [] = Unit
InRange (t ∷ earlier) = t < 2 ^ 63

should_warn-IsCooled :
    (times : List ℕ) (now : ℕ)
    → now < 2 ^ 63
    → InRange times
    → IsCooled times
    → should_warn (latest times) (pos now) ≡ true
    → IsCooled (now ∷ times)
unfolding should_warn
should_warn-IsCooled [] now h r c w = tt
should_warn-IsCooled (t ∷ times) now h r c w =
    (ground (arith, rw (saturating_sub_i64-pos now t h r) at w), c)

-- A drop that no announcement went before is announced.
pub should_warn_first : (now : ℕ) → now < 2 ^ 63 → should_warn none (pos now) ≡ true
unfolding should_warn saturating_sub_i64
should_warn_first now h = ground arith

-- A call announces a drop only if the cooldown test passes, and then it records the time.
last_warned-check :
    (s : RateLimiter) (a : Str) (now : ℤ)
    → (after s a now).last_warned a
      ≡ (if is_warning (decision s a now) then some now else s.last_warned a)
unfolding check_and_record
last_warned-check s a now = ground (arith, str_eq_refl a)

last_warned-check_ne :
    (s : RateLimiter) (a b : Str) (now : ℤ)
    → str_eq b a ≡ false
    → (after s b now).last_warned a ≡ s.last_warned a
unfolding check_and_record
last_warned-check_ne s a b now h = ground arith

is_warning→should_warn :
    (s : RateLimiter) (a : Str) (now : ℤ)
    → is_warning (decision s a now) ≡ true
    → should_warn (s.last_warned a) now ≡ true
unfolding check_and_record
is_warning→should_warn s a now h = ground arith

warned_times-IsCooled :
    (a : Str) (s : RateLimiter) (calls : List (Str × ℕ)) (earlier : List ℕ) (last : ℕ)
    → IsClocked last calls
    → IsCooled earlier
    → InRange earlier
    → s.last_warned a ≡ latest earlier
    → IsCooled (warned_times a s calls earlier)
warned_times-IsCooled a s [] earlier last c k r e = k
warned_times-IsCooled a s ((b, now) ∷ calls) earlier last c k r e = elim (Bool-cases (str_eq b a)) [
  | inr other ↦ rw other (
      warned_times-IsCooled a (after s b (pos now)) calls earlier now c.2 k r
        (last_warned-check_ne s a b (pos now) other ∙ e))
  | inl same ↦
      let own : b ≡ a = (str_eq_iff b a).0 same in
      elim (Bool-cases (is_warning (decision s a (pos now)))) [
        | inl w ↦
            rw (same, own, w)
              (warned_times-IsCooled a (after s a (pos now)) calls (now ∷ earlier) now c.2
                (should_warn-IsCooled earlier now c.1 r k
                  (rw e at (is_warning→should_warn s a (pos now) w)))
                c.1 (rw w at (last_warned-check s a (pos now))))
        | inr w ↦
            rw (same, own, w)
              (warned_times-IsCooled a (after s a (pos now)) calls earlier now c.2 k r
                (rw w at (last_warned-check s a (pos now)) ∙ e))
      ]
]

-- Whatever messages arrive, with a clock that does not go back, two announcements about one author
-- are at least the cooldown apart.
pub warnings_keep_the_cooldown :
    (a : Str) (calls : List (Str × ℕ)) → IsClocked 0 calls → IsCooled (warned_times a new calls [])
warnings_keep_the_cooldown a calls c = warned_times-IsCooled a new calls [] 0 c tt tt refl

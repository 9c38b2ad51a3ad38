-- ===== src/RateLimit/Tests.antt =====
-- Runs of the rate limiter.
use minara_connect.Base.{
  ℕ, zero, suc, ◌+◌, ◌≡◌, refl, List, [], ◌∷◌, arith, Str, str, str_eq, sub_i64, saturating_sub_i64,
}
use minara_connect.RateLimit.{new, evict, check_and_record, should_warn}
use minara_connect.RateLimit.Budget.{IsClocked, IsSpread, allowed_times, no_author_exceeds_the_rate}
use minara_connect.RateLimit.Warning.{IsCooled, warned_times, warnings_keep_the_cooldown}

abbrev alice : Str
alice = str "a"

-- one call each 100 ms
abbrev calls_from : ℕ → ℕ → List (Str × ℕ)
calls_from zero t = []
calls_from (suc n) t = (alice, t) ∷ calls_from n (t + 100)

abbrev burst : List (Str × ℕ)
burst = calls_from 33 1000

-- 30 of 33 calls within the window are allowed, and the others announced once.
burst_test :
    allowed_times alice new burst []
    ≡ 3900 ∷ 3800 ∷ 3700 ∷ 3600 ∷ 3500 ∷ 3400 ∷ 3300 ∷ 3200 ∷ 3100 ∷ 3000 ∷ 2900 ∷ 2800 ∷ 2700
      ∷ 2600 ∷ 2500 ∷ 2400 ∷ 2300 ∷ 2200 ∷ 2100 ∷ 2000 ∷ 1900 ∷ 1800 ∷ 1700 ∷ 1600 ∷ 1500 ∷ 1400
      ∷ 1300 ∷ 1200 ∷ 1100 ∷ 1000 ∷ []
unfolding check_and_record str_eq evict sub_i64 saturating_sub_i64
burst_test = refl

burst_warned_test : warned_times alice new burst [] ≡ 4000 ∷ []
unfolding check_and_record should_warn str_eq evict sub_i64 saturating_sub_i64
burst_warned_test = refl

burst-IsClocked : IsClocked 0 burst
burst-IsClocked = omega arith

no_author_exceeds_the_rate_example : IsSpread (allowed_times alice new burst [])
no_author_exceeds_the_rate_example = no_author_exceeds_the_rate alice burst burst-IsClocked

warnings_keep_the_cooldown_example : IsCooled (warned_times alice new burst [])
warnings_keep_the_cooldown_example = warnings_keep_the_cooldown alice burst burst-IsClocked

-- ===== src/RateLimit/Window.antt =====
-- What one call does to the window of its author, and to the windows of the others.
use minara_connect.Base.{
  ◌≤◌, ◌<◌, ◌≡◌, ◌≢◌, inl, inr, some, List, [], ◌∷◌, ◌++◌, arith, Str, str_eq, str_eq_iff,
  str_eq_refl, ℤ, length, length-append, Bool-cases,
}
use minara_connect.RateLimit.{
  RateLimitDecision, allow, drop_it, RateLimiter, unwrap_or, evict, check_and_record,
  rate_limit_max_per_window,
}

-- the timestamps that the limiter holds for an author
abbrev pub window_of : RateLimiter → Str → List ℤ
window_of s a = unwrap_or [] (s.by_author a)

abbrev pub decision : RateLimiter → Str → ℤ → RateLimitDecision
decision s a now = (check_and_record s a now).0

abbrev pub after : RateLimiter → Str → ℤ → RateLimiter
after s a now = (check_and_record s a now).1

pub length-evict : (now : ℤ) (w : List ℤ) → length (evict now w) ≤ length w
unfolding evict
length-evict now [] = omega arith
length-evict now (t ∷ w) = ground (arith, length-evict now w)

-- No author has more timestamps on record than the cap.
abbrev pub IsWithinCap : RateLimiter → Type 0
IsWithinCap s = (a : Str) → length (window_of s a) ≤ rate_limit_max_per_window

-- A call leaves the window of its author with the evicted timestamps, and the new one if it is
-- allowed.
pub window_of-check :
    (s : RateLimiter) (a : Str) (now : ℤ)
    → window_of (after s a now) a
      ≡ unwrap_or [] (
          some (elim (decision s a now) [
            | allow ↦ evict now (window_of s a) ++ now ∷ []
            | drop_it warn ↦ evict now (window_of s a)
          ]))
unfolding check_and_record
window_of-check s a now = ground (arith, str_eq_refl a)

-- The window of another author stays.
pub window_of-check_ne :
    (s : RateLimiter) (a b : Str) (now : ℤ) → a ≢ b → window_of (after s a now) b ≡ window_of s b
unfolding check_and_record
window_of-check_ne s a b now h = ground (arith, str_eq_iff a b)

-- A message is allowed exactly when fewer timestamps than the cap are left in the window.
pub allow_iff_room :
    (s : RateLimiter) (a : Str) (now : ℤ)
    → (decision s a now ≡ allow → length (evict now (window_of s a)) < rate_limit_max_per_window)
      × (length (evict now (window_of s a)) < rate_limit_max_per_window → decision s a now ≡ allow)
unfolding check_and_record
allow_iff_room s a now = (λ h. ground arith, λ h. ground arith)

length-window_of-check :
    (s : RateLimiter) (a : Str) (now : ℤ)
    → length (window_of s a) ≤ rate_limit_max_per_window
    → length (window_of (after s a now) a) ≤ rate_limit_max_per_window
unfolding check_and_record
length-window_of-check s a now h = ground (
  arith,
  str_eq_refl a,
  length-evict now (window_of s a),
  length-append (evict now (window_of s a)) (now ∷ []),
)

-- Every call keeps the cap for every author.
pub check_and_record-IsWithinCap :
    (s : RateLimiter) (a : Str) (now : ℤ) → IsWithinCap s → IsWithinCap (after s a now)
check_and_record-IsWithinCap s a now h b = elim (Bool-cases (str_eq a b)) [
  | inl same ↦ rw (← (str_eq_iff a b).0 same) (length-window_of-check s a now (h a))
  | inr other ↦ rw (window_of-check_ne s a b now (λ e. cc (other, (str_eq_iff a b).1 e))) (h b)
]

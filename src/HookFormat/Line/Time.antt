-- ===== src/HookFormat/Line/Time.antt =====
-- The time of a line is a clock time of 24 hours.
use minara_connect.Base.{
  ℕ, ◌+◌, ◌*◌, ◌/◌, ◌%◌, ◌<◌, ◌≤◌, ◌==◌, inl, inr, Bool-cases, ◌≡◌, refl, true, [], ◌∷◌, arith, Str,
  str_eq, str_eq_iff, Bool, ◌&&◌, zero, suc, decimal, ℤ, pos, negsuc,
}
use minara_connect.HookFormat.Line.{day_minute, pad2, format_utc_hhmm}

abbrev digits2 : ℕ → Str
digits2 n = (b'0' + n / 10) ∷ (b'0' + n % 10) ∷ []

-- A test of every number up to a bound, by evaluation.
passes_up_to : (ℕ → Bool) → ℕ → Bool
passes_up_to test zero = test zero
passes_up_to test (suc n) = test (suc n) && passes_up_to test n

passes_up_to_lem :
    (test : ℕ → Bool) (n : ℕ) → passes_up_to test n ≡ true → (k : ℕ) → k ≤ n → test k ≡ true
unfolding passes_up_to
passes_up_to_lem test zero h k le = let e : k ≡ zero = omega arith in rw e h
passes_up_to_lem test (suc n) h k le = elim (Bool-cases (k == suc n)) [
  | inl e ↦ let same : k ≡ suc n = ground arith in rw same (ground arith)
  | inr e ↦ passes_up_to_lem test n (ground arith) k (ground arith)
]

pad2_table : passes_up_to (λ n. str_eq (pad2 n) (digits2 n)) 99 ≡ true
unfolding passes_up_to str_eq pad2 decimal
pad2_table = refl

two_digits : (n : ℕ) → n < 100 → pad2 n ≡ digits2 n
two_digits n h =
    (str_eq_iff (pad2 n) (digits2 n)).0 (passes_up_to_lem _ 99 pad2_table n (omega arith))

day_minute_lt : (ts : ℤ) → day_minute ts < 1440
day_minute_lt (pos a) = omega arith
day_minute_lt (negsuc a) = omega arith

-- The hour is below 24 and the minute below 60, each with two digits, also before 1970; and they
-- are the minutes since 1970 modulo one day.
pub format_utc_hhmm_lem :
    (ts : ℤ)
    → (hh : ℕ) × (mm : ℕ) × (hh < 24)
      × (mm < 60)
      × (hh * 60 + mm ≡ day_minute ts)
      × (format_utc_hhmm ts
          ≡ (b'0' + hh / 10) ∷ (b'0' + hh % 10) ∷ b':' ∷ (b'0' + mm / 10) ∷ (b'0' + mm % 10) ∷ [])
unfolding format_utc_hhmm
format_utc_hhmm_lem ts =
    let lt = day_minute_lt ts in
    (
      day_minute ts / 60,
      day_minute ts % 60,
      omega arith,
      omega arith,
      omega arith,
      rw (two_digits (day_minute ts / 60) (omega arith))
          (rw (two_digits (day_minute ts % 60) (omega arith))),
    )

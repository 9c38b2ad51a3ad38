-- ===== src/RateLimit.antt =====
-- crates/cc-connect-core/src/rate_limit.rs: the per-author sliding-window limiter. A `HashMap` is a
-- function from keys to optional values, and a `VecDeque` the list of its items, front first.
pub mod Tests
pub mod Window
pub mod Budget
pub mod Warning
use minara_connect.Base.{
  ℕ, suc, Bool, true, false, not, Option, none, some, List, [], ◌∷◌, ◌++◌, Str, str_eq, ℤ, pos,
  i64_min, ltb_ℤ, leb_ℤ, leb, sub_i64, saturating_sub_i64, length, if◌then◌else◌,
}

abbrev pub rate_limit_window_ms : ℕ
rate_limit_window_ms = 10_000

abbrev pub rate_limit_max_per_window : ℕ
rate_limit_max_per_window = 30

abbrev pub rate_limit_warn_cooldown_ms : ℕ
rate_limit_warn_cooldown_ms = 30_000

pub data RateLimitDecision : Type 0 where
  allow : RateLimitDecision
  drop_it : Bool → RateLimitDecision

pub record RateLimiter : Type 0 where
  pub by_author : Str → Option (List ℤ)
  pub last_warned : Str → Option ℤ

abbrev pub new : RateLimiter
new = record { by_author = λ _. none; last_warned = λ _. none }

-- `map.insert(key, value)`
abbrev pub insert {ℓ} : {V : Type ℓ} → Str → V → (Str → Option V) → Str → Option V
insert k v m j = if str_eq k j then some v else m j

-- `unwrap_or(d)`
abbrev pub unwrap_or {ℓ} : {A : Type ℓ} → A → Option A → A
unwrap_or d none = d
unwrap_or d (some a) = a

-- the test of the `while`: the front of the window is older than the window is long
abbrev expired : ℤ → ℤ → Bool
expired now_ms t = ltb_ℤ (pos rate_limit_window_ms) (sub_i64 now_ms t)

-- `while window.front().is_some_and(..) { window.pop_front(); }`
unfoldable pub evict : ℤ → List ℤ → List ℤ
evict now_ms [] = []
evict now_ms (t ∷ window) = if expired now_ms t then evict now_ms window else t ∷ window

-- the test that decides whether a drop is announced
pub should_warn : Option ℤ → ℤ → Bool
should_warn last now_ms =
    leb_ℤ (pos rate_limit_warn_cooldown_ms) (saturating_sub_i64 now_ms (unwrap_or i64_min last))

-- `Drop { warn }`, with the evicted window already in the map
drop_message : RateLimiter → Str → ℤ → RateLimitDecision × RateLimiter
unfolding should_warn
drop_message s author now_ms =
    let warn = should_warn (s.last_warned author) now_ms in
    (
      drop_it warn,
      if warn then record s { last_warned = insert author now_ms s.last_warned } else s,
    )

unfoldable pub check_and_record : RateLimiter → Str → ℤ → RateLimitDecision × RateLimiter
unfolding drop_message
check_and_record s author now_ms =
    let window = evict now_ms (unwrap_or [] (s.by_author author)) in
    if leb rate_limit_max_per_window (length window)
    then drop_message (record s { by_author = insert author window s.by_author }) author now_ms
    else (allow, record s { by_author = insert author (window ++ now_ms ∷ []) s.by_author })

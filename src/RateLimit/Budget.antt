-- ===== src/RateLimit/Budget.antt =====
-- The sliding window as a promise about a whole run: the times of the messages that were allowed,
-- against the window that the limiter keeps. Times are milliseconds since 1970, below 2 ^ 63.
use minara_connect.Base.{
  ℕ, zero, suc, ◌+◌, ◌^◌, ◌≤◌, ◌<◌, ◌≡◌, refl, ap, ◌∙◌, inl, inr, Bool, true, false, ◌&&◌, Option,
  some, none, List, [], ◌∷◌, ◌++◌, map, append_assoc, arith, Str, str_eq, str_eq_iff, pos, ltb,
  ltb_ℤ, sub_i64, sub_i64-pos, length, get_elem?, All, All-append, All-reverse, All-mono,
  length-reverse, length-map, Bool-cases, if◌then◌else◌,
}
use mathlib.Core.List.{reverse, reverse-append, map-append}
use minara_connect.RateLimit.{
  RateLimitDecision, allow, drop_it, RateLimiter, new, evict, rate_limit_window_ms,
}
use minara_connect.RateLimit.Window.{
  window_of, decision, after, window_of-check, window_of-check_ne, allow_iff_room,
}

abbrev pub is_allow : RateLimitDecision → Bool
is_allow allow = true
is_allow (drop_it warn) = false

-- The times of the messages of `a` that a run allows, latest first, in front of `earlier`.
abbrev pub allowed_times : Str → RateLimiter → List (Str × ℕ) → List ℕ → List ℕ
allowed_times a s [] earlier = earlier
allowed_times a s ((b, now) ∷ calls) earlier =
    allowed_times a (after s b (pos now)) calls
      (if str_eq b a && is_allow (decision s b (pos now)) then now ∷ earlier else earlier)

-- The clock of a run does not go back, and stays in the range of an `i64`.
abbrev pub IsClocked : ℕ → List (Str × ℕ) → Type 0
IsClocked last [] = Unit
IsClocked last ((b, now) ∷ calls) = (last ≤ now) × (now < 2 ^ 63) × IsClocked now calls

abbrev pub IsBefore : ℕ → Option ℕ → Type 0
IsBefore now none = Unit
IsBefore now (some t) = t + rate_limit_window_ms < now

-- Of any time and the one 30 places before it, the earlier is more than the window older. So no
-- span of `rate_limit_window_ms` holds more than 30 of the times.
abbrev pub IsSpread : List ℕ → Type 0
IsSpread [] = Unit
IsSpread (t ∷ earlier) = IsBefore t (get_elem? earlier 29) × IsSpread earlier

abbrev IsOld : ℕ → ℕ → Type 0
IsOld now t = t + rate_limit_window_ms < now

abbrev InRange : ℕ → Type 0
InRange t = t < 2 ^ 63

-- The window is what is left of the allowed times once the oldest ones are gone.
record Tracks (a : Str) (s : RateLimiter) (times : List ℕ) (last : ℕ) : Type 0 where
  window : List ℕ
  gone : List ℕ
  is_window : window_of s a ≡ map pos window
  is_times : times ≡ reverse window ++ gone
  old : All (IsOld last) gone
  in_range : All InRange window

record Evicted (now : ℕ) (w : List ℕ) : Type 0 where
  kept : List ℕ
  out : List ℕ
  is_kept : evict (pos now) (map pos w) ≡ map pos kept
  splits : w ≡ out ++ kept
  old : All (IsOld now) out
  in_range : All InRange kept

expired_lem :
    (now t : ℕ)
    → now < 2 ^ 63
    → t < 2 ^ 63
    → ltb_ℤ (pos rate_limit_window_ms) (sub_i64 (pos now) (pos t))
      ≡ ltb (t + rate_limit_window_ms) now
expired_lem now t h k = rw (sub_i64-pos now t h k) (ground arith)

evicted : (now : ℕ) (w : List ℕ) → now < 2 ^ 63 → All InRange w → Evicted now w
unfolding evict
evicted now [] h r = record {
  kept = [];
  out = [];
  is_kept = refl;
  splits = refl;
  old = tt;
  in_range = tt;
}
evicted now (t ∷ w) h r = elim (Bool-cases (ltb (t + rate_limit_window_ms) now)) [
  | inl e ↦
      let rest = evicted now w h r.1 in
      record {
        kept = rest.kept;
        out = t ∷ rest.out;
        is_kept = rw (expired_lem now t h r.0, e) rest.is_kept;
        splits = ap (◌∷◌ t) rest.splits;
        old = (ground arith, rest.old);
        in_range = rest.in_range;
      }
  | inr e ↦ record {
    kept = t ∷ w;
    out = [];
    is_kept = rw (expired_lem now t h r.0, e);
    splits = refl;
    old = tt;
    in_range = r;
  }
]

-- An index past the first part of a list is one into the second.
get_elem?-IsBefore :
    (now i : ℕ) (xs gone : List ℕ)
    → length xs ≤ i
    → All (IsOld now) gone
    → IsBefore now (get_elem? (xs ++ gone) i)
get_elem?-IsBefore now i [] [] h o = tt
get_elem?-IsBefore now zero [] (t ∷ gone) h o = o.0
get_elem?-IsBefore now (suc i) [] (t ∷ gone) h o =
    get_elem?-IsBefore now i [] gone (omega arith) o.1
get_elem?-IsBefore now zero (x ∷ xs) gone h o = absurd (omega arith)
get_elem?-IsBefore now (suc i) (x ∷ xs) gone h o = get_elem?-IsBefore now i xs gone (omega arith) o

-- One message of `a`: whether or not it is allowed, the window still tracks the allowed times, and
-- a time that is put in front of them keeps its distance.
record Stepped (a : Str) (s : RateLimiter) (times : List ℕ) (now : ℕ) : Type 0 where
  tracks : Tracks a (after s a (pos now)) times now
  spread : IsSpread times

module _ (a : Str) (s : RateLimiter) (times : List ℕ) (now : ℕ) (w gone : List ℕ)
    (is_window : window_of s a ≡ map pos w) (is_times : times ≡ reverse w ++ gone)
    (old : All (IsOld now) gone) (spread : IsSpread times) (ev : Evicted now w) where
  is_evicted : evict (pos now) (window_of s a) ≡ map pos ev.kept
  is_evicted = rw is_window ev.is_kept

  All-gone : All (IsOld now) (reverse ev.out ++ gone)
  All-gone =
      All-append (IsOld now) (reverse ev.out) gone (All-reverse (IsOld now) ev.out ev.old) old

  is_regrouped : times ≡ reverse ev.kept ++ (reverse ev.out ++ gone)
  is_regrouped = rw (is_times, ev.splits) (simp (reverse-append, append_assoc))

  step_drop : (b : Bool) → decision s a (pos now) ≡ drop_it b → Stepped a s times now
  step_drop b e = record {
    tracks = record {
      window = ev.kept;
      gone = reverse ev.out ++ gone;
      is_window = rw (window_of-check, e) is_evicted;
      is_times = is_regrouped;
      old = All-gone;
      in_range = ev.in_range;
    };
    spread = spread;
  }

  step_allow : now < 2 ^ 63 → decision s a (pos now) ≡ allow → Stepped a s (now ∷ times) now
  step_allow h e = record {
    tracks = record {
      window = ev.kept ++ now ∷ [];
      gone = reverse ev.out ++ gone;
      is_window = rw (window_of-check, e) (rw is_evicted (rw map-append));
      is_times = rw (is_regrouped, reverse-append);
      old = All-gone;
      in_range = All-append InRange ev.kept (now ∷ []) ev.in_range (h, tt);
    };
    spread = (
      rw is_regrouped (
          get_elem?-IsBefore now 29 (reverse ev.kept) (reverse ev.out ++ gone)
            (omega (
              arith,
              length-reverse ev.kept,
              length-map {0, 0} pos ev.kept,
              rw is_evicted at ((allow_iff_room s a (pos now)).0 e),
            ))
            All-gone),
      spread,
    );
  }

step_own :
    (a : Str) (s : RateLimiter) (times : List ℕ) (last now : ℕ) (d : RateLimitDecision)
    → decision s a (pos now) ≡ d
    → last ≤ now
    → now < 2 ^ 63
    → IsSpread times
    → Tracks a s times last
    → Stepped a s (if is_allow d then now ∷ times else times) now
step_own a s times last now allow e later h spread tr =
    step_allow a s times now tr.window tr.gone tr.is_window tr.is_times
      (All-mono (IsOld last) (IsOld now) tr.gone (λ t o. omega arith) tr.old) spread
      (evicted now tr.window h tr.in_range) h e
step_own a s times last now (drop_it b) e later h spread tr =
    step_drop a s times now tr.window tr.gone tr.is_window tr.is_times
      (All-mono (IsOld last) (IsOld now) tr.gone (λ t o. omega arith) tr.old) spread
      (evicted now tr.window h tr.in_range) b e

-- A message of another author moves nothing of this one.
step_other :
    (a b : Str) (s : RateLimiter) (times : List ℕ) (last now : ℕ)
    → str_eq b a ≡ false
    → last ≤ now
    → Tracks a s times last
    → Tracks a (after s b (pos now)) times now
step_other a b s times last now e later tr = record {
  window = tr.window;
  gone = tr.gone;
  is_window = window_of-check_ne s b a (pos now) (λ p. cc (e, (str_eq_iff b a).1 p)) ∙ tr.is_window;
  is_times = tr.is_times;
  old = All-mono (IsOld last) (IsOld now) tr.gone (λ t o. omega arith) tr.old;
  in_range = tr.in_range;
}

allowed_times-IsSpread :
    (a : Str) (s : RateLimiter) (calls : List (Str × ℕ)) (earlier : List ℕ) (last : ℕ)
    → IsClocked last calls
    → IsSpread earlier
    → Tracks a s earlier last
    → IsSpread (allowed_times a s calls earlier)
allowed_times-IsSpread a s [] earlier last c spread tr = spread
allowed_times-IsSpread a s ((b, now) ∷ calls) earlier last c spread tr =
    elim (Bool-cases (str_eq b a)) [
      | inl same ↦
          let own : b ≡ a = (str_eq_iff b a).0 same in
          let st = step_own a s earlier last now _ refl c.0 c.1 spread tr in
          rw (same, own)
            (allowed_times-IsSpread a (after s a (pos now)) calls _ now c.2 st.spread st.tracks)
      | inr other ↦ rw other (
          allowed_times-IsSpread a (after s b (pos now)) calls earlier now c.2 spread
            (step_other a b s earlier last now other c.0 tr))
    ]

-- Whatever messages arrive from whatever authors, with a clock that does not go back, no span of
-- the window's length holds more than 30 allowed messages of one author.
pub no_author_exceeds_the_rate :
    (a : Str) (calls : List (Str × ℕ)) → IsClocked 0 calls → IsSpread (allowed_times a new calls [])
no_author_exceeds_the_rate a calls c =
    allowed_times-IsSpread a new calls [] 0 c tt (record {
      window = [];
      gone = [];
      is_window = refl;
      is_times = refl;
      old = tt;
      in_range = tt;
    })

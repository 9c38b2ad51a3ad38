-- ===== src/Posix/Decided.antt =====
-- Which attempt decides, and when it accepts the directory.
use minara_connect.Base.{
  ◌≡◌, ◌↔◌, ◌⊎◌, refl, inl, inr, arith, true, false, some, List, [], ◌∷◌, ◌++◌, All, Result, ok,
  err, io_error, subst,
}
use minara_connect.Posix.{
  Meta, Lstat, found, not_found, lstat_failed, Mkdir, made, already_exists, mkdir_failed, Attempt,
  private_mode, check_meta, ensure_secure_dir,
}

-- Another process made the directory between the look and the attempt to make it.
abbrev pub IsRace : Attempt → Type 0
IsRace attempt = (attempt.lstat ≡ not_found) × (attempt.mkdir ≡ already_exists)

-- A directory of mode 0700 that is no link.
abbrev pub IsPrivate : Meta → Type 0
IsPrivate meta = (meta.is_symlink ≡ false) × (meta.is_dir ≡ true) × (meta.mode ≡ private_mode)

-- Such a directory is there, or has been made.
abbrev pub IsSecure : Lstat → Mkdir → Type 0
IsSecure lstat mkdir =
    ((meta : Meta) × (lstat ≡ found meta) × IsPrivate meta) ⊎ ((lstat ≡ not_found) × (mkdir ≡ made))

check_meta_iff : (meta : Meta) → (check_meta meta ≡ ok tt) ↔ IsPrivate meta
unfolding check_meta
check_meta_iff meta = (λ h. ground arith, λ h. ground arith)

decides :
    (lstat : Lstat) (mkdir : Mkdir) (later : List Attempt)
    → ¬ ((lstat ≡ not_found) × (mkdir ≡ already_exists))
    → (r : Result (Unit {0})) × (ensure_secure_dir (record { lstat = lstat; mkdir = mkdir } ∷ later)
        ≡ some r)
      × ((r ≡ ok tt) ↔ IsSecure lstat mkdir)
unfolding ensure_secure_dir
decides (found meta) mkdir later n =
    let (to, from) = check_meta_iff meta in
    (
      check_meta meta,
      refl,
      (
        (λ h. inl (meta, refl, to h)),
        λ h. elim h [
          | inl (meta', e, p) ↦
              from (subst IsPrivate (let same : meta' ≡ meta = ground arith in same) p)
          | inr made_it ↦ absurd (ground (arith, made_it.0))
        ],
      ),
    )
decides lstat_failed mkdir later n = (
  err io_error,
  refl,
  (
    (λ h. absurd (ground arith)),
    λ h. elim h [
      | inl (meta, e, p) ↦ absurd (ground arith)
      | inr made_it ↦ absurd (ground (arith, made_it.0))
    ],
  ),
)
decides not_found made later n = (ok tt, refl, ((λ h. inr (refl, refl)), λ h. refl))
decides not_found already_exists later n = absurd (n (refl, refl))
decides not_found mkdir_failed later n = (
  err io_error,
  refl,
  (
    (λ h. absurd (ground arith)),
    λ h. elim h [
      | inl (meta, e, p) ↦ absurd (ground arith)
      | inr made_it ↦ absurd (ground (arith, made_it.1))
    ],
  ),
)

-- However often another process makes the directory and removes it again in between: the first
-- attempt in which it does not is the one that answers, and the answer is yes exactly if then there
-- is a directory of mode 0700 that is no link, or the call has made it.
pub ensure_secure_dir_lem :
    (races : List Attempt) (attempt : Attempt) (later : List Attempt)
    → All IsRace races
    → ¬ IsRace attempt
    → (r : Result (Unit {0})) × (ensure_secure_dir (races ++ attempt ∷ later) ≡ some r)
      × ((r ≡ ok tt) ↔ IsSecure attempt.lstat attempt.mkdir)
unfolding ensure_secure_dir
ensure_secure_dir_lem [] attempt later h n = decides attempt.lstat attempt.mkdir later n
ensure_secure_dir_lem (race ∷ races) attempt later h n =
    rw (h.0.0, h.0.1, ensure_secure_dir) (ensure_secure_dir_lem races attempt later h.1 n)

-- ===== src/Posix.antt =====
-- crates/cc-connect-core/src/posix.rs, ensure_secure_dir: a private directory, made if it is missing.
-- Each attempt is what `lstat` and `mkdir` say in it; the recursion runs on the list of attempts, and
-- with none left the answer is open.
pub mod Decided
pub mod Tests
use minara_connect.Base.{
  ℕ, Bool, not, Option, none, some, List, [], ◌∷◌, ◌==◌, Result, ok, err, ◌>>=◌, ◌>>◌, bail_if,
  io_error, refuse_symlink, refuse_not_dir, refuse_mode,
}

-- the metadata of what stands at the path; the mode is cut to its last nine bits
pub record Meta : Type 0 where
  pub is_symlink : Bool
  pub is_dir : Bool
  pub mode : ℕ

pub data Lstat : Type 0 where
  found : Meta → Lstat
  not_found lstat_failed : Lstat

pub data Mkdir : Type 0 where
  made already_exists mkdir_failed : Mkdir

pub record Attempt : Type 0 where
  pub lstat : Lstat
  pub mkdir : Mkdir

-- 0o700
abbrev pub private_mode : ℕ
private_mode = 448

-- the arm of a path that exists
pub check_meta : Meta → Result (Unit {0})
check_meta meta = do
  bail_if meta.is_symlink refuse_symlink
  bail_if (not meta.is_dir) refuse_not_dir
  bail_if (not (meta.mode == private_mode)) refuse_mode

pub ensure_secure_dir : List Attempt → Option (Result (Unit {0}))
unfolding check_meta
ensure_secure_dir [] = none
ensure_secure_dir (attempt ∷ attempts) = elim attempt.lstat [
  | found meta ↦ some (check_meta meta)
  | lstat_failed ↦ some (err io_error)
  | not_found ↦ elim attempt.mkdir [
    | made ↦ some (ok tt)
    | already_exists ↦ ensure_secure_dir attempts
    | mkdir_failed ↦ some (err io_error)
  ]
]

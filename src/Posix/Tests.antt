-- ===== src/Posix/Tests.antt =====
-- A race, and then the directory of another process.
use minara_connect.Base.{◌≡◌, ◌↔◌, refl, true, false, some, [], ◌∷◌, Result, ok}
use minara_connect.Posix.{Attempt, found, not_found, already_exists, made, ensure_secure_dir}
use minara_connect.Posix.Decided.{IsSecure, ensure_secure_dir_lem}

abbrev race : Attempt
race = record { lstat = not_found; mkdir = already_exists }

abbrev settled : Attempt
settled = record {
  lstat = found (record { is_symlink = false; is_dir = true; mode = 448 });
  mkdir = made;
}

ensure_secure_dir_lem_example :
    (r : Result (Unit {0})) × (ensure_secure_dir (race ∷ settled ∷ []) ≡ some r)
    × ((r ≡ ok tt) ↔ IsSecure settled.lstat settled.mkdir)
ensure_secure_dir_lem_example =
    ensure_secure_dir_lem (race ∷ []) settled [] ((refl, refl), tt) (λ h. cc)

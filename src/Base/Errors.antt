-- ===== src/Base/Errors.antt =====
-- The errors of the program, by the code that their text begins with, and results that may fail.
use mathlib.Core.Path.{◌≡◌, refl}
use mathlib.Core.Logic.{◌⊎◌, inl, inr}
use mathlib.Core.Bool.{Bool, true, false}
use mathlib.Core.Option.{Option, none, some}

-- `anyhow::Error` values, one constructor for each code of the sources. An error that has no code
-- of its own is `io_error` (a system call) or `json_error` (serde_json).
pub data Error : Type 0 where
  io_error not_found json_error : Error
  parse_error version_mismatch unknown_kind body_too_large : Error
  filename_empty filename_invalid : Error
  blob_hash_missing blob_hash_invalid blob_size_missing blob_too_large : Error
  nick_empty nick_too_large nick_invalid : Error
  ulid_invalid_char ulid_length : Error
  append_invariant : Error
  cursor_parse_error cursor_race_retry_exhausted cursor_tmp_collision : Error
  rooms_version_mismatch pending_version_mismatch pending_token_invalid : Error
  invalid_prefix base32_error truncated checksum_mismatch : Error
  claude_pid_not_found claude_pid_walk_too_deep : Error
  refuse_symlink refuse_not_dir refuse_mode : Error
  frame_too_large drop_refused : Error

pub data Result {ℓ} (A : Type ℓ) : Type ℓ where
  err : Error → Result A
  ok : A → Result A

-- `if cond { bail!(e) }`
abbrev pub bail_if : Bool → Error → Result (Unit {0})
bail_if true e = err e
bail_if false e = ok tt

-- The `?` operator: the rest of a function runs on the value, and an error is returned.
infixl 5 ◌>>=◌ ◌>>◌
abbrev pub ◌>>=◌ {ℓ κ} : {A : Type ℓ} {B : Type κ} → Result A → (A → Result B) → Result B
err e >>= rest = err e
ok a >>= rest = rest a

abbrev pub ◌>>◌ {κ} : {B : Type κ} → Result (Unit {0}) → Result B → Result B
check >> rest = check >>= λ _. rest

pub bail_if-eq-ok : (b : Bool) (e : Error) → bail_if b e ≡ ok tt → b ≡ false
bail_if-eq-ok true e h = cc
bail_if-eq-ok false e h = refl

module _ {ℓ κ} {A : Type ℓ} {B : Type κ} where
  pub >>=-eq-ok :
      (x : Result A) (rest : A → Result B) {b : B}
      → (x >>= rest) ≡ ok b
      → (a : A) × (x ≡ ok a) × (rest a ≡ ok b)
  >>=-eq-ok (err e) rest h = cc
  >>=-eq-ok (ok a) rest h = (a, refl, h)

pub >>-eq-ok {ℓ} :
    {A : Type ℓ} (m : Result (Unit {0})) (k : Result A) {a : A}
    → (m >> k) ≡ ok a
    → (m ≡ ok tt) × (k ≡ ok a)
>>-eq-ok (ok t) k h = (refl, h)
>>-eq-ok (err e) k h = cc

-- A result is a value or an error, with the equation.
pub Result-cases {ℓ} :
    {A : Type ℓ} (m : Result A) → ((a : A) × (m ≡ ok a)) ⊎ ((e : Error) × (m ≡ err e))
Result-cases (ok a) = inl (a, refl)
Result-cases (err e) = inr (e, refl)

pub bail_if_pass : (b : Bool) (e : Error) → b ≡ false → bail_if b e ≡ ok tt
bail_if_pass true e h = cc
bail_if_pass false e h = refl

-- `option.ok_or_else(|| e)`
abbrev pub ok_or {ℓ} : {A : Type ℓ} → Error → Option A → Result A
ok_or e none = err e
ok_or e (some a) = ok a

-- ===== src/DropSafety.antt =====
-- crates/cc-connect-core/src/drop_safety.rs: which files are not shared. A path is a byte string and
-- absolute, and its components are those of `Path::components` on Unix; a reason is its kind, without
-- the text around the path.
pub mod Tests
pub mod Samples
pub mod Matches
pub mod Blocked
use mathlib.Core.List.{reverse}
use minara_connect.Base.{
  ℕ, Bool, true, false, not, ◌||◌, ◌&&◌, Option, none, some, List, [], ◌∷◌, ◌++◌, map, any, ◌==◌,
  if◌then◌else◌, Str, str, str_eq, starts_with, ends_with, is_empty, is_utf8, to_ascii_lowercase,
}

pub data Component : Type 0 where
  root_dir parent_dir : Component
  normal : Str → Component

pub data Reason : Type 0 where
  credential_dir git_tree ssh_key secret_name credential_extension : Reason

pub data DropSafety : Type 0 where
  allow : DropSafety
  block : Reason → DropSafety

abbrev push_byte : ℕ → List Str → List Str
push_byte b [] = (b ∷ []) ∷ []
push_byte b (p ∷ parts) = (b ∷ p) ∷ parts

-- the parts between the slashes
pub split_path : Str → List Str
split_path [] = [] ∷ []
split_path (b ∷ s) = let rest = split_path s in if b == b'/' then [] ∷ rest else push_byte b rest

-- A part that is empty or `.` is no component.
pub part_components : List Str → List Component
part_components [] = []
part_components (p ∷ parts) =
    let rest = part_components parts in
    if is_empty p || str_eq p (str ".")
    then rest
    else if str_eq p (str "..")
    then parent_dir ∷ rest
    else normal p ∷ rest

-- `Path::components` of an absolute path
pub components : Str → List Component
unfolding split_path part_components
components path = root_dir ∷ part_components (split_path path)

abbrev pub component_eq : Component → Component → Bool
component_eq root_dir root_dir = true
component_eq parent_dir parent_dir = true
component_eq (normal a) (normal b) = str_eq a b
component_eq _ _ = false

-- `starts_with` of the components, in `path_is_within`
pub path_is_within : List Component → List Component → Bool
path_is_within path [] = true
path_is_within [] (p ∷ prefix) = false
path_is_within (c ∷ path) (p ∷ prefix) = component_eq c p && path_is_within path prefix

abbrev pub dir_blocklist : List (List Str)
dir_blocklist =
    (str ".ssh" ∷ [])
    ∷ (str ".aws" ∷ [])
    ∷ (str ".gnupg" ∷ [])
    ∷ (str ".kube" ∷ [])
    ∷ (str ".docker" ∷ [])
    ∷ (str ".config" ∷ str "gcloud" ∷ [])
    ∷ []

-- `blocked`: the home with the parts pushed
abbrev pub blocked_dir : List Component → List Str → List Component
blocked_dir home parts = home ++ map normal parts

-- the last component, if it is a normal one
pub file_name : List Component → Option Str
file_name [] = none
file_name (normal name ∷ []) = some name
file_name (c ∷ []) = none
file_name (c ∷ d ∷ path) = file_name (d ∷ path)

abbrev pub key_prefixes : List Str
key_prefixes = str "id_rsa" ∷ str "id_dsa" ∷ str "id_ecdsa" ∷ str "id_ed25519" ∷ []

abbrev pub secret_names : List Str
secret_names = str ".env" ∷ str ".netrc" ∷ str ".npmrc" ∷ str ".pypirc" ∷ []

abbrev pub secret_suffixes : List Str
secret_suffixes = str ".pem" ∷ str ".key" ∷ str ".p12" ∷ str ".pfx" ∷ str ".kdbx" ∷ []

-- the rules on the file name
pub evaluate_name : Str → DropSafety
evaluate_name name =
    let lower = to_ascii_lowercase name in
    if not (is_utf8 name)
    then allow
    else if any (starts_with lower) key_prefixes
    then block ssh_key
    else if any (str_eq lower) secret_names || starts_with lower (str ".env.")
    then block secret_name
    else if any (ends_with lower) secret_suffixes
    then block credential_extension
    else allow

pub evaluate : Str → Str → DropSafety
unfolding components path_is_within file_name evaluate_name
evaluate abs_path home =
    let path = components abs_path in
    if any (λ parts. path_is_within path (blocked_dir (components home) parts)) dir_blocklist
    then block credential_dir
    else if any (λ c. component_eq c (normal (str ".git"))) path
    then block git_tree
    else elim (file_name path) [ none ↦ allow | some name ↦ evaluate_name name ]

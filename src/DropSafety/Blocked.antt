-- ===== src/DropSafety/Blocked.antt =====
-- crates/cc-connect-core/src/drop_safety.rs, evaluate: exactly which paths are refused.
use minara_connect.Base.{
  AnyOf, ◌≡◌, ◌⊎◌, ◌↔◌, refl, subst, inl, inr, Bool, true, false, not, ◌||◌, Option, none, some,
  List, ◌++◌, any, arith, if◌then◌else◌, Str, str, str_eq, str_eq_iff, starts_with, ends_with,
  is_utf8, to_ascii_lowercase,
}
use minara_connect.DropSafety.{
  Component, normal, DropSafety, allow, block, ssh_key, secret_name, credential_extension,
  credential_dir, git_tree, components, component_eq, path_is_within, dir_blocklist, blocked_dir,
  file_name, key_prefixes, secret_names, secret_suffixes, evaluate_name, evaluate,
}
use minara_connect.DropSafety.Matches.{
  EndsIn, any_iff, starts_with_iff, ends_with_iff, component_eq_iff, path_is_within_iff,
  file_name_iff,
}

-- some place in the path is a component of the name `.git`
abbrev pub IsGit : Component → Type 0
IsGit c = c ≡ normal (str ".git")

-- what a name is refused for
abbrev pub IsSecretName : Str → Type 0
IsSecretName name =
    (is_utf8 name ≡ true)
    × (AnyOf (λ p. (rest : Str) × (to_ascii_lowercase name ≡ p ++ rest)) key_prefixes
        ⊎ AnyOf (λ n. to_ascii_lowercase name ≡ n) secret_names
        ⊎ ((rest : Str) × (to_ascii_lowercase name ≡ str ".env." ++ rest))
        ⊎ AnyOf (λ s. (front : Str) × (to_ascii_lowercase name ≡ front ++ s)) secret_suffixes)

abbrev pub is_block : DropSafety → Bool
is_block allow = false
is_block (block reason) = true

-- The rules on a name, and those on a path, by the outcomes of their tests.
name_chain_iff :
    (valid key name env suffix : Bool)
    → (is_block (
          if not valid
          then allow
          else if key
          then block ssh_key
          else if name || env
          then block secret_name
          else if suffix
          then block credential_extension
          else allow)
        ≡ true)
      ↔ ((valid ≡ true) × ((key ≡ true) ⊎ (name ≡ true) ⊎ (env ≡ true) ⊎ (suffix ≡ true)))
name_chain_iff false key name env suffix = ground arith
name_chain_iff true true name env suffix = ((λ h. (refl, inl refl)), λ h. refl)
name_chain_iff true false true env suffix = ((λ h. (refl, inr (inl refl))), λ h. refl)
name_chain_iff true false false true suffix = ((λ h. (refl, inr (inr (inl refl)))), λ h. refl)
name_chain_iff true false false false true = ((λ h. (refl, inr (inr (inr refl)))), λ h. refl)
name_chain_iff true false false false false = ground arith

path_chain_iff :
    (within git : Bool) (named : DropSafety)
    → (is_block (if within then block credential_dir else if git then block git_tree else named)
        ≡ true)
      ↔ ((within ≡ true) ⊎ (git ≡ true) ⊎ (is_block named ≡ true))
path_chain_iff true git named = ((λ h. inl refl), λ h. refl)
path_chain_iff false true named = ((λ h. inr (inl refl)), λ h. refl)
path_chain_iff false false named = (
  (λ h. inr (inr h)),
  λ h. elim h [
    | inl e ↦ absurd (ground arith)
    | inr o ↦ elim o [ inl e ↦ absurd (ground arith) | inr n ↦ n ]
  ],
)

evaluate_name_iff : (name : Str) → (is_block (evaluate_name name) ≡ true) ↔ IsSecretName name
unfolding evaluate_name
evaluate_name_iff name =
    let lower = to_ascii_lowercase name in
    let keys = any_iff (starts_with lower) _ key_prefixes (λ p. starts_with_iff lower p) in
    let names = any_iff (str_eq lower) _ secret_names (λ n. str_eq_iff lower n) in
    let envs = starts_with_iff lower (str ".env.") in
    let ends = any_iff (ends_with lower) _ secret_suffixes (λ t. ends_with_iff lower t) in
    let chain =
      name_chain_iff (is_utf8 name) (any (starts_with lower) key_prefixes)
        (any (str_eq lower) secret_names) (starts_with lower (str ".env."))
        (any (ends_with lower) secret_suffixes) in
    (
      (λ h.
          let (valid, why) = chain.0 h in
          (
            valid,
            elim why [
              | inl k ↦ inl (keys.0 k)
              | inr o ↦ inr (elim o [
                | inl n ↦ inl (names.0 n)
                | inr o' ↦ inr (elim o' [ inl e ↦ inl (envs.0 e) | inr s ↦ inr (ends.0 s) ])
              ])
            ],
          )),
      λ h.
          let (valid, why) = h in
          chain.1 (
            valid,
            elim why [
              | inl k ↦ inl (keys.1 k)
              | inr o ↦ inr (elim o [
                | inl n ↦ inl (names.1 n)
                | inr o' ↦ inr (elim o' [ inl e ↦ inl (envs.1 e) | inr s ↦ inr (ends.1 s) ])
              ])
            ],
          ),
    )

named_iff :
    (file : Option Str)
    → (is_block (elim file as (λ _. DropSafety) [ none ↦ allow | some name ↦ evaluate_name name ])
        ≡ true)
      ↔ ((name : Str) × (file ≡ some name) × IsSecretName name)
named_iff none = ((λ h. absurd (ground arith)), λ h. absurd (ground (arith, h.1)))
named_iff (some name) = (
  (λ h. (name, refl, (evaluate_name_iff name).0 h)),
  λ h.
      let (n, e, k) = h in
      (evaluate_name_iff name).1
        (subst IsSecretName (let same : n ≡ name = ground arith in same) k),
)

-- A path is refused exactly if it lies in one of the credential directories of the home, or has a
-- component `.git`, or ends in a file name that is that of a key, of a file of secrets or of a
-- credential. A component `..` is compared as it stands, and of the names
-- that begin with `.env` only `.env` itself and those in `.env.` are refused: `.envrc` and
-- `.env-local` are not, though PROTOCOL.md lists `.env*`.
pub evaluate_iff :
    (abs_path home : Str)
    → (is_block (evaluate abs_path home) ≡ true) ↔ (
        AnyOf
          (λ parts.
            (rest : List Component) × (components abs_path
              ≡ blocked_dir (components home) parts ++ rest))
          dir_blocklist
        ⊎ AnyOf IsGit (components abs_path)
        ⊎ ((name : Str) × EndsIn (components abs_path) name × IsSecretName name))
unfolding evaluate
evaluate_iff abs_path home =
    let path = components abs_path in
    let dirs =
      any_iff (λ parts. path_is_within path (blocked_dir (components home) parts)) _ dir_blocklist
        (λ parts. path_is_within_iff path (blocked_dir (components home) parts)) in
    let git =
      any_iff (λ c. component_eq c (normal (str ".git"))) IsGit path
        (λ c. component_eq_iff c (normal (str ".git"))) in
    let named = named_iff (file_name path) in
    let chain =
      path_chain_iff
        (any (λ parts. path_is_within path (blocked_dir (components home) parts)) dir_blocklist)
        (any (λ c. component_eq c (normal (str ".git"))) path) _ in
    (
      (λ h. elim (chain.0 h) [
        | inl d ↦ inl (dirs.0 d)
        | inr o ↦ inr (elim o [
          | inl g ↦ inl (git.0 g)
          | inr n ↦ inr (let (name, e, k) = named.0 n in (name, (file_name_iff path name).0 e, k))
        ])
      ]),
      λ h. chain.1 (elim h [
        | inl d ↦ inl (dirs.1 d)
        | inr o ↦ inr (elim o [
          | inl g ↦ inl (git.1 g)
          | inr n ↦ inr (let (name, e, k) = n in named.1 (name, (file_name_iff path name).1 e, k))
        ])
      ]),
    )

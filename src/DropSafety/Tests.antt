-- ===== src/DropSafety/Tests.antt =====
-- A private key, a file of secrets, and a way around through `..`.
use minara_connect.Base.{
  ◌≡◌, ◌⊎◌, ◌↔◌, refl, true, List, ◌++◌, Str, str, str_eq, starts_with, is_utf8, to_ascii_lowercase,
}
use minara_connect.DropSafety.{
  Component, allow, block, credential_dir, secret_name, components, blocked_dir, dir_blocklist,
  evaluate,
}
use minara_connect.Base.{AnyOf}
use minara_connect.DropSafety.Matches.{EndsIn}
use minara_connect.DropSafety.Blocked.{IsGit, IsSecretName, is_block, evaluate_iff}

ssh_test : evaluate (str "/h/a//.ssh/config") (str "/h/a") ≡ block credential_dir
unfolding evaluate str_eq
ssh_test = refl

env_test : evaluate (str "/h/a/w/.Env.local") (str "/h/a") ≡ block secret_name
unfolding evaluate str_eq starts_with is_utf8 to_ascii_lowercase
env_test = refl

parent_dir_test : evaluate (str "/h/a/w/../.ssh/config") (str "/h/a") ≡ allow
unfolding evaluate str_eq starts_with is_utf8 to_ascii_lowercase
parent_dir_test = refl

evaluate_iff_example : (is_block (evaluate (str "/h/a/.ssh/config") (str "/h/a")) ≡ true) ↔ (
    AnyOf
      (λ parts.
        (rest : List Component) × (components (str "/h/a/.ssh/config")
          ≡ blocked_dir (components (str "/h/a")) parts ++ rest))
      dir_blocklist
    ⊎ AnyOf IsGit (components (str "/h/a/.ssh/config"))
    ⊎ ((name : Str) × EndsIn (components (str "/h/a/.ssh/config")) name × IsSecretName name))
evaluate_iff_example = evaluate_iff (str "/h/a/.ssh/config") (str "/h/a")

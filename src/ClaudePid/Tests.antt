-- ===== src/ClaudePid/Tests.antt =====
-- A process tree: 30 is a shell under `claude`, which is 20.
use minara_connect.Base.{
  ℕ, ◌≤◌, ◌≡◌, ◌↔◌, refl, if◌then◌else◌, ◌==◌, Str, str, str_eq, Result, ok, err, io_error,
}
use minara_connect.ClaudePid.{max_depth, find_claude_ancestor_with}
use minara_connect.ClaudePid.Nearest.{NearestClaude, find_claude_ancestor_with_iff}

abbrev tree : ℕ → Result (ℕ × Str)
tree pid =
    if pid == 40
    then ok (30, str "hook")
    else if pid == 30
    then ok (20, str "sh")
    else if pid == 20
    then ok (10, str "claude")
    else err io_error

find_test : find_claude_ancestor_with tree 40 ≡ ok 20
unfolding find_claude_ancestor_with str_eq
find_test = refl

find_claude_ancestor_with_iff_example :
    (find_claude_ancestor_with tree 40 ≡ ok 20)
    ↔ ((n : ℕ) × (n ≤ max_depth) × NearestClaude tree n 40 20)
find_claude_ancestor_with_iff_example = find_claude_ancestor_with_iff tree 40 20

-- ===== src/ClaudePid.antt =====
-- crates/cc-connect-core/src/claude_pid.rs: the walk up the process tree to the nearest `claude`.
-- The lookup of a process in the operating system is a parameter.
pub mod Tests
pub mod Nearest
pub mod Stat
use minara_connect.Base.{
  ℕ, zero, suc, Bool, true, false, if◌then◌else◌, Str, str, str_eq, leb, Result, ok, err, ◌>>=◌,
  claude_pid_not_found, claude_pid_walk_too_deep,
}

abbrev pub claude_bin_name : Str
claude_bin_name = str "claude"

abbrev pub max_depth : ℕ
max_depth = 16

-- The body of the loop, for so many more levels. `lookup` gives the parent and the name of a
-- process.
pub walk : (ℕ → Result (ℕ × Str)) → ℕ → ℕ → Result ℕ
walk lookup zero pid = err claude_pid_walk_too_deep
walk lookup (suc levels) pid = elim (lookup pid) [
  | err e ↦ err e
  | ok p ↦ elim (leb p.0 1) [
    | true ↦ err claude_pid_not_found
    | false ↦ elim (lookup p.0) [
      | err e ↦ err e
      | ok parent ↦ elim (str_eq parent.1 claude_bin_name) [
        | true ↦ ok p.0
        | false ↦ walk lookup levels p.0
      ]
    ]
  ]
]

pub find_claude_ancestor_with : (ℕ → Result (ℕ × Str)) → ℕ → Result ℕ
unfolding walk
find_claude_ancestor_with lookup start = walk lookup max_depth start

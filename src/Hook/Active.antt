-- ===== src/Hook/Active.antt =====
-- `enumerate_active_rooms` and `check_pid_alive`: the rooms whose daemon is alive.
pub mod Alive
pub mod Tests
use minara_connect.Base.{
  parse_unsigned, ℕ, ◌+◌, ◌-◌, ◌*◌, ◌^◌, Bool, true, false, not, ◌&&◌, ◌||◌, Option, none, some,
  List, [], ◌∷◌, ◌++◌, ◌==◌, leb, ltb, within, length, take, if◌then◌else◌, Str, str, ends_with,
  is_empty, is_utf8, trim, Error, Result, ok, err, io_error, refuse_symlink, refuse_not_dir,
  refuse_mode,
}

abbrev active_suffix : Str
active_suffix = str ".active"

-- `n.to_str()` and `strip_suffix(".active")`
pub topic_of_file : Str → Option Str
topic_of_file name =
    if is_utf8 name && ends_with name active_suffix
    then some (take (length name - length active_suffix) name)
    else none

-- The number of a pid file, if it is one from 100 to `i32::MAX`. What starts with a minus is none.
pub parse_pid : Str → Option ℕ
parse_pid raw = elim (parse_unsigned (trim raw)) [
  | none ↦ none
  | some pid ↦ if leb 100 pid && ltb pid (2 ^ 31) then some pid else none
]

-- what `kill(pid, 0)` says
pub data Signalled : Type 0 where
  delivered no_such_process refused : Signalled

abbrev is_delivered : Signalled → Bool
is_delivered delivered = true
is_delivered _ = false

-- An entry of the directory, with its content if it can be read as text.
pub record Entry : Type 0 where
  pub name : Str
  pub content : Option Str

pub record ActiveDir : Type 0 where
  pub is_symlink : Bool
  pub is_dir : Bool
  pub mode : ℕ
  pub entries : List Entry

module _ (kill : ℕ → Signalled) where
  -- `check_pid_alive`, an error being no
  pub is_alive : Entry → Bool
  unfolding parse_pid
  is_alive entry = elim entry.content [
    | none ↦ false
    | some raw ↦ elim (parse_pid raw) [ none ↦ false | some pid ↦ is_delivered (kill pid) ]
  ]

  -- the loop: the topics that are found, and the entries that are left
  pub scan : List Entry → List Str × List Entry
  unfolding topic_of_file is_alive
  scan [] = ([], [])
  scan (entry ∷ entries) =
      let (topics, left) = scan entries in
      elim (topic_of_file entry.name) [
        | none ↦ (topics, entry ∷ left)
        | some topic ↦ if is_alive entry then (topic ∷ topics, entry ∷ left) else (topics, left)
      ]

  -- The directory is `none` where it is missing.
  pub enumerate_active_rooms : Option ActiveDir → Result (List Str) × Option ActiveDir
  unfolding scan
  enumerate_active_rooms none = (ok [], none)
  enumerate_active_rooms (some dir) =
      let (topics, left) = scan dir.entries in
      if dir.is_symlink
      then (err refuse_symlink, some dir)
      else if not dir.is_dir
      then (err refuse_not_dir, some dir)
      else if not (dir.mode == 448)
      then (err refuse_mode, some dir)
      else (ok topics, some (record dir { entries = left }))

-- ===== src/ChatSession/Drops.antt =====
-- `build_file_drop`: how a file is announced. The files, the environment and the blob store are outside.
pub mod Announced
pub mod Tests
use minara_connect.Base.{
  Bool, true, false, not, ◌&&◌, Option, none, some, List, ltb, ℕ, if◌then◌else◌, Str, str, str_eq,
  is_empty, is_utf8, ℤ, Result, ok, err, ◌>>=◌, ◌>>◌, bail_if, ok_or, io_error, drop_refused,
  blob_too_large, filename_invalid,
}
use minara_connect.Message.{Message, file_drop_max_bytes, new_file_drop}
use minara_connect.DropSafety.{
  DropSafety, allow, block, evaluate, split_path, part_components, file_name,
}

-- What a drop meets outside: two variables of the environment, and what the files and the blob store
-- answer.
pub record Outside : Type 0 where
  pub allow_dangerous : Option Str
  pub home : Option Str
  pub absolute : Str → Option Str
  pub metadata : Str → Option ℕ
  pub add_path : Str → Option Str
  pub copy_local : Message → Str → Bool

-- `CC_CONNECT_DROP_ALLOW_DANGEROUS`, neither empty nor `0`
abbrev pub bypass : Option Str → Bool
bypass none = false
bypass (some v) = not (is_empty v) && not (str_eq v (str "0"))

abbrev pub home_or_root : Option Str → Str
home_or_root none = str "/"
home_or_root (some home) = home

abbrev is_refused : DropSafety → Bool
is_refused allow = false
is_refused (block reason) = true

-- the blocklist, unless it is bypassed
pub check_safety : Outside → Str → Result (Unit {0})
check_safety out abs_path =
    bail_if
      (not (bypass out.allow_dangerous) && is_refused (evaluate abs_path (home_or_root out.home)))
      drop_refused

-- `path.file_name().and_then(|n| n.to_str())`
pub drop_name : Str → Option Str
drop_name path_str = elim (file_name (part_components (split_path path_str))) [
  | none ↦ none
  | some name ↦ if is_utf8 name then some name else none
]

pub build_file_drop : Outside → Str → Str → Str → ℤ → Result Message
unfolding check_safety drop_name
build_file_drop out path_str author_pubkey id now_ms = do
  abs_path ← ok_or io_error (out.absolute path_str)
  check_safety out abs_path
  size ← ok_or io_error (out.metadata abs_path)
  bail_if (ltb file_drop_max_bytes size) blob_too_large
  filename ← ok_or filename_invalid (drop_name path_str)
  hash_hex ← ok_or io_error (out.add_path abs_path)
  m ← new_file_drop id author_pubkey now_ms filename hash_hex size
  bail_if (not (out.copy_local m abs_path)) io_error
  ok m

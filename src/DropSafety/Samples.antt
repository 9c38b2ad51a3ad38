-- ===== src/DropSafety/Samples.antt =====
-- A file outside the home, with a harmless name.
use minara_connect.Base.{
  ◌≡◌, refl, some, Str, str, str_eq, starts_with, to_ascii_lowercase, is_utf8,
}
use minara_connect.DropSafety.{
  allow, evaluate, evaluate_name, components, split_path, part_components, path_is_within,
  file_name,
}

abbrev pub notes : Str
notes = str "/tmp/a.txt"

pub evaluate-notes : evaluate notes (str "/home/p1") ≡ allow
unfolding evaluate components split_path part_components path_is_within file_name evaluate_name
    str_eq starts_with to_ascii_lowercase is_utf8
evaluate-notes = refl

pub file_name-notes : file_name (part_components (split_path notes)) ≡ some (str "a.txt")
unfolding split_path part_components file_name str_eq
file_name-notes = refl

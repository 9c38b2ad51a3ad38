-- ===== src/ClaudePid/Stat.antt =====
-- `parse_proc_stat_ppid`: the parent in a line of /proc/<pid>/stat.
pub mod Parent
pub mod Tests
use minara_connect.Base.{
  ℕ, ◌^◌, Bool, ◌||◌, Option, none, some, List, [], ◌∷◌, ◌==◌, ltb, within, if◌then◌else◌, Str,
  chars, parse_unsigned,
}

-- what is behind the last `)`
pub after_last_close : Str → Option Str
after_last_close [] = none
after_last_close (b ∷ s) = elim (after_last_close s) [
  | some after ↦ some after
  | none ↦ if b == b')' then some s else none
]

-- `char::is_whitespace`
abbrev pub is_whitespace : ℕ → Bool
is_whitespace c =
    within 9 13 c
    || c == 0x20
    || c == 0x85
    || c == 0xA0
    || c == 0x1680
    || within 0x2000 0x200A c
    || within 0x2028 0x2029 c
    || c == 0x202F
    || c == 0x205F
    || c == 0x3000

abbrev pub flush : List ℕ → List (List ℕ) → List (List ℕ)
flush [] words = words
flush (c ∷ word) words = (c ∷ word) ∷ words

-- the word that a text starts with, and those behind it
pub scan_words : List ℕ → List ℕ × List (List ℕ)
scan_words [] = ([], [])
scan_words (c ∷ s) =
    let (word, words) = scan_words s in
    if is_whitespace c then ([], flush word words) else (c ∷ word, words)

pub split_whitespace : List ℕ → List (List ℕ)
unfolding scan_words
split_whitespace s = let (word, words) = scan_words s in flush word words

-- `parse::<u32>().ok()`
pub parse_u32 : List ℕ → Option ℕ
parse_u32 s = elim (parse_unsigned s) [
  | none ↦ none
  | some n ↦ if ltb n (2 ^ 32) then some n else none
]

-- the second word
abbrev second_u32 : List (List ℕ) → Option ℕ
second_u32 [] = none
second_u32 (state ∷ []) = none
second_u32 (state ∷ ppid_str ∷ words) = parse_u32 ppid_str

pub parse_proc_stat_ppid : Str → Option ℕ
unfolding after_last_close split_whitespace parse_u32
parse_proc_stat_ppid raw = elim (after_last_close raw) [
  | none ↦ none
  | some after ↦ second_u32 (split_whitespace (chars after))
]

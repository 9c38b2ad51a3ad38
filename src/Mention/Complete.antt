-- ===== src/Mention/Complete.antt =====
-- crates/cc-connect-tui/src/mention.rs, complete_at: what stands in the input afterwards.
use minara_connect.Base.{
  ◌≡◌, refl, false, none, some, [], ◌∷◌, ◌++◌, ◌==◌, arith, append_assoc, Str, contains_byte,
}
use minara_connect.Mention.{up_to_last_at, complete_at}

up_to_last_at-none : (tok : Str) → contains_byte tok b'@' ≡ false → up_to_last_at tok ≡ none
unfolding up_to_last_at contains_byte
up_to_last_at-none [] h = refl
up_to_last_at-none (b ∷ tok) h =
    let other : (b == b'@') ≡ false = ground arith in
    rw (up_to_last_at-none tok (ground arith), other) refl

up_to_last_at_lem :
    (before tok : Str)
    → contains_byte tok b'@' ≡ false
    → up_to_last_at (before ++ b'@' ∷ tok) ≡ some (before ++ b'@' ∷ [])
unfolding up_to_last_at
up_to_last_at_lem [] tok h = rw (up_to_last_at-none tok h) refl
up_to_last_at_lem (b ∷ before) tok h = rw (up_to_last_at_lem before tok h) refl

-- Completing replaces what stands behind the last `@` by the name and a space, and keeps all in
-- front of it.
pub complete_at_lem :
    (before tok full_nick : Str)
    → contains_byte tok b'@' ≡ false
    → complete_at (before ++ b'@' ∷ tok) full_nick ≡ before ++ b'@' ∷ (full_nick ++ b' ' ∷ [])
unfolding complete_at
complete_at_lem before tok full_nick h =
    rw (up_to_last_at_lem before tok h, complete_at)
      (append_assoc before (b'@' ∷ []) (full_nick ++ b' ' ∷ []))

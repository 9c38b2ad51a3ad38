-- ===== src/ChatSession/History/Window.antt =====
-- The context of a mention as a window of the log.
use minara_connect.Base.{
  ◌≤◌, ◌-◌, ◌≡◌, refl, sym, ap, ◌∙◌, inl, inr, arith, Bool, true, not, ◌&&◌, Option, none, some,
  List, [], ◌∷◌, All, Bool-cases, Str, str_le, drop, length, length-drop, if◌then◌else◌, take,
  take-append-drop, All-suffix, subst,
}
use minara_connect.Message.{Message}
use minara_connect.LogIo.{is_after, read_since}
use minara_connect.LogIo.Lines.{after_cursor, read_since_cursor}
use minara_connect.ChatSession.History.{before_id, context_between, mention_context_max}

-- The id is after the one and before the other.
abbrev pub is_between : Str → Str → Message → Bool
is_between since until_id m = is_after (some since) m && not (str_le until_id m.id)

pub keep_between : Str → Str → List Message → List Message
keep_between since until_id [] = []
keep_between since until_id (m ∷ ms) =
    let rest = keep_between since until_id ms in
    if is_between since until_id m then m ∷ rest else rest

before-after :
    (since until_id : Str) (ms : List Message)
    → before_id until_id (after_cursor (some since) ms) ≡ keep_between since until_id ms
unfolding before_id after_cursor keep_between
before-after since until_id [] = refl
before-after since until_id (m ∷ ms) = elim (Bool-cases (is_after (some since) m)) [
  | inr old ↦ rw old (before-after since until_id ms)
  | inl new ↦ elim (Bool-cases (str_le until_id m.id)) [
    | inl late ↦ rw (new, late) (before-after since until_id ms)
    | inr early ↦ rw (new, early) (ap (◌∷◌ m) (before-after since until_id ms))
  ]
]

-- The context of a mention is the last 50 of the messages of the log whose ids are strictly between
-- the caller's last mention and this one, in the order of the log.
pub context_between_lem :
    (from_slice : Str → Option Message) (content since until_id : Str)
    → let between = keep_between since until_id (read_since from_slice content none) in
      context_between from_slice (some content) (some since) until_id
      ≡ drop (length between - mention_context_max) between
unfolding context_between
context_between_lem from_slice content since until_id =
    let same =
      ap (before_id until_id) (read_since_cursor from_slice content (some since))
      ∙ before-after since until_id (read_since from_slice content none) in
    ap (λ ms. drop (length ms - mention_context_max) ms) same

keep_between-All :
    (since until_id : Str) (ms : List Message)
    → All (λ m. is_between since until_id m ≡ true) (keep_between since until_id ms)
unfolding keep_between
keep_between-All since until_id [] = tt
keep_between-All since until_id (m ∷ ms) = elim (Bool-cases (is_between since until_id m)) [
  | inl e ↦ rw e (e, keep_between-All since until_id ms)
  | inr e ↦ rw e (keep_between-All since until_id ms)
]

-- What a caller may find in the context of a mention: nothing if it had none before, and at most 50
-- messages, each between the two.
abbrev pub IsWindow : Option Str → Str → List Message → Type 0
IsWindow none until_id ms = ms ≡ []
IsWindow (some since) until_id ms =
    (length ms ≤ mention_context_max) × All (λ m. is_between since until_id m ≡ true) ms

pub context_between-IsWindow :
    (from_slice : Str → Option Message) (log since_id : Option Str) (until_id : Str)
    → IsWindow since_id until_id (context_between from_slice log since_id until_id)
unfolding context_between
context_between-IsWindow from_slice log none until_id = refl
context_between-IsWindow from_slice none (some since) until_id = (omega arith, tt)
context_between-IsWindow from_slice (some content) (some since) until_id =
    let between = keep_between since until_id (read_since from_slice content none) in
    let n = length between - mention_context_max in
    let P : Message → Type 0 = λ m. is_between since until_id m ≡ true in
    subst (IsWindow (some since) until_id)
      (sym (context_between_lem from_slice content since until_id))
      (
        omega (arith, length-drop n between),
        All-suffix P (take n between) (drop n between) (
            subst (All P) (sym (take-append-drop n between))
              (keep_between-All since until_id (read_since from_slice content none))),
      )

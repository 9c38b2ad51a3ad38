-- ===== src/LogIo/Lines.antt =====
-- Reading a log piece by piece.
use minara_connect.Base.{
  ℕ, ◌≡◌, refl, sym, ap, ◌∙◌, inl, inr, Bool, true, false, ◌&&◌, Option, none, some, List, [], ◌∷◌,
  ◌++◌, arith, ◌==◌, if◌then◌else◌, is_utf8, is_empty, ◌⊎◌, Str, starts_with, Bool-cases,
  Option-cases, Result-cases,
}
use minara_connect.Message.{Message, from_wire_bytes}
use minara_connect.LogIo.{push_byte, lines, is_after, read_line, read_lines, read_since}

-- A log that a writer has left: empty, or with a newline at its end.
pub data IsLog : Str → Type 0 where
  empty : IsLog []
  last : IsLog (b'\n' ∷ [])
  more : {b c : ℕ} {s : Str} → IsLog (c ∷ s) → IsLog (b ∷ c ∷ s)

record NonEmpty (ls : List Str) : Type 0 where
  first : Str
  others : List Str
  splits : ls ≡ first ∷ others

push_byte-NonEmpty : (b : ℕ) (ls : List Str) → NonEmpty (push_byte b ls)
push_byte-NonEmpty b [] = record { first = b ∷ []; others = []; splits = refl }
push_byte-NonEmpty b (l ∷ ls) = record { first = b ∷ l; others = ls; splits = refl }

push_byte-append :
    (b : ℕ) (ls rest : List Str) → NonEmpty ls → push_byte b (ls ++ rest) ≡ push_byte b ls ++ rest
push_byte-append b [] rest n = absurd (ground (arith, n.splits))
push_byte-append b (l ∷ ls) rest n = refl

is_cr : ℕ → Str → Bool
is_cr b s = b == b'\r' && starts_with s (b'\n' ∷ [])

-- the three ways that a byte goes into the lines behind it
lines-newline : (b : ℕ) (s : Str) → (b == b'\n') ≡ true → lines (b ∷ s) ≡ [] ∷ lines s
unfolding lines
lines-newline b s e = rw e

lines_cr : (b : ℕ) (s : Str) → (b == b'\n') ≡ false → is_cr b s ≡ true → lines (b ∷ s) ≡ lines s
unfolding lines is_cr
lines_cr b s e f = rw (e, f)

lines-push_byte :
    (b : ℕ) (s : Str)
    → (b == b'\n') ≡ false
    → is_cr b s ≡ false
    → lines (b ∷ s) ≡ push_byte b (lines s)
unfolding lines is_cr
lines-push_byte b s e f = rw (e, f)

lines-nil : lines [] ≡ []
unfolding lines
lines-nil = refl

refl_nil : (b : Str) → lines b ≡ lines [] ++ lines b
refl_nil b = rw lines-nil

refl_newline : (b : Str) → lines (b'\n' ∷ b) ≡ lines (b'\n' ∷ []) ++ lines b
unfolding lines
refl_newline b = refl

is_cr-append : (x c : ℕ) (s b : Str) → is_cr x (c ∷ (s ++ b)) ≡ is_cr x (c ∷ s)
unfolding is_cr starts_with
is_cr-append x c s b = refl

lines-NonEmpty : {a : Str} (b : ℕ) (s : Str) → IsLog a → a ≡ b ∷ s → NonEmpty (lines (b ∷ s))
lines-NonEmpty b s empty e = absurd (ground arith)
lines-NonEmpty b s last e = elim (Bool-cases (b == b'\n')) [
  | inl nl ↦ rw (lines-newline b s nl) (record { first = []; others = lines s; splits = refl })
  | inr other ↦ absurd (ground arith)
]
lines-NonEmpty b s (more {c = c} {s = t} h) e = elim (Bool-cases (b == b'\n')) [
  | inl nl ↦ rw (lines-newline b s nl) (record { first = []; others = lines s; splits = refl })
  | inr other ↦ elim (Bool-cases (is_cr b s)) [
    | inl cr ↦
        rw (lines_cr b s other cr)
          (let same : c ∷ t ≡ s = ground arith in rw (← same) (lines-NonEmpty c t h refl))
    | inr plain ↦ rw (lines-push_byte b s other plain) (push_byte-NonEmpty b (lines s))
  ]
]

-- The lines of a log with something behind it are its own lines and then those of the rest.
pub lines-append : {a : Str} (b : Str) → IsLog a → lines (a ++ b) ≡ lines a ++ lines b
lines-append b empty = refl_nil b
lines-append b last = refl_newline b
lines-append b (more {b = x} {c = c} {s = s} h) =
    let ih : lines (c ∷ (s ++ b)) ≡ lines (c ∷ s) ++ lines b = lines-append b h in
    elim (Bool-cases (x == b'\n')) [
      | inl nl ↦
          lines-newline x (c ∷ (s ++ b)) nl
          ∙ ap (λ (ls : List Str). [] ∷ ls) ih
          ∙ ap (λ (ls : List Str). ls ++ lines b) (sym (lines-newline x (c ∷ s) nl))
      | inr other ↦ elim (Bool-cases (is_cr x (c ∷ s))) [
        | inl cr ↦
            lines_cr x (c ∷ (s ++ b)) other (is_cr-append x c s b ∙ cr)
            ∙ ih
            ∙ ap (λ (ls : List Str). ls ++ lines b) (sym (lines_cr x (c ∷ s) other cr))
        | inr plain ↦
            lines-push_byte x (c ∷ (s ++ b)) other (is_cr-append x c s b ∙ plain)
            ∙ ap (push_byte x) ih
            ∙ push_byte-append x (lines (c ∷ s)) (lines b) (lines-NonEmpty c s h refl)
            ∙ ap (λ (ls : List Str). ls ++ lines b) (sym (lines-push_byte x (c ∷ s) other plain))
      ]
    ]

read_lines-append :
    (from_slice : Str → Option Message) (cursor : Option Str) (xs ys : List Str)
    → read_lines from_slice cursor (xs ++ ys)
      ≡ read_lines from_slice cursor xs ++ read_lines from_slice cursor ys
unfolding read_lines
read_lines-append from_slice cursor [] ys = refl
read_lines-append from_slice cursor (l ∷ xs) ys =
    elim (Option-cases (read_line from_slice cursor l)) [
      | inl e ↦ rw (e, read_lines) (read_lines-append from_slice cursor xs ys)
      | inr (m, e) ↦ rw (e, read_lines) (ap (◌∷◌ m) (read_lines-append from_slice cursor xs ys))
    ]

-- Of a log, which is empty or ends in a newline, with something behind it, what is read is what the
-- log holds, and then what follows. So a corrupt line costs no line before it or after it.
pub read_since-append :
    (from_slice : Str → Option Message) (cursor : Option Str) (a b : Str)
    → IsLog a
    → read_since from_slice (a ++ b) cursor
      ≡ read_since from_slice a cursor ++ read_since from_slice b cursor
unfolding read_since
read_since-append from_slice cursor a b h =
    rw (lines-append b h) (read_lines-append from_slice cursor (lines a) (lines b))

-- the messages of a list that stand behind the cursor, in the same order
unfoldable pub after_cursor : Option Str → List Message → List Message
after_cursor cursor [] = []
after_cursor cursor (m ∷ ms) =
    let rest = after_cursor cursor ms in if is_after cursor m then m ∷ rest else rest

-- What a line gives under a cursor is what it gives without, unless the cursor leaves it out.
record LineLem (from_slice : Str → Option Message) (cursor : Option Str) (l : Str) : Type 0 where
  split :
      ((read_line from_slice none l ≡ none) × (read_line from_slice cursor l ≡ none))
      ⊎ ((m : Message) × (read_line from_slice none l ≡ some m)
          × (read_line from_slice cursor l ≡ (if is_after cursor m then some m else none)))

read_line_lem :
    (from_slice : Str → Option Message) (cursor : Option Str) (l : Str)
    → LineLem from_slice cursor l
unfolding read_line
read_line_lem from_slice cursor l = elim (Bool-cases (is_utf8 l)) [
  | inr e ↦ record { split = inl (rw e, rw e) }
  | inl e ↦ elim (Bool-cases (is_empty l)) [
    | inl e' ↦ record { split = inl (rw (e, e'), rw (e, e')) }
    | inr e' ↦ elim (Result-cases (from_wire_bytes from_slice l)) [
      | inl (m, p) ↦ record { split = inr (m, rw (e, e', p), rw (e, e', p)) }
      | inr (x, p) ↦ record { split = inl (rw (e, e', p), rw (e, e', p)) }
    ]
  ]
]

read_lines-none :
    (from_slice : Str → Option Message) (cursor : Option Str) (l : Str) (ls : List Str)
    → read_line from_slice cursor l ≡ none
    → read_lines from_slice cursor (l ∷ ls) ≡ read_lines from_slice cursor ls
unfolding read_lines
read_lines-none from_slice cursor l ls e = rw (e, read_lines)

read_lines-some :
    (from_slice : Str → Option Message) (cursor : Option Str) (l : Str) (ls : List Str)
    (m : Message)
    → read_line from_slice cursor l ≡ some m
    → read_lines from_slice cursor (l ∷ ls) ≡ m ∷ read_lines from_slice cursor ls
unfolding read_lines
read_lines-some from_slice cursor l ls m e = rw (e, read_lines)

after_cursor-cons :
    (cursor : Option Str) (m : Message) (ms : List Message)
    → after_cursor cursor (m ∷ ms)
      ≡ (if is_after cursor m then m ∷ after_cursor cursor ms else after_cursor cursor ms)
unfolding after_cursor
after_cursor-cons cursor m ms = refl

read_lines_cursor :
    (from_slice : Str → Option Message) (cursor : Option Str) (ls : List Str)
    → read_lines from_slice cursor ls ≡ after_cursor cursor (read_lines from_slice none ls)
read_lines_cursor from_slice cursor [] = unfold read_lines after_cursor in refl
read_lines_cursor from_slice cursor (l ∷ ls) =
    let ih = read_lines_cursor from_slice cursor ls in
    elim (read_line_lem from_slice cursor l).split [
      | inl (e, e') ↦
          read_lines-none from_slice cursor l ls e'
          ∙ ih
          ∙ ap (after_cursor cursor) (sym (read_lines-none from_slice none l ls e))
      | inr (m, e, e') ↦
          (elim (Bool-cases (is_after cursor m)) [
            | inl stays ↦
                read_lines-some from_slice cursor l ls m (e' ∙ rw stays)
                ∙ ap (◌∷◌ m) ih
                ∙ sym (after_cursor-cons cursor m (read_lines from_slice none ls) ∙ rw stays)
            | inr goes ↦
                read_lines-none from_slice cursor l ls (e' ∙ rw goes)
                ∙ ih
                ∙ sym (after_cursor-cons cursor m (read_lines from_slice none ls) ∙ rw goes)
          ])
          ∙ ap (after_cursor cursor) (sym (read_lines-some from_slice none l ls m e))
    ]

-- A cursor only leaves messages out: those whose id is at or before it. The order stays.
pub read_since_cursor :
    (from_slice : Str → Option Message) (content : Str) (cursor : Option Str)
    → read_since from_slice content cursor
      ≡ after_cursor cursor (read_since from_slice content none)
unfolding read_since
read_since_cursor from_slice content cursor = read_lines_cursor from_slice cursor (lines content)

-- ===== src/Cursor/Race.antt =====
-- crates/cc-connect-core/src/cursor_io.rs, advance_cursor: writers that come between the open and the
-- lock.
use minara_connect.Base.{
  ℕ, zero, suc, ◌≤◌, ◌<◌, ◌≡◌, refl, ap, ◌∙◌, inl, inr, Bool, true, false, Option, none, some, List,
  [], ◌∷◌, arith, ◌==◌, is_empty, if◌then◌else◌, Str, Result, ok, err, cursor_race_retry_exhausted,
  Bool-cases, Option-cases,
}
use minara_connect.Cursor.{
  CursorFs, new_file, open_cursor_rwc, write_atomically, others_write, behind_lock, written_at,
  written_later, advance, advance_cursor, race_retry_limit, content_of,
}

-- The inode at the path has been given out.
abbrev pub IsGiven : CursorFs → Type 0
IsGiven fs = elim fs.path [ none ↦ Unit | some file ↦ file.0 < fs.next_ino ]

-- In one of so many attempts no other writer comes between.
unfoldable pub is_calm : ℕ → List (List Str) → Bool
is_calm zero others = false
is_calm (suc attempts) others =
    let rest = is_calm attempts (written_later others) in
    if is_empty (written_at others) then true else rest

-- the last of the texts, or else what was there
abbrev pub last_or : Option Str → List Str → Option Str
last_or content [] = content
last_or content (ulid ∷ ulids) = last_or (some ulid) ulids

-- what the others leave after so many attempts
abbrev pub left_by : ℕ → List (List Str) → Option Str → Option Str
left_by zero others content = content
left_by (suc attempts) others content =
    left_by attempts (written_later others) (last_or content (written_at others))

abbrev at : ℕ → Str → ℕ → CursorFs
at ino content n = record { path = some (ino, content); next_ino = n }

-- After other writers, the path has an inode newer than any before, and their last text.
others_write_lem :
    (ulids : List Str) (ino : ℕ) (content : Str) (n : ℕ)
    → ino < n
    → (last : ℕ) × (text : Str) × (m : ℕ) × (others_write ulids (at ino content n) ≡ at last text m)
      × (last < m)
      × (is_empty ulids ≡ false → n ≤ last)
      × (ino ≤ last)
      × (some text ≡ last_or (some content) ulids)
unfolding others_write write_atomically new_file
others_write_lem [] ino content n h =
    (ino, content, n, refl, h, (λ x. absurd (ground arith)), omega arith, refl)
others_write_lem (ulid ∷ ulids) ino content n h =
    let (last, text, m, f, lt, newer, le, e) =
      others_write_lem ulids n ulid (suc n) (omega arith) in
    (last, text, m, f, lt, (λ x. le), omega arith, e)

-- What an attempt finds behind the lock.
record Locked (others : List Str) (fs : CursorFs) : Type 0 where
  fd : ℕ
  ino : ℕ
  text : Str
  n : ℕ
  opened : CursorFs
  opens : open_cursor_rwc fs ≡ (fd, opened)
  is_locked : others_write others opened ≡ at ino text n
  given : ino < n
  matches : (ino == fd) ≡ is_empty others
  leaves : is_empty others ≡ false → some text ≡ last_or (content_of fs) others

Locked-from :
    (others : List Str) (fs : CursorFs) (ino : ℕ) (content : Str) (n : ℕ)
    → open_cursor_rwc fs ≡ (ino, at ino content n)
    → ino < n
    → Locked others fs
unfolding others_write
Locked-from [] fs ino content n e h = record {
  fd = ino;
  ino = ino;
  text = content;
  n = n;
  opened = at ino content n;
  opens = e;
  is_locked = refl;
  given = h;
  matches = ground arith;
  leaves = λ x. absurd (ground arith);
}
Locked-from (ulid ∷ ulids) fs ino content n e h =
    let (last, text, m, f, lt, newer, le, t) = others_write_lem (ulid ∷ ulids) ino content n h in
    let later : n ≤ last = newer refl in
    record {
      fd = ino;
      ino = last;
      text = text;
      n = m;
      opened = at ino content n;
      opens = e;
      is_locked = f;
      given = lt;
      matches = ground arith;
      leaves = λ x. t;
    }

locked : (others : List Str) (fs : CursorFs) → IsGiven fs → Locked others fs
unfolding open_cursor_rwc new_file
locked others fs g = elim (Option-cases fs.path) [
  | inl e ↦
      Locked-from others fs fs.next_ino [] (suc fs.next_ino) (rw (e, open_cursor_rwc) refl)
        (omega arith)
  | inr (file, e) ↦
      Locked-from others fs file.0 file.1 fs.next_ino
        (rw (e, open_cursor_rwc)
          (ap (λ p. (file.0, record { path = p; next_ino = fs.next_ino })) e))
        (rw e at g)
]

behind_lock_lem :
    (fd : ℕ) (new_ulid : Str) (retry : CursorFs → CursorFs × Result (Unit {0})) (ino : ℕ)
    (text : Str) (n : ℕ)
    → behind_lock fd new_ulid retry (at ino text n)
      ≡ (if ino == fd then (at n new_ulid (suc n), ok tt) else retry (at ino text n))
unfolding behind_lock write_atomically new_file
behind_lock_lem fd new_ulid retry ino text n = elim (Bool-cases (ino == fd)) [
  | inl e ↦ rw (e, behind_lock) refl
  | inr e ↦ rw (e, behind_lock) refl
]

advance-zero :
    (others : List (List Str)) (new_ulid : Str) (fs : CursorFs)
    → advance zero others new_ulid fs ≡ (fs, err cursor_race_retry_exhausted)
unfolding advance
advance-zero others new_ulid fs = refl

advance-eq :
    (attempts : ℕ) (others : List (List Str)) (new_ulid : Str) (fs : CursorFs)
    (l : Locked (written_at others) fs)
    → advance (suc attempts) others new_ulid fs ≡ (
        if is_empty (written_at others)
        then (at l.n new_ulid (suc l.n), ok tt)
        else advance attempts (written_later others) new_ulid (at l.ino l.text l.n))
unfolding advance
advance-eq attempts others new_ulid fs l =
    rw (l.opens, l.is_locked, advance)
      (behind_lock_lem l.fd new_ulid (advance attempts (written_later others) new_ulid) l.ino l.text
          l.n
        ∙ ap
            (λ b.
              if b
              then (at l.n new_ulid (suc l.n), ok tt)
              else advance attempts (written_later others) new_ulid (at l.ino l.text l.n))
            l.matches)

advance_lem :
    (attempts : ℕ) (others : List (List Str)) (new_ulid : Str) (fs : CursorFs)
    → IsGiven fs
    → (is_calm attempts others ≡ true
        → ((advance attempts others new_ulid fs).1 ≡ ok tt)
          × (content_of ((advance attempts others new_ulid fs).0) ≡ some new_ulid))
      × (is_calm attempts others ≡ false
          → ((advance attempts others new_ulid fs).1 ≡ err cursor_race_retry_exhausted)
            × (content_of ((advance attempts others new_ulid fs).0)
                ≡ left_by attempts others (content_of fs)))
unfolding is_calm
advance_lem zero others new_ulid fs g =
    rw (advance-zero others new_ulid fs) ((λ c. absurd (ground arith)), λ c. (refl, refl))
advance_lem (suc attempts) others new_ulid fs g =
    let l = locked (written_at others) fs g in
    elim (Bool-cases (is_empty (written_at others))) [
      | inl calm ↦
          rw (advance-eq attempts others new_ulid fs l, calm)
            ((λ c. (refl, refl)), λ c. absurd (ground arith))
      | inr met ↦
          let rest =
            advance_lem attempts (written_later others) new_ulid (at l.ino l.text l.n) l.given in
          rw (advance-eq attempts others new_ulid fs l, met)
            (
              rest.0,
              λ c.
                  let (failed, kept) = rest.1 c in
                  (failed, kept ∙ ap (left_by attempts (written_later others)) (l.leaves met)),
            )
    ]

-- Where the inode at the path is one that was given out: if one of the five attempts meets no other
-- writer between its open and its lock, the cursor is advanced, and the file holds the new id alone. If every attempt meets one, the call fails, and the
-- file holds what the last of them wrote: their marks are not overwritten by a stale one.
pub advance_cursor_lem :
    (others : List (List Str)) (new_ulid : Str) (fs : CursorFs)
    → IsGiven fs
    → (is_calm race_retry_limit others ≡ true
        → ((advance_cursor others new_ulid fs).1 ≡ ok tt)
          × (content_of ((advance_cursor others new_ulid fs).0) ≡ some new_ulid))
      × (is_calm race_retry_limit others ≡ false
          → ((advance_cursor others new_ulid fs).1 ≡ err cursor_race_retry_exhausted)
            × (content_of ((advance_cursor others new_ulid fs).0)
                ≡ left_by race_retry_limit others (content_of fs)))
unfolding advance_cursor
advance_cursor_lem others new_ulid fs g = advance_lem race_retry_limit others new_ulid fs g

advance-IsGiven :
    (attempts : ℕ) (others : List (List Str)) (new_ulid : Str) (fs : CursorFs)
    → IsGiven fs
    → IsGiven ((advance attempts others new_ulid fs).0)
advance-IsGiven zero others new_ulid fs g = rw (advance-zero others new_ulid fs) g
advance-IsGiven (suc attempts) others new_ulid fs g =
    let l = locked (written_at others) fs g in
    elim (Bool-cases (is_empty (written_at others))) [
      | inl calm ↦ rw (advance-eq attempts others new_ulid fs l, calm) (omega arith)
      | inr met ↦
          rw (advance-eq attempts others new_ulid fs l, met)
            (advance-IsGiven attempts (written_later others) new_ulid (at l.ino l.text l.n) l.given)
    ]

-- Whatever an advance comes to, it leaves an inode at the path that was given out.
pub advance_cursor-IsGiven :
    (others : List (List Str)) (new_ulid : Str) (fs : CursorFs)
    → IsGiven fs
    → IsGiven ((advance_cursor others new_ulid fs).0)
unfolding advance_cursor
advance_cursor-IsGiven others new_ulid fs g = advance-IsGiven race_retry_limit others new_ulid fs g

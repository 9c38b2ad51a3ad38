-- ===== src/Hook/Marks.antt =====
-- A cursor as a mark in the list of a room's messages.
use minara_connect.Base.{
  ◌≡◌, refl, ap, subst, inl, inr, arith, true, false, Option, none, some, List, [], ◌∷◌, ◌++◌, All,
  Option-cases, Bool-cases, Str, str_le,
}
use minara_connect.Message.{Message}
use minara_connect.HookFormat.Render.Order.{str_le_total}
use minara_connect.LogIo.{is_after}
use minara_connect.LogIo.Lines.{after_cursor}
use minara_connect.Hook.{last_id}

abbrev pub IsAfter : Str → Message → Type 0
IsAfter id m = is_after (some id) m ≡ true

-- `first.or(second)`
abbrev pub or_else : Option Str → Option Str → Option Str
or_else none second = second
or_else (some id) second = some id

abbrev IsSeen : Str → Message → Type 0
IsSeen id m = is_after (some id) m ≡ false

-- The id of each message is after those of all before it.
abbrev pub IsRising : List Message → Type 0
IsRising [] = Unit
IsRising (m ∷ ms) = All (IsAfter m.id) ms × IsRising ms

self-IsSeen : (m : Message) → IsSeen m.id m
self-IsSeen m = elim (Bool-cases (str_le m.id m.id)) [
  | inl h ↦ rw h refl
  | inr h ↦ ground (arith, str_le_total m.id m.id)
]

earlier-IsSeen : (m : Message) (id : Str) (n : Message) → n.id ≡ id → IsAfter m.id n → IsSeen id m
earlier-IsSeen m id n e h = subst (λ i. IsSeen i m) e (ground (arith, str_le_total n.id m.id))

-- The last of a list is one of its messages.
pub last_id-All :
    (P : Message → Type 0) (ms rest : List Message) (id : Str)
    → All P (ms ++ rest)
    → last_id ms ≡ some id
    → (m : Message) × (m.id ≡ id) × P m
unfolding last_id
last_id-All P [] rest id h e = absurd (ground arith)
last_id-All P (m ∷ []) rest id h e = (m, ground arith, h.0)
last_id-All P (m ∷ n ∷ ms) rest id h e = last_id-All P (n ∷ ms) rest id h.1 e

last_is_greatest :
    (seen new : List Message) (id : Str)
    → IsRising (seen ++ new)
    → last_id seen ≡ some id
    → All (IsSeen id) seen × All (IsAfter id) new
unfolding last_id
last_is_greatest [] new id r e = absurd (ground arith)
last_is_greatest (m ∷ []) new id r e =
    let same : m.id ≡ id = ground arith in
    ((subst (λ i. IsSeen i m) same (self-IsSeen m), tt), subst (λ i. All (IsAfter i) new) same r.0)
last_is_greatest (m ∷ n ∷ ms) new id r e =
    let (seen, after) = last_is_greatest (n ∷ ms) new id r.1 e in
    let (last, i, h) = last_id-All (IsAfter m.id) (n ∷ ms) new id r.0 e in
    ((earlier-IsSeen m id last i h, seen), after)

after_none : (ms : List Message) → after_cursor none ms ≡ ms
unfolding after_cursor
after_none [] = refl
after_none (m ∷ ms) = ap (◌∷◌ m) (after_none ms)

after_later : (id : Str) (ms : List Message) → All (IsAfter id) ms → after_cursor (some id) ms ≡ ms
unfolding after_cursor
after_later id [] h = refl
after_later id (m ∷ ms) h = rw h.0 (ap (◌∷◌ m) (after_later id ms h.1))

after_seen :
    (id : Str) (seen new : List Message)
    → All (IsSeen id) seen
    → All (IsAfter id) new
    → after_cursor (some id) (seen ++ new) ≡ new
unfolding after_cursor
after_seen id [] new s h = after_later id new h
after_seen id (m ∷ seen) new s h = rw s.0 (after_seen id seen new s.1 h)

last_id_nil : (ms : List Message) → last_id ms ≡ none → ms ≡ []
unfolding last_id
last_id_nil [] h = refl
last_id_nil (m ∷ []) h = absurd (ground arith)
last_id_nil (m ∷ n ∷ ms) h = absurd (let e = last_id_nil (n ∷ ms) h in ground arith)

-- With the cursor at the last of the messages seen, the others are what is behind it.
pub after_cursor-mark :
    (seen new : List Message)
    → IsRising (seen ++ new)
    → after_cursor (last_id seen) (seen ++ new) ≡ new
after_cursor-mark seen new r = elim (Option-cases (last_id seen)) [
  | inl e ↦ rw (e, last_id_nil seen e) (after_none new)
  | inr (id, e) ↦ rw e (let (s, h) = last_is_greatest seen new id r e in after_seen id seen new s h)
]

-- The last of two lists is that of the second, unless that is empty.
pub last_id-append :
    (seen new : List Message) → last_id (seen ++ new) ≡ or_else (last_id new) (last_id seen)
unfolding last_id
last_id-append [] new = elim (Option-cases (last_id new)) [
  | inl e ↦ rw e refl
  | inr (id, e) ↦ rw e refl
]
last_id-append (m ∷ []) [] = refl
last_id-append (m ∷ []) (n ∷ new) = elim (Option-cases (last_id (n ∷ new))) [
  | inl e ↦ absurd (let h = last_id_nil (n ∷ new) e in ground arith)
  | inr (id, e) ↦ rw e refl
]
last_id-append (m ∷ n ∷ seen) new = last_id-append (n ∷ seen) new

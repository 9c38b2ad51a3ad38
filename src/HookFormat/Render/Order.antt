-- ===== src/HookFormat/Render/Order.antt =====
-- The lines stand in the order of the message ids, and every message of every room is among them.
use mathlib.Core.List.{Perm}
use mathlib.Core.List.Perm
use minara_connect.Base.{
  suc, ◌≡◌, refl, inl, inr, true, false, List, [], ◌∷◌, arith, length, Str, str_le, str_cmp, All,
  Bool-cases,
}
use minara_connect.HookFormat.Render.{
  HookInput, insert_by, sort_by, flatten_rooms, entry_id, entries,
}

-- The order of texts is total.
pub str_le_total : (a b : Str) → str_le a b ≡ false → str_le b a ≡ true
unfolding str_cmp
str_le_total [] b h = absurd (ground arith)
str_le_total (x ∷ a) [] h = refl
str_le_total (x ∷ a) (y ∷ b) h = ground (arith, str_le_total a b)

-- Each key is at most the next.
abbrev pub IsAscending {ℓ} : {A : Type ℓ} → (A → Str) → List A → Type 0
IsAscending key [] = Unit
IsAscending key (x ∷ []) = Unit
IsAscending key (x ∷ y ∷ xs) = (str_le (key x) (key y) ≡ true) × IsAscending key (y ∷ xs)

module _ {ℓ} {A : Type ℓ} (key : A → Str) where
  insert_by-IsAscending :
      (x : A) (xs : List A) → IsAscending key xs → IsAscending key (insert_by key x xs)
  unfolding insert_by
  insert_by-IsAscending x [] h = tt
  insert_by-IsAscending x (y ∷ []) h = elim (Bool-cases (str_le (key x) (key y))) [
    | inl le ↦ rw le (le, tt)
    | inr gt ↦ rw gt (str_le_total (key x) (key y) gt, tt)
  ]
  insert_by-IsAscending x (y ∷ z ∷ xs) h = elim (Bool-cases (str_le (key x) (key y))) [
    | inl le ↦ rw le (le, h)
    | inr gt ↦
        let rest = insert_by-IsAscending x (z ∷ xs) h.1 in
        elim (Bool-cases (str_le (key x) (key z))) [
          | inl le ↦ rw (gt, le) (str_le_total (key x) (key y) gt, (le, h.1))
          | inr gt' ↦ rw (gt, gt') (h.0, rw gt' at rest)
        ]
  ]

  insert_by-perm : (x : A) (xs : List A) → Perm (insert_by key x xs) (x ∷ xs)
  unfolding insert_by
  insert_by-perm x [] = Perm.refl (x ∷ [])
  insert_by-perm x (y ∷ ys) = elim (Bool-cases (str_le (key x) (key y))) [
    | inl le ↦ rw le (Perm.refl (x ∷ y ∷ ys))
    | inr gt ↦ rw gt (Perm.trans (Perm.cons y (insert_by-perm x ys)) (Perm.swap x y ys))
  ]

  pub sort_by-IsAscending : (xs : List A) → IsAscending key (sort_by key xs)
  unfolding sort_by
  sort_by-IsAscending [] = tt
  sort_by-IsAscending (x ∷ xs) = insert_by-IsAscending x (sort_by key xs) (sort_by-IsAscending xs)

  pub sort_by-perm : (xs : List A) → Perm (sort_by key xs) xs
  unfolding sort_by
  sort_by-perm [] = Perm.refl []
  sort_by-perm (x ∷ xs) =
      Perm.trans (insert_by-perm x (sort_by key xs)) (Perm.cons x (sort_by-perm xs))

  length-insert_by : (x : A) (xs : List A) → length (insert_by key x xs) ≡ suc (length xs)
  unfolding insert_by
  length-insert_by x [] = refl
  length-insert_by x (y ∷ ys) = ground (arith, length-insert_by x ys)

  pub length-sort_by : (xs : List A) → length (sort_by key xs) ≡ length xs
  unfolding sort_by
  length-sort_by [] = refl
  length-sort_by (x ∷ xs) = omega (arith, length-insert_by x (sort_by key xs), length-sort_by xs)

module _ {ℓ κ} {A : Type ℓ} (key : A → Str) (P : A → Type κ) where
  All-insert_by : (x : A) (xs : List A) → P x → All P xs → All P (insert_by key x xs)
  unfolding insert_by
  All-insert_by x [] p h = (p, tt)
  All-insert_by x (y ∷ ys) p h = elim (Bool-cases (str_le (key x) (key y))) [
    | inl le ↦ rw le (p, h)
    | inr gt ↦ rw gt (h.0, All-insert_by x ys p h.1)
  ]

  pub All-sort_by : (xs : List A) → All P xs → All P (sort_by key xs)
  unfolding sort_by
  All-sort_by [] h = tt
  All-sort_by (x ∷ xs) h = All-insert_by x (sort_by key xs) h.0 (All-sort_by xs h.1)

-- The entries that are printed are the messages of all rooms, each once, in the order of their ids.
pub entries_are_sorted :
    (input : HookInput)
    → IsAscending entry_id (entries input) × Perm (entries input) (flatten_rooms input.rooms)
unfolding entries
entries_are_sorted input = (
  sort_by-IsAscending entry_id (flatten_rooms input.rooms),
  sort_by-perm entry_id (flatten_rooms input.rooms),
)

-- ===== src/Tabs/Valid.antt =====
-- crates/cc-connect-tui/src/tabs.rs, TabSet: what every operation keeps.
use native.Mathlib.Nat.{mod-lt}
use minara_connect.Base.{
  ℕ, zero, suc, ◌<◌, ◌≡◌, refl, ◌∙◌, inl, inr, Bool, true, false, not, ◌||◌, ◌&&◌, Option, none,
  some, List, [], ◌∷◌, ◌++◌, any, get_elem?, length, arith, ◌==◌, if◌then◌else◌, ℤ, pos, negsuc,
  is_empty, Bool-cases, Option-cases,
}
use minara_connect.Tabs.{
  TabSet, insert_tab, retain_id, last_of, is_active, rem_euclid, alloc_id, add, remove,
  switch_to_index, new_index, cycle,
}

abbrev pub has_id : List ℕ → ℕ → Bool
has_id order id = any (λ i. i == id) order

abbrev pub is_some : {A : Type 0} → Option A → Bool
is_some none = false
is_some (some a) = true

abbrev pub IsDistinct : List ℕ → Type 0
IsDistinct [] = Unit
IsDistinct (i ∷ order) = (has_id order i ≡ false) × IsDistinct order

-- The active tab is one of the open ones, and there is one unless none is open.
abbrev pub IsActive : List ℕ → Option ℕ → Type 0
IsActive order none = order ≡ []
IsActive order (some id) = has_id order id ≡ true

module _ {Tab : Type 0} where
  pub record IsValid (set : TabSet Tab) : Type 0 where
    pub distinct : IsDistinct set.order
    pub below : (id : ℕ) → has_id set.order id ≡ true → id < set.next_id
    pub mapped : (id : ℕ) → is_some (set.tabs id) ≡ has_id set.order id
    pub active_open : IsActive set.order set.active

  -- What the terminal does to the set, with the id that it gives to a new room, if there is one.
  pub data Step : TabSet Tab → List ℕ → TabSet Tab → Type 0 where
    opened :
        {set : TabSet Tab} (tab : Tab)
        → Step set ((alloc_id set).0 ∷ []) (let (id, set') = alloc_id set in add id tab set')
    closed : {set : TabSet Tab} (id : ℕ) → Step set [] ((remove id set).1)
    switched : {set : TabSet Tab} (idx : ℕ) → Step set [] (switch_to_index idx set)
    cycled : {set : TabSet Tab} (delta : ℤ) → Step set [] (cycle delta set)

pub has_id-append :
    (order : List ℕ) (id i : ℕ) → has_id (order ++ id ∷ []) i ≡ (has_id order i || (id == i))
has_id-append [] id i = ground arith
has_id-append (j ∷ order) id i = ground (arith, has_id-append order id i)

pub has_id-retain_id :
    (id : ℕ) (order : List ℕ) (i : ℕ)
    → has_id (retain_id id order) i ≡ (not (i == id) && has_id order i)
unfolding retain_id
has_id-retain_id id [] i = ground arith
has_id-retain_id id (j ∷ order) i = ground (arith, has_id-retain_id id order i)

IsDistinct-append :
    (order : List ℕ) (id : ℕ)
    → has_id order id ≡ false
    → IsDistinct order
    → IsDistinct (order ++ id ∷ [])
IsDistinct-append [] id h k = (refl, tt)
IsDistinct-append (i ∷ order) id h k =
    (ground (arith, has_id-append order id i), IsDistinct-append order id (ground arith) k.1)

IsDistinct-retain_id :
    (id : ℕ) (order : List ℕ) → IsDistinct order → IsDistinct (retain_id id order)
unfolding retain_id
IsDistinct-retain_id id [] k = tt
IsDistinct-retain_id id (i ∷ order) k = elim (Bool-cases (i == id)) [
  | inl e ↦ rw e (IsDistinct-retain_id id order k.1)
  | inr e ↦ rw e (ground (arith, has_id-retain_id id order i), IsDistinct-retain_id id order k.1)
]

IsActive-cons :
    (i : ℕ) (order : List ℕ) (a : Option ℕ)
    → is_empty order ≡ false
    → IsActive order a
    → IsActive (i ∷ order) a
IsActive-cons i [] a h k = absurd (ground arith)
IsActive-cons i (j ∷ order) none h k = absurd (ground arith)
IsActive-cons i (j ∷ order) (some id) h k = ground arith

last_of-IsActive : (order : List ℕ) → IsActive order (last_of order)
last_of-IsActive [] = refl
last_of-IsActive (i ∷ []) = ground arith
last_of-IsActive (i ∷ j ∷ order) =
    IsActive-cons i (j ∷ order) (last_of (j ∷ order)) refl (last_of-IsActive (j ∷ order))

has_id-get_elem? :
    (order : List ℕ) (n id : ℕ) → get_elem? order n ≡ some id → has_id order id ≡ true
has_id-get_elem? [] n id h = cc
has_id-get_elem? (i ∷ order) zero id h = ground arith
has_id-get_elem? (i ∷ order) (suc n) id h = ground (arith, has_id-get_elem? order n id)

get_elem?-some :
    (order : List ℕ) (n : ℕ) → n < length order → (id : ℕ) × (get_elem? order n ≡ some id)
get_elem?-some [] n h = absurd (omega arith)
get_elem?-some (i ∷ order) zero h = (i, refl)
get_elem?-some (i ∷ order) (suc n) h = get_elem?-some order n (omega arith)

is_empty-length : (order : List ℕ) → is_empty order ≡ false → 0 < length order
is_empty-length [] h = absurd (ground arith)
is_empty-length (i ∷ order) h = omega arith

rem_euclid-bound : (z : ℤ) (n : ℕ) → 0 < n → rem_euclid z n < n
rem_euclid-bound (pos a) n h = mod-lt a h
rem_euclid-bound (negsuc a) n h = omega arith

IsActive-retain_id :
    (id : ℕ) (order : List ℕ) (a : Option ℕ)
    → IsActive order a
    → IsActive (retain_id id order) (if is_active a id then last_of (retain_id id order) else a)
unfolding retain_id
IsActive-retain_id id order none h = rw h refl
IsActive-retain_id id order (some i) h = elim (Bool-cases (i == id)) [
  | inl e ↦ rw e (last_of-IsActive (retain_id id order))
  | inr e ↦ rw e (has_id-retain_id id order i ∙ ground arith)
]

module _ {Tab : Type 0} where
  insert_tab-is_some :
      (id : ℕ) (tab : Option Tab) (tabs : ℕ → Option Tab) (i : ℕ)
      → is_some (insert_tab id tab tabs i) ≡ (if i == id then is_some tab else is_some (tabs i))
  insert_tab-is_some id tab tabs i = elim (Bool-cases (i == id)) [
    | inl e ↦ rw e refl
    | inr e ↦ rw e refl
  ]

  opened-IsValid :
      (set : TabSet Tab) (tab : Tab)
      → IsValid set
      → IsValid (let (id, set') = alloc_id set in add id tab set')
  unfolding alloc_id add
  opened-IsValid set tab v =
      let fresh : has_id set.order set.next_id ≡ false =
        let b = v.below set.next_id in ground arith in
      record {
        distinct = IsDistinct-append set.order set.next_id fresh v.distinct;
        below = λ i h. let b = v.below i in ground (arith, has_id-append set.order set.next_id i);
        mapped = λ i.
            insert_tab-is_some set.next_id (some tab) set.tabs i
            ∙ (let m = v.mapped i in ground (arith, has_id-append set.order set.next_id i));
        active_open = has_id-append set.order set.next_id set.next_id ∙ ground arith;
      }

  closed-IsValid : (set : TabSet Tab) (id : ℕ) → IsValid set → IsValid ((remove id set).1)
  unfolding remove
  closed-IsValid set id v = record {
    distinct = IsDistinct-retain_id id set.order v.distinct;
    below = λ i h. let b = v.below i in ground (arith, has_id-retain_id id set.order i);
    mapped = λ i.
        insert_tab-is_some id none set.tabs i
        ∙ (let m = v.mapped i in ground (arith, has_id-retain_id id set.order i));
    active_open = IsActive-retain_id id set.order set.active v.active_open;
  }

  switched-IsValid : (set : TabSet Tab) (idx : ℕ) → IsValid set → IsValid (switch_to_index idx set)
  unfolding switch_to_index
  switched-IsValid set idx v = elim (Option-cases (get_elem? set.order idx)) [
    | inl e ↦ rw (e, switch_to_index) v
    | inr (id, e) ↦
        rw (e, switch_to_index)
          (record {
            distinct = v.distinct;
            below = v.below;
            mapped = v.mapped;
            active_open = has_id-get_elem? set.order idx id e;
          })
  ]

  cycled-IsValid : (set : TabSet Tab) (delta : ℤ) → IsValid set → IsValid (cycle delta set)
  unfolding cycle
  cycled-IsValid set delta v = elim (Bool-cases (is_empty set.order)) [
    | inl e ↦ rw e v
    | inr e ↦
        let positive : 0 < length set.order = is_empty-length set.order e in
        let (id, g) =
          get_elem?-some set.order (new_index delta set)
            (rem_euclid-bound _ (length set.order) positive) in
        rw (e, g)
          (record {
            distinct = v.distinct;
            below = v.below;
            mapped = v.mapped;
            active_open = has_id-get_elem? set.order (new_index delta set) id g;
          })
  ]

  pub Step-IsValid :
      {set : TabSet Tab} {new_ids : List ℕ} {set' : TabSet Tab}
      → Step set new_ids set'
      → IsValid set
      → IsValid set'
  Step-IsValid {set} (opened tab) v = opened-IsValid set tab v
  Step-IsValid {set} (closed id) v = closed-IsValid set id v
  Step-IsValid {set} (switched idx) v = switched-IsValid set idx v
  Step-IsValid {set} (cycled delta) v = cycled-IsValid set delta v

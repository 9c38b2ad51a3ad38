-- ===== src/Tabs.antt =====
-- crates/cc-connect-tui/src/tabs.rs: the set of open rooms in the terminal, its order and the one
-- that is active, and the nicks lately seen in a room. The content of a tab is a parameter.
pub mod Tests
pub mod Valid
pub mod Given
pub mod Recent
use minara_connect.Base.{
  ℕ, zero, suc, ◌+◌, ◌-◌, ◌%◌, Bool, true, false, not, Option, none, some, List, [], ◌∷◌, ◌++◌, any,
  take, get_elem?, ◌==◌, if◌then◌else◌, length, ℤ, pos, negsuc, pos_part, neg_part, sub_ℕ, Str,
  str_eq, is_empty, trim,
}

abbrev pub recent_nicks_cap : ℕ
recent_nicks_cap = 32

-- `TabSet`; `tabs` is the map, and its tabs are of type `Tab`.
pub record TabSet (Tab : Type 0) : Type 0 where
  pub tabs : ℕ → Option Tab
  pub order : List ℕ
  pub active : Option ℕ
  pub next_id : ℕ

abbrev insert_tab : {Tab : Type 0} → ℕ → Option Tab → (ℕ → Option Tab) → ℕ → Option Tab
insert_tab id tab tabs i = if i == id then tab else tabs i

-- `order.retain(|i| *i != id)`
pub retain_id : ℕ → List ℕ → List ℕ
retain_id id [] = []
retain_id id (i ∷ order) = let rest = retain_id id order in if i == id then rest else i ∷ rest

abbrev last_of : List ℕ → Option ℕ
last_of [] = none
last_of (i ∷ []) = some i
last_of (i ∷ j ∷ order) = last_of (j ∷ order)

abbrev is_active : Option ℕ → ℕ → Bool
is_active none id = false
is_active (some i) id = i == id

-- `order.iter().position(|i| *i == id)`, or 0
pub position_or_zero : List ℕ → ℕ → ℕ
position_or_zero order id = go order 0
  where
    go : List ℕ → ℕ → ℕ
    go [] n = 0
    go (i ∷ order) n = let rest = go order (suc n) in if i == id then n else rest

-- `rem_euclid` for a positive divisor
abbrev pub rem_euclid : ℤ → ℕ → ℕ
rem_euclid (pos a) n = a % n
rem_euclid (negsuc a) n = n - 1 - a % n

module _ {Tab : Type 0} where
  pub new_tab_set : TabSet Tab
  new_tab_set = record { tabs = λ i. none; order = []; active = none; next_id = 0 }

  pub alloc_id : TabSet Tab → ℕ × TabSet Tab
  alloc_id set = (set.next_id, record set { next_id = suc set.next_id })

  -- `add`, for a tab with this id
  pub add : ℕ → Tab → TabSet Tab → TabSet Tab
  add id tab set = record set {
    tabs = insert_tab id (some tab) set.tabs;
    order = set.order ++ id ∷ [];
    active = some id;
  }

  pub remove : ℕ → TabSet Tab → Option Tab × TabSet Tab
  unfolding retain_id
  remove id set =
      let order = retain_id id set.order in
      (
        set.tabs id,
        record set {
          tabs = insert_tab id none set.tabs;
          order = order;
          active = (if is_active set.active id then last_of order else set.active);
        },
      )

  pub active_tab : TabSet Tab → Option Tab
  active_tab set = elim set.active [ none ↦ none | some id ↦ set.tabs id ]

  pub switch_to_index : ℕ → TabSet Tab → TabSet Tab
  switch_to_index idx set = elim (get_elem? set.order idx) [
    | none ↦ set
    | some id ↦ record set { active = some id }
  ]

  -- `cur_idx`, or 0 if no tab is active
  abbrev cur_idx : TabSet Tab → ℕ
  unfolding position_or_zero
  cur_idx set = elim set.active [ none ↦ 0 | some id ↦ position_or_zero set.order id ]

  -- the index `new`. The indices fit in an `i32`, and so does the sum for the steps of one that are
  -- used.
  abbrev new_index : ℤ → TabSet Tab → ℕ
  new_index delta set =
      rem_euclid (sub_ℕ (cur_idx set + pos_part delta) (neg_part delta)) (length set.order)

  pub cycle : ℤ → TabSet Tab → TabSet Tab
  cycle delta set =
      if is_empty set.order
      then set
      else record set { active = get_elem? set.order (new_index delta set) }

-- `position` and `remove`: the list without the first of these
pub remove_nick : Str → List Str → List Str
remove_nick nick [] = []
remove_nick nick (n ∷ nicks) =
    let rest = remove_nick nick nicks in if str_eq n nick then nicks else n ∷ rest

-- `record_nick`, on the nicks lately seen
pub record_nick : Str → List Str → List Str
unfolding remove_nick
record_nick nick recent_nicks =
    let trimmed = trim nick in
    if is_empty trimmed
    then recent_nicks
    else take recent_nicks_cap (trimmed ∷ remove_nick trimmed recent_nicks)

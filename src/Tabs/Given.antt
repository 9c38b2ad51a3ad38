-- ===== src/Tabs/Given.antt =====
-- crates/cc-connect-tui/src/tabs.rs, TabSet: the ids that are given to the rooms of a whole session.
use minara_connect.Base.{
  ℕ, ◌<◌, ◌≡◌, refl, ◌∙◌, inl, inr, true, not, Option, none, some, List, [], ◌∷◌, ◌++◌, get_elem?,
  arith, ℤ, is_empty, Bool-cases, Option-cases,
}
use minara_connect.Tabs.{
  TabSet, new_tab_set, alloc_id, add, remove, active_tab, switch_to_index, cycle,
}
use minara_connect.Tabs.Valid.{
  IsValid, Step, opened, closed, switched, cycled, has_id, is_some, IsDistinct, IsActive,
  has_id-append, has_id-retain_id, Step-IsValid,
}

module _ {Tab : Type 0} where
  -- The sets that come of the empty one, with all ids given on the way, those of closed rooms too.
  pub data Reachable : List ℕ → TabSet Tab → Type 0 where
    start : Reachable [] new_tab_set
    step :
        {given new_ids : List ℕ} {set set' : TabSet Tab}
        → Reachable given set
        → Step set new_ids set'
        → Reachable (new_ids ++ given) set'

  -- No id was given twice, the next one was not given before, and each room has an id given.
  pub record IsGiven (given : List ℕ) (set : TabSet Tab) : Type 0 where
    pub once : IsDistinct given
    pub below_next : (id : ℕ) → has_id given id ≡ true → id < set.next_id
    pub listed : (id : ℕ) → has_id set.order id ≡ true → has_id given id ≡ true

  opened-IsGiven :
      (given : List ℕ) (set : TabSet Tab) (tab : Tab)
      → IsGiven given set
      → IsGiven ((alloc_id set).0 ∷ given) (let (id, set') = alloc_id set in add id tab set')
  unfolding alloc_id add
  opened-IsGiven given set tab g = record {
    once = (let b = g.below_next set.next_id in ground arith, g.once);
    below_next = λ id h. let b = g.below_next id in ground arith;
    listed = λ id h. let l = g.listed id in ground (arith, has_id-append set.order set.next_id id);
  }

  closed-IsGiven :
      (given : List ℕ) (set : TabSet Tab) (id : ℕ)
      → IsGiven given set
      → IsGiven given ((remove id set).1)
  unfolding remove
  closed-IsGiven given set id g = record {
    once = g.once;
    below_next = g.below_next;
    listed = λ i h. let l = g.listed i in ground (arith, has_id-retain_id id set.order i);
  }

  switched-IsGiven :
      (given : List ℕ) (set : TabSet Tab) (idx : ℕ)
      → IsGiven given set
      → IsGiven given (switch_to_index idx set)
  unfolding switch_to_index
  switched-IsGiven given set idx g = elim (Option-cases (get_elem? set.order idx)) [
    | inl e ↦ rw (e, switch_to_index) g
    | inr (id, e) ↦
        rw (e, switch_to_index)
          (record { once = g.once; below_next = g.below_next; listed = g.listed })
  ]

  cycled-IsGiven :
      (given : List ℕ) (set : TabSet Tab) (delta : ℤ)
      → IsGiven given set
      → IsGiven given (cycle delta set)
  unfolding cycle
  cycled-IsGiven given set delta g = elim (Bool-cases (is_empty set.order)) [
    | inl e ↦ rw e g
    | inr e ↦ rw e (record { once = g.once; below_next = g.below_next; listed = g.listed })
  ]

  Step-IsGiven :
      {given : List ℕ} {set : TabSet Tab} {new_ids : List ℕ} {set' : TabSet Tab}
      → Step set new_ids set'
      → IsGiven given set
      → IsGiven (new_ids ++ given) set'
  Step-IsGiven {given} {set} (opened tab) g = opened-IsGiven given set tab g
  Step-IsGiven {given} {set} (closed id) g = closed-IsGiven given set id g
  Step-IsGiven {given} {set} (switched idx) g = switched-IsGiven given set idx g
  Step-IsGiven {given} {set} (cycled delta) g = cycled-IsGiven given set delta g

  -- Whatever rooms are opened, closed and looked at, in any order: of all ids that were given to
  -- rooms, those of closed rooms included, no two are the same, each is below the next one to be
  -- given, and each listed room has one of them; no room is listed twice, the map has exactly the
  -- rooms that are listed, and one of them is active as long as there is one.
  pub Reachable-IsValid :
      {given : List ℕ} {set : TabSet Tab} → Reachable given set → IsValid set × IsGiven given set
  unfolding new_tab_set
  Reachable-IsValid start = (
    record {
      distinct = tt;
      below = λ id h. absurd (ground arith);
      mapped = λ id. refl;
      active_open = refl;
    },
    record {
      once = tt;
      below_next = λ id h. absurd (ground arith);
      listed = λ id h. absurd (ground arith);
    },
  )
  Reachable-IsValid (step r s) =
      let (v, g) = Reachable-IsValid r in (Step-IsValid s v, Step-IsGiven s g)

  active_is_some :
      (order : List ℕ) (tabs : ℕ → Option Tab) (a : Option ℕ)
      → IsActive order a
      → ((id : ℕ) → is_some (tabs id) ≡ has_id order id)
      → is_some (elim a as (λ _. Option Tab) [ none ↦ none | some id ↦ tabs id ])
        ≡ not (is_empty order)
  active_is_some order tabs none h m = rw h refl
  active_is_some [] tabs (some id) h m = absurd (ground arith)
  active_is_some (i ∷ order) tabs (some id) h m = m id ∙ h

  -- Whatever rooms have been opened, closed and looked at, the tab that is shown is there unless no
  -- room is open.
  pub active_tab_lem :
      (given : List ℕ) (set : TabSet Tab)
      → Reachable given set
      → is_some (active_tab set) ≡ not (is_empty set.order)
  unfolding active_tab
  active_tab_lem given set r =
      let (v, g) = Reachable-IsValid r in
      active_is_some set.order set.tabs set.active v.active_open v.mapped

-- ===== src/Tabs/Tests.antt =====
-- Two rooms are opened, and the second is closed.
use minara_connect.Base.{
  ◌≤◌, ◌≡◌, refl, not, [], ◌∷◌, length, take, arith, is_empty, if◌then◌else◌, Str, str, str_eq,
  trim,
}
use minara_connect.Tabs.{
  TabSet, new_tab_set, alloc_id, add, remove, active_tab, recent_nicks_cap, record_nick,
  remove_nick,
}
use minara_connect.Tabs.Valid.{opened, closed, IsValid, is_some}
use minara_connect.Tabs.Given.{Reachable, start, step, IsGiven, Reachable-IsValid, active_tab_lem}
use minara_connect.Tabs.Recent.{record_nick_lem}
use minara_connect.Tabs.Recent as Recent

abbrev one_room : TabSet Str
one_room = let (id, set) = alloc_id new_tab_set in add id (str "a") set

abbrev two_rooms : TabSet Str
two_rooms = let (id, set) = alloc_id one_room in add id (str "b") set

abbrev closed_again : TabSet Str
closed_again = (remove 1 two_rooms).1

closed_again-Reachable : Reachable (1 ∷ 0 ∷ []) closed_again
unfolding alloc_id add new_tab_set
closed_again-Reachable = step (step (step start (opened (str "a"))) (opened (str "b"))) (closed 1)

-- All rooms are closed, and a third is opened: it gets a new id.
abbrev reopened : TabSet Str
reopened = let (id, set) = alloc_id (remove 0 closed_again).1 in add id (str "c") set

reopened-Reachable : Reachable (2 ∷ 1 ∷ 0 ∷ []) reopened
unfolding alloc_id add remove new_tab_set
reopened-Reachable = step (step closed_again-Reachable (closed 0)) (opened (str "c"))

Reachable-IsValid_example : IsValid reopened × IsGiven (2 ∷ 1 ∷ 0 ∷ []) reopened
Reachable-IsValid_example = Reachable-IsValid reopened-Reachable

active_tab_lem_test : is_some (active_tab closed_again) ≡ not (is_empty closed_again.order)
active_tab_lem_test = active_tab_lem (1 ∷ 0 ∷ []) closed_again closed_again-Reachable

record_nick_lem_test :
    Recent.IsDistinct (record_nick (str " bob ") (str "al" ∷ str "bob" ∷ []))
    × (length (record_nick (str " bob ") (str "al" ∷ str "bob" ∷ [])) ≤ recent_nicks_cap)
    × (record_nick (str " bob ") (str "al" ∷ str "bob" ∷ []) ≡ (
        if is_empty (trim (str " bob "))
        then str "al" ∷ str "bob" ∷ []
        else trim (str " bob ")
          ∷ take 31 (remove_nick (trim (str " bob ")) (str "al" ∷ str "bob" ∷ []))))
unfolding str_eq
record_nick_lem_test =
    record_nick_lem (str " bob ") (str "al" ∷ str "bob" ∷ []) (refl, (refl, tt)) (omega arith)

-- ===== src/DropSafety/Matches.antt =====
-- crates/cc-connect-core/src/drop_safety.rs: what the tests on texts, components and paths decide.
use mathlib.Core.List.{reverse, reverse-append, reverse-reverse}
use minara_connect.Base.{
  ◌≡◌, ◌↔◌, refl, sym, ap, ◌∙◌, inl, inr, Bool, true, some, List, [], ◌∷◌, ◌++◌, any, arith, AnyOf,
  Str, str_eq_iff, starts_with, ends_with, Bool-cases,
}
use minara_connect.DropSafety.{
  Component, root_dir, parent_dir, normal, component_eq, path_is_within, file_name,
}

pub any_iff :
    {A : Type 0} (p : A → Bool) (P : A → Type 0) (xs : List A)
    → ((x : A) → (p x ≡ true) ↔ P x)
    → (any p xs ≡ true) ↔ AnyOf P xs
any_iff p P [] h = ((λ e. ground arith), λ e. absurd e)
any_iff p P (x ∷ xs) h = elim (Bool-cases (p x)) [
  | inl e ↦ rw e ((λ k. inl ((h x).0 e)), λ k. refl)
  | inr e ↦
      let rest = any_iff p P xs h in
      rw e (
        (λ k. inr (rest.0 k)),
        λ k. elim k [
          | inl here ↦ absurd (let f = (h x).1 here in ground arith)
          | inr later ↦ rest.1 later
        ],
      )
]

starts_with→append : (s p : Str) → starts_with s p ≡ true → (rest : Str) × (s ≡ p ++ rest)
unfolding starts_with
starts_with→append s [] h = (s, refl)
starts_with→append [] (y ∷ p) h = absurd (ground arith)
starts_with→append (x ∷ s) (y ∷ p) h =
    let (rest, e) = starts_with→append s p (ground arith) in
    let same : x ≡ y = ground arith in (rest, ap (λ z. z ∷ s) same ∙ ap (◌∷◌ y) e)

starts_with-append : (p rest : Str) → starts_with (p ++ rest) p ≡ true
unfolding starts_with
starts_with-append [] rest = refl
starts_with-append (x ∷ p) rest = ground (arith, starts_with-append p rest)

pub starts_with_iff : (s p : Str) → (starts_with s p ≡ true) ↔ ((rest : Str) × (s ≡ p ++ rest))
starts_with_iff s p =
    (starts_with→append s p, λ h. ap (λ x. starts_with x p) h.1 ∙ starts_with-append p h.0)

pub ends_with_iff : (s t : Str) → (ends_with s t ≡ true) ↔ ((front : Str) × (s ≡ front ++ t))
ends_with_iff s t =
    let i = starts_with_iff (reverse s) (reverse t) in
    (
      (λ h.
          let (rest, e) = i.0 h in
          (
            reverse rest,
            sym (reverse-reverse s) ∙ ap reverse e ∙ simp (reverse-append, reverse-reverse),
          )),
      λ h. let (front, e) = h in i.1 (reverse front, ap reverse e ∙ simp reverse-append),
    )

text_of : Component → Str
text_of (normal s) = s
text_of _ = []

pub component_eq_iff : (a b : Component) → (component_eq a b ≡ true) ↔ (a ≡ b)
unfolding text_of
component_eq_iff root_dir root_dir = ((λ h. refl), λ h. refl)
component_eq_iff parent_dir parent_dir = ((λ h. refl), λ h. refl)
component_eq_iff (normal a) (normal b) =
    ((λ h. ap normal ((str_eq_iff a b).0 h)), λ h. (str_eq_iff a b).1 (ap text_of h))
component_eq_iff _ _ = ground arith

within→append :
    (path dir : List Component)
    → path_is_within path dir ≡ true
    → (rest : List Component) × (path ≡ dir ++ rest)
unfolding path_is_within
within→append path [] h = (path, refl)
within→append [] (d ∷ dir) h = absurd (ground arith)
within→append (c ∷ path) (d ∷ dir) h =
    let (rest, e) = within→append path dir (ground arith) in
    let same : c ≡ d = (component_eq_iff c d).0 (ground arith) in
    (rest, ap (λ z. z ∷ path) same ∙ ap (◌∷◌ d) e)

within-append : (dir rest : List Component) → path_is_within (dir ++ rest) dir ≡ true
unfolding path_is_within
within-append [] rest = refl
within-append (d ∷ dir) rest = rw ((component_eq_iff d d).1 refl) (within-append dir rest)

pub path_is_within_iff :
    (path dir : List Component)
    → (path_is_within path dir ≡ true) ↔ ((rest : List Component) × (path ≡ dir ++ rest))
path_is_within_iff path dir =
    (within→append path dir, λ h. ap (λ x. path_is_within x dir) h.1 ∙ within-append dir h.0)

-- The path ends in a normal component of this name.
abbrev pub EndsIn : List Component → Str → Type 0
EndsIn path name = (before : List Component) × (path ≡ before ++ normal name ∷ [])

file_name-cons :
    (c d : Component) (path : List Component) → file_name (d ∷ path) ≡ file_name (c ∷ d ∷ path)
unfolding file_name
file_name-cons root_dir d path = refl
file_name-cons parent_dir d path = refl
file_name-cons (normal n) d path = refl

file_name-append :
    (before : List Component) (name : Str) → file_name (before ++ normal name ∷ []) ≡ some name
unfolding file_name
file_name-append [] name = refl
file_name-append (c ∷ []) name = sym (file_name-cons c (normal name) [])
file_name-append (c ∷ d ∷ before) name =
    sym (file_name-cons c d (before ++ normal name ∷ [])) ∙ file_name-append (d ∷ before) name

file_name→EndsIn :
    (path : List Component) (name : Str) → file_name path ≡ some name → EndsIn path name
unfolding file_name
file_name→EndsIn [] name h = absurd (ground arith)
file_name→EndsIn (normal n ∷ []) name h =
    let same : n ≡ name = ground arith in ([], ap (λ x. normal x ∷ []) same)
file_name→EndsIn (root_dir ∷ []) name h = absurd (ground arith)
file_name→EndsIn (parent_dir ∷ []) name h = absurd (ground arith)
file_name→EndsIn (c ∷ d ∷ path) name h =
    let later : file_name (d ∷ path) ≡ some name = file_name-cons c d path ∙ h in
    let (before, e) = file_name→EndsIn (d ∷ path) name later in (c ∷ before, ap (◌∷◌ c) e)

pub file_name_iff :
    (path : List Component) (name : Str) → (file_name path ≡ some name) ↔ EndsIn path name
file_name_iff path name =
    (file_name→EndsIn path name, λ h. ap file_name h.1 ∙ file_name-append h.0 name)

-- ===== src/Tabs/Recent.antt =====
-- crates/cc-connect-tui/src/tabs.rs, record_nick: the list of the nicks lately seen.
use minara_connect.Base.{
  ℕ, zero, suc, ◌≤◌, ◌≡◌, refl, ap, ◌∙◌, inl, inr, Bool, false, not, ◌&&◌, List, [], ◌∷◌, any, take,
  length, length-take, arith, if◌then◌else◌, Str, str_eq, str_eq_iff, str_eq_refl, is_empty, trim,
  Bool-cases,
}
use minara_connect.Tabs.{recent_nicks_cap, remove_nick, record_nick}

abbrev pub has_nick : List Str → Str → Bool
has_nick nicks nick = any (λ n. str_eq n nick) nicks

abbrev pub IsDistinct : List Str → Type 0
IsDistinct [] = Unit
IsDistinct (n ∷ nicks) = (has_nick nicks n ≡ false) × IsDistinct nicks

has_nick-take :
    (k : ℕ) (nicks : List Str) (n : Str)
    → has_nick nicks n ≡ false
    → has_nick (take k nicks) n ≡ false
has_nick-take zero nicks n h = refl
has_nick-take (suc k) [] n h = refl
has_nick-take (suc k) (m ∷ nicks) n h = ground (arith, has_nick-take k nicks n)

IsDistinct-take : (k : ℕ) (nicks : List Str) → IsDistinct nicks → IsDistinct (take k nicks)
IsDistinct-take zero nicks h = tt
IsDistinct-take (suc k) [] h = tt
IsDistinct-take (suc k) (n ∷ nicks) h = (has_nick-take k nicks n h.0, IsDistinct-take k nicks h.1)

has_nick-remove_nick :
    (nick : Str) (nicks : List Str) (n : Str)
    → IsDistinct nicks
    → has_nick (remove_nick nick nicks) n ≡ (not (str_eq nick n) && has_nick nicks n)
unfolding remove_nick
has_nick-remove_nick nick [] n h = ground arith
has_nick-remove_nick nick (m ∷ nicks) n h = elim (Bool-cases (str_eq m nick)) [
  | inl e ↦
      let same : m ≡ nick = (str_eq_iff m nick).0 e in
      rw e (elim (Bool-cases (str_eq nick n)) [
        | inl f ↦ let is_n : m ≡ n = same ∙ (str_eq_iff nick n).0 f in rw f (rw is_n at h.0)
        | inr f ↦ let g : str_eq m n ≡ false = ap (λ x. str_eq x n) same ∙ f in rw (f, g) refl
      ])
  | inr e ↦ rw e (
      ground (
        arith,
        has_nick-remove_nick nick nicks n h.1,
        str_eq_iff m nick,
        str_eq_iff m n,
        str_eq_iff nick n,
      ))
]

IsDistinct-remove_nick :
    (nick : Str) (nicks : List Str) → IsDistinct nicks → IsDistinct (remove_nick nick nicks)
unfolding remove_nick
IsDistinct-remove_nick nick [] h = tt
IsDistinct-remove_nick nick (m ∷ nicks) h = elim (Bool-cases (str_eq m nick)) [
  | inl e ↦ rw e h.1
  | inr e ↦
      rw e (
        has_nick-remove_nick nick nicks m h.1 ∙ ground arith,
        IsDistinct-remove_nick nick nicks h.1,
      )
]

-- Recording keeps a list without repetitions and of at most 32 nicks so; a nick of white space
-- changes nothing, and any other comes first, trimmed, before the others in their order, of which
-- the oldest may be dropped.
pub record_nick_lem :
    (nick : Str) (nicks : List Str)
    → IsDistinct nicks
    → length nicks ≤ recent_nicks_cap
    → IsDistinct (record_nick nick nicks)
      × (length (record_nick nick nicks) ≤ recent_nicks_cap)
      × (record_nick nick nicks ≡ (
          if is_empty (trim nick)
          then nicks
          else trim nick ∷ take 31 (remove_nick (trim nick) nicks)))
unfolding record_nick
record_nick_lem nick nicks h le = elim (Bool-cases (is_empty (trim nick))) [
  | inl e ↦ rw e (h, le, refl)
  | inr e ↦
      let rest = remove_nick (trim nick) nicks in
      rw e (
        IsDistinct-take recent_nicks_cap (trim nick ∷ rest) (
          has_nick-remove_nick (trim nick) nicks (trim nick) h
              ∙ ground (arith, str_eq_refl (trim nick)),
          IsDistinct-remove_nick (trim nick) nicks h,
        ),
        omega (arith, length-take recent_nicks_cap (trim nick ∷ rest)),
        refl,
      )
]

-- ===== src/Mention/Candidates.antt =====
-- crates/cc-connect-tui/src/mention.rs, mention_candidates: which names are offered.
use minara_connect.Base.{
  ◌≡◌, refl, sym, ap, ◌∙◌, inl, inr, Bool, true, false, not, ◌||◌, ◌&&◌, Option, none, some, List,
  [], ◌∷◌, ◌++◌, any, All, All-append, All-mono, arith, Str, str, str_eq, str_eq_iff, str_eq_refl,
  is_empty, starts_with, to_ascii_lowercase, Bool-cases,
}
use minara_connect.Mention.{
  Found, broadcast_tokens, offer, offer_own_ai, is_self, offer_recent, offer_tokens,
  mention_candidates,
}

-- One of the names is this one, but for the case.
abbrev pub offers : List Str → Str → Bool
offers names name = any (λ y. str_eq (to_ascii_lowercase y) (to_ascii_lowercase name)) names

-- no name twice, whatever the case
abbrev pub IsDistinct : List Str → Type 0
IsDistinct [] = Unit
IsDistinct (x ∷ xs) = (offers xs x ≡ false) × IsDistinct xs

offers-append :
    (xs : List Str) (x y : Str)
    → offers (xs ++ x ∷ []) y
      ≡ (offers xs y || str_eq (to_ascii_lowercase x) (to_ascii_lowercase y))
offers-append [] x y = ground arith
offers-append (z ∷ xs) x y = ground (arith, offers-append xs x y)

IsDistinct-append :
    (xs : List Str) (x : Str) → offers xs x ≡ false → IsDistinct xs → IsDistinct (xs ++ x ∷ [])
IsDistinct-append [] x h k = (refl, tt)
IsDistinct-append (z ∷ xs) x h k = (
  ground (
    arith,
    offers-append xs x z,
    str_eq_iff (to_ascii_lowercase x) (to_ascii_lowercase z),
    str_eq_iff (to_ascii_lowercase z) (to_ascii_lowercase x),
  ),
  IsDistinct-append xs x (ground arith) k.1,
)

module _ (lower : Str) where
  abbrev Matches : Str → Type 0
  Matches name = starts_with (to_ascii_lowercase name) lower ≡ true

  -- what holds between the loops
  record IsOffer (st : Found) : Type 0 where
    matches : All Matches st.out
    distinct : IsDistinct st.out
    seen : (name : Str) → any (λ s. str_eq s (to_ascii_lowercase name)) st.seen ≡ offers st.out name

  -- It holds after a step as before it, no name is lost, and `wanted` names are there.
  record IsStep (wanted : Str → Type 0) (st st' : Found) : Type 0 where
    still : IsOffer st'
    keeps : (y : Str) → offers st.out y ≡ true → offers st'.out y ≡ true
    has : (y : Str) → wanted y → offers st'.out y ≡ true

  stay :
      (st : Found)
      → IsOffer st
      → (wanted : Str → Type 0) → ((y : Str) → wanted y → offers st.out y ≡ true)
      → IsStep wanted st st
  stay st h wanted w = record { still = h; keeps = λ y k. k; has = w }

  offer-IsStep :
      (name : Str) (st : Found)
      → Matches name
      → IsOffer st
      → IsStep (λ y. y ≡ name) st (offer name st)
  unfolding offer
  offer-IsStep name st m h =
      let seen_is = h.seen name in
      elim (Bool-cases (offers st.out name)) [
        | inl old ↦ rw (seen_is, old) (stay st h (λ y. y ≡ name) (λ y e. rw e old))
        | inr new ↦
            rw (seen_is, new)
              (record {
                still = record {
                  matches = All-append Matches st.out (name ∷ []) h.matches (m, tt);
                  distinct = IsDistinct-append st.out name new h.distinct;
                  seen = λ y. ground (arith, offers-append st.out name y, h.seen y);
                };
                keeps = λ y k. ground (arith, offers-append st.out name y);
                has = λ y e. rw e (
                    ground (
                      arith,
                      offers-append st.out name name,
                      str_eq_refl (to_ascii_lowercase name),
                    ));
              })
      ]

  offer_own_ai-IsOffer :
      (self_nick : Option Str) (st : Found) → IsOffer st → IsOffer (offer_own_ai lower self_nick st)
  unfolding offer_own_ai
  offer_own_ai-IsOffer none st h = h
  offer_own_ai-IsOffer (some nick) st h =
      elim (Bool-cases
        (not (is_empty nick) && starts_with (to_ascii_lowercase (nick ++ str "-cc")) lower)) [
          | inl e ↦ rw e ((offer-IsStep (nick ++ str "-cc") st (ground arith) h).still)
          | inr e ↦ rw e h
        ]

  record IsLoop (wanted : Str → Type 0) (names : List Str) (st st' : Found) : Type 0 where
    still : IsOffer st'
    keeps : (y : Str) → offers st.out y ≡ true → offers st'.out y ≡ true
    all : All (λ y. wanted y → offers st'.out y ≡ true) names

  IsLoop-cons :
      (wanted : Str → Type 0) (name : Str) (names : List Str) (st st1 st2 : Found)
      → IsStep (λ y. (y ≡ name) × wanted name) st st1
      → IsLoop wanted names st1 st2
      → IsLoop wanted (name ∷ names) st st2
  IsLoop-cons wanted name names st st1 st2 s l = record {
    still = l.still;
    keeps = λ y k. l.keeps y (s.keeps y k);
    all = (λ w. l.keeps name (s.has name (refl, w)), l.all);
  }

  -- An offer, or none if the name is not wanted.
  made :
      (wanted : Str → Type 0) (name : Str) (st : Found)
      → Matches name
      → IsOffer st
      → IsStep (λ y. (y ≡ name) × wanted name) st (offer name st)
  made wanted name st m h =
      let s = offer-IsStep name st m h in
      record { still = s.still; keeps = s.keeps; has = λ y w. s.has y w.0 }

  not_made :
      (wanted : Str → Type 0) (name : Str) (st : Found)
      → ((w : wanted name) → true ≡ false)
      → IsOffer st
      → IsStep (λ y. (y ≡ name) × wanted name) st st
  not_made wanted name st not_wanted h = record {
    still = h;
    keeps = λ y k. k;
    has = λ y w. absurd (let e = not_wanted w.1 in ground arith);
  }

  offer_recent-IsLoop :
      (self_nick : Option Str) (recent : List Str) (st : Found)
      → IsOffer st
      → IsLoop
          (λ y. (is_self self_nick y ≡ false) × Matches y)
          recent
          st
          (offer_recent lower self_nick recent st)
  unfolding offer_recent
  offer_recent-IsLoop self_nick [] st h = record { still = h; keeps = λ y k. k; all = tt }
  offer_recent-IsLoop self_nick (nick ∷ recent) st h =
      let wanted : Str → Type 0 = λ y. (is_self self_nick y ≡ false) × Matches y in
      let step : (st1 : Found)
          → IsStep (λ y. (y ≡ nick) × wanted nick) st st1
          → IsLoop wanted (nick ∷ recent) st (offer_recent lower self_nick recent st1) =
        λ st1 s.
          IsLoop-cons wanted nick recent st st1 _ s
            (offer_recent-IsLoop self_nick recent st1 s.still) in
      elim (Bool-cases (is_self self_nick nick)) [
        | inl self ↦ rw self (step st (not_made wanted nick st (λ w. sym self ∙ w.0) h))
        | inr other ↦ elim (Bool-cases (starts_with (to_ascii_lowercase nick) lower)) [
          | inl m ↦ rw (other, m) (step (offer nick st) (made wanted nick st m h))
          | inr m ↦ rw (other, m) (step st (not_made wanted nick st (λ w. sym w.1 ∙ m) h))
        ]
      ]

  offer_tokens-IsLoop :
      (toks : List Str) (st : Found)
      → All (λ tok. to_ascii_lowercase tok ≡ tok) toks
      → IsOffer st
      → IsLoop (λ y. starts_with y lower ≡ true) toks st (offer_tokens lower toks st)
  unfolding offer_tokens
  offer_tokens-IsLoop [] st low h = record { still = h; keeps = λ y k. k; all = tt }
  offer_tokens-IsLoop (tok ∷ toks) st low h =
      let wanted : Str → Type 0 = λ y. starts_with y lower ≡ true in
      let step : (st1 : Found)
          → IsStep (λ y. (y ≡ tok) × wanted tok) st st1
          → IsLoop wanted (tok ∷ toks) st (offer_tokens lower toks st1) =
        λ st1 s.
          IsLoop-cons wanted tok toks st st1 _ s (offer_tokens-IsLoop toks st1 low.1 s.still) in
      elim (Bool-cases (starts_with tok lower)) [
        | inl m ↦
            rw m
              (step (offer tok st) (made wanted tok st (ap (λ x. starts_with x lower) low.0 ∙ m) h))
        | inr m ↦ rw m (step st (not_made wanted tok st (λ w. sym w ∙ m) h))
      ]

tokens_are_lower : All (λ tok. to_ascii_lowercase tok ≡ tok) broadcast_tokens
unfolding to_ascii_lowercase
tokens_are_lower = (refl, (refl, (refl, (refl, tt))))

-- Every name that is offered begins with what was typed, and none is offered twice, whatever the
-- case. Every recent name that begins so and is not the user's own is offered, and so is every
-- broadcast word that does.
pub mention_candidates_lem :
    (recent : List Str) (prefix : Str) (self_nick : Option Str)
    → let lower = to_ascii_lowercase prefix in
      let names = mention_candidates recent prefix self_nick in
      All (λ name. starts_with (to_ascii_lowercase name) lower ≡ true) names
      × IsDistinct names
      × All
          (λ name.
            (is_self self_nick name ≡ false) × (starts_with (to_ascii_lowercase name) lower ≡ true)
            → offers names name ≡ true)
          recent
      × All (λ tok. starts_with tok lower ≡ true → offers names tok ≡ true) broadcast_tokens
unfolding mention_candidates
mention_candidates_lem recent prefix self_nick =
    let lower = to_ascii_lowercase prefix in
    let own : IsOffer lower (offer_own_ai lower self_nick (record { out = []; seen = [] })) =
      offer_own_ai-IsOffer lower self_nick _
        (record { matches = tt; distinct = tt; seen = λ y. refl }) in
    let r = offer_recent-IsLoop lower self_nick recent _ own in
    let t = offer_tokens-IsLoop lower broadcast_tokens _ tokens_are_lower r.still in
    (
      t.still.matches,
      t.still.distinct,
      All-mono _ _ recent (λ name f w. t.keeps name (f w)) r.all,
      t.all,
    )

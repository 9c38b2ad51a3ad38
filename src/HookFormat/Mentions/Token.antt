-- ===== src/HookFormat/Mentions/Token.antt =====
-- `match_at_token` finds exactly the tokens that end at a word boundary.
use minara_connect.Base.{
  ℕ, zero, suc, ◌+◌, ◌-◌, ◌≤◌, ◌<◌, ◌≡◌, ◌≢◌, ◌↔◌, inl, inr, refl, sym, ap, ◌∙◌, Bool, true, false,
  not, none, some, [], ◌∷◌, ◌++◌, arith, Str, starts_with, length, length-append, take,
  take-append-drop, drop, get_elem?, Bool-cases, Option-cases,
}
use minara_connect.HookFormat.Mentions.{
  is_nick_cont_byte, find, match_at_token_from, match_at_token,
}

-- The text ends here, or goes on with a byte that no nickname has.
abbrev pub IsBoundary : Str → Type 0
IsBoundary [] = Unit
IsBoundary (b ∷ rest) = is_nick_cont_byte b ≡ false

-- Somewhere in `s` stands `@target`, and a boundary behind it.
pub record HasToken (s target : Str) : Type 0 where
  pub before : Str
  pub behind : Str
  pub splits : s ≡ before ++ (b'@' ∷ (target ++ behind))
  pub ends : IsBoundary behind

-- the token at the very start of `s`
abbrev AtStart : Str → Str → Type 0
AtStart s target = (behind : Str) × (s ≡ b'@' ∷ (target ++ behind)) × IsBoundary behind

starts_with-append : (p rest : Str) → starts_with (p ++ rest) p ≡ true
unfolding starts_with
starts_with-append [] rest = refl
starts_with-append (x ∷ p) rest = ground (arith, starts_with-append p rest)

starts_with→append : (s p : Str) → starts_with s p ≡ true → s ≡ p ++ drop (length p) s
unfolding starts_with
starts_with→append s [] h = refl
starts_with→append [] (y ∷ p) h = absurd (ground arith)
starts_with→append (x ∷ s) (y ∷ p) h = ground (arith, starts_with→append s p)

drop-nil : (n : ℕ) → drop {A = ℕ} n [] ≡ []
drop-nil zero = refl
drop-nil (suc n) = refl

get_elem?-drop : (n k : ℕ) (s : Str) → get_elem? s (n + k) ≡ get_elem? (drop n s) k
get_elem?-drop zero k s = let e : 0 + k ≡ k = omega arith in rw e
get_elem?-drop (suc n) k [] = refl
get_elem?-drop (suc n) k (x ∷ s) =
    let e : suc n + k ≡ suc (n + k) = omega arith in rw e (get_elem?-drop n k s)

drop-drop : (n k : ℕ) (s : Str) → drop k (drop n s) ≡ drop (n + k) s
drop-drop zero k s = let e : 0 + k ≡ k = omega arith in rw e
drop-drop (suc n) k [] = drop-nil k ∙ sym (drop-nil (suc n + k))
drop-drop (suc n) k (x ∷ s) =
    let e : suc n + k ≡ suc (n + k) = omega arith in rw e (drop-drop n k s)

-- `find` gives a position at which the needle stands
find→starts_with :
    (s t : Str) (rel : ℕ)
    → find s (b'@' ∷ t) ≡ some rel
    → starts_with (drop rel s) (b'@' ∷ t) ≡ true
unfolding find
find→starts_with [] t rel h = absurd (unfold starts_with in ground arith)
find→starts_with (x ∷ s) t rel h = elim (Bool-cases (starts_with (x ∷ s) (b'@' ∷ t))) [
  | inl here ↦ let e : 0 ≡ rel = ground arith in rw (← e) here
  | inr not_here ↦ elim (Option-cases (find s (b'@' ∷ t))) [
    | inl e ↦ absurd (ground arith)
    | inr (r, e) ↦ let same : suc r ≡ rel = ground arith in rw (← same) (find→starts_with s t r e)
  ]
]

-- and it is not behind any position at which it stands.
find-le :
    (s t : Str) (p : ℕ)
    → starts_with (drop p s) (b'@' ∷ t) ≡ true
    → (rel : ℕ) × (find s (b'@' ∷ t) ≡ some rel) × (rel ≤ p)
unfolding find
find-le [] t p h = absurd (unfold starts_with in ground (arith, drop-nil p))
find-le (x ∷ s) t zero h = (0, rw h, omega arith)
find-le (x ∷ s) t (suc p) h = elim (Bool-cases (starts_with (x ∷ s) (b'@' ∷ t))) [
  | inl here ↦ (0, rw here, omega arith)
  | inr not_here ↦ let (r, e, le) = find-le s t p h in (suc r, rw (not_here, e), omega arith)
]

-- the test behind a match, at the position behind the token
abbrev ends_at : Str → ℕ → Bool
ends_at lower q = elim (get_elem? lower q) [ none ↦ true | some b ↦ not (is_nick_cont_byte b) ]

record TokenAt (lower target : Str) (p : ℕ) : Type 0 where
  stands : starts_with (drop p lower) (b'@' ∷ target) ≡ true
  ends : ends_at lower (p + (1 + length target)) ≡ true

module _ (fuel : ℕ) (lower target : Str) (from rel : ℕ)
    (found : find (drop from lower) (b'@' ∷ target) ≡ some rel) where
  match-true :
      ends_at lower (from + rel + (1 + length target)) ≡ true
      → match_at_token_from (suc fuel) lower target from ≡ true
  unfolding match_at_token_from
  match-true h =
      rw (found, match_at_token_from)
        (elim (Option-cases (get_elem? lower (from + rel + (1 + length target)))) [
          | inl e ↦ rw e
          | inr (b, e) ↦ rw e (rw (rw (e, ends_at) at h))
        ])

  match_next :
      ends_at lower (from + rel + (1 + length target)) ≡ false
      → match_at_token_from (suc fuel) lower target from
        ≡ match_at_token_from fuel lower target (from + rel + 1)
  unfolding match_at_token_from
  match_next h =
      rw (found, match_at_token_from)
        (elim (Option-cases (get_elem? lower (from + rel + (1 + length target)))) [
          | inl e ↦ absurd (ground arith)
          | inr (b, e) ↦ rw e (rw (rw (e, ends_at) at h))
        ])

match_none :
    (fuel : ℕ) (lower target : Str) (from : ℕ)
    → find (drop from lower) (b'@' ∷ target) ≡ none
    → match_at_token_from (suc fuel) lower target from ≡ false
unfolding match_at_token_from
match_none fuel lower target from e = rw (e, match_at_token_from)

match_sound :
    (fuel : ℕ) (lower target : Str) (from : ℕ)
    → match_at_token_from fuel lower target from ≡ true
    → (p : ℕ) × TokenAt lower target p
match_sound zero lower target from h = absurd (unfold match_at_token_from in ground arith)
match_sound (suc fuel) lower target from h =
    elim (Option-cases (find (drop from lower) (b'@' ∷ target))) [
      | inl e ↦ absurd (ground (arith, match_none fuel lower target from e))
      | inr (rel, e) ↦ elim (Bool-cases (ends_at lower (from + rel + (1 + length target)))) [
        | inl done ↦ (
          from + rel,
          record {
            stands = rw (← drop-drop from rel lower) (find→starts_with _ target rel e);
            ends = done;
          },
        )
        | inr more ↦
            match_sound fuel lower target (from + rel + 1)
              (sym (match_next fuel lower target from rel e more) ∙ h)
      ]
    ]

match_complete :
    (fuel : ℕ) (lower target : Str) (from p : ℕ)
    → from ≤ p
    → p < from + fuel
    → TokenAt lower target p
    → match_at_token_from fuel lower target from ≡ true
match_complete zero lower target from p a b tok = absurd (omega arith)
match_complete (suc fuel) lower target from p a b tok =
    let at_p : from + (p - from) ≡ p = omega arith in
    let there : starts_with (drop (p - from) (drop from lower)) (b'@' ∷ target) ≡ true =
      rw (drop-drop from (p - from) lower, at_p) tok.stands in
    let (rel, e, le) = find-le (drop from lower) target (p - from) there in
    elim (Bool-cases (ends_at lower (from + rel + (1 + length target)))) [
      | inl done ↦ match-true fuel lower target from rel e done
      | inr more ↦
          let apart : from + rel ≢ p = λ same. cc (more, tok.ends, same) in
          match_next fuel lower target from rel e more
          ∙ match_complete fuel lower target (from + rel + 1) p (omega arith) (omega arith) tok
    ]

ends_at-IsBoundary : (lower : Str) (q : ℕ) → (ends_at lower q ≡ true) ↔ IsBoundary (drop q lower)
ends_at-IsBoundary [] q = rw drop-nil (λ h. tt, λ h. refl)
ends_at-IsBoundary (x ∷ s) zero = (λ h. ground arith, λ h. ground arith)
ends_at-IsBoundary (x ∷ s) (suc q) = ends_at-IsBoundary s q

drop-append : (xs ys : Str) → drop (length xs) (xs ++ ys) ≡ ys
drop-append [] ys = refl
drop-append (x ∷ xs) ys = drop-append xs ys

-- A token that stands at a position splits the text there, and the other way round.
TokenAt-HasToken : (lower target : Str) (p : ℕ) → TokenAt lower target p → HasToken lower target
TokenAt-HasToken lower target p tok =
    let len : length (b'@' ∷ target) ≡ 1 + length target = omega arith in
    let tail = starts_with→append (drop p lower) (b'@' ∷ target) tok.stands in
    record {
      before = take p lower;
      behind = drop (p + (1 + length target)) lower;
      splits =
          sym (take-append-drop p lower)
          ∙ ap (λ (s : Str). take p lower ++ s)
              (tail ∙ ap (λ (s : Str). b'@' ∷ (target ++ s)) (rw (← len) (drop-drop p _ lower)));
      ends = (ends_at-IsBoundary lower _).0 tok.ends;
    }

HasToken-TokenAt :
    (lower target : Str)
    → HasToken lower target
    → (p : ℕ) × TokenAt lower target p × (p ≤ length lower)
HasToken-TokenAt lower target h =
    let len : 1 + length target ≡ length (b'@' ∷ target) = omega arith in
    let here : drop (length h.before) lower ≡ b'@' ∷ (target ++ h.behind) =
      rw h.splits (drop-append h.before _) in
    let after : drop (length h.before + (1 + length target)) lower ≡ h.behind =
      sym (drop-drop (length h.before) _ lower)
      ∙ ap (drop (1 + length target)) here
      ∙ rw len (drop-append (b'@' ∷ target) h.behind) in
    (
      length h.before,
      record {
        stands = rw here (starts_with-append (b'@' ∷ target) h.behind);
        ends = (ends_at-IsBoundary lower _).1 (rw after h.ends);
      },
      omega (
        arith,
        length-append h.before (b'@' ∷ (target ++ h.behind)),
        ap (length {A = ℕ}) h.splits,
      ),
    )

-- The scan says yes exactly if the text has the token with a word boundary behind it.
pub match_at_token_iff :
    (lower target : Str) → (match_at_token lower target ≡ true) ↔ HasToken lower target
unfolding match_at_token
match_at_token_iff lower target = (
  λ h.
      let (p, tok) = match_sound (length lower + 1) lower target 0 h in
      TokenAt-HasToken lower target p tok,
  λ h.
      let (p, tok, le) = HasToken-TokenAt lower target h in
      match_complete (length lower + 1) lower target 0 p (omega arith) (omega arith) tok,
)

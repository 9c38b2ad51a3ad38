-- ===== src/HookFormat/Mentions/Directive.antt =====
-- Who can put a `for-you` tag on a line, said without the order of the tests.
use minara_connect.Base.{
  ◌≡◌, ◌≢◌, ◌↔◌, ◌⊎◌, inl, inr, refl, sym, Bool, true, false, not, ◌||◌, Option, none, some, List,
  [], ◌∷◌, ◌++◌, arith, if◌then◌else◌, Str, str, str_eq_iff, ends_with, to_ascii_lowercase, any,
  Bool-cases, Option-cases,
}
use mathlib.Core.Bool.{false≢true}
use minara_connect.Message.{Message}
use minara_connect.HookFormat.Mentions.{
  match_at_token, broadcast_tokens, mentions_nick, mentions_self, is_own_ai, is_owner_directive,
}
use minara_connect.HookFormat.Mentions.Token.{HasToken, match_at_token_iff}

-- The lowered body has one of the tokens.
abbrev pub HasAny : Str → List Str → Type 0
HasAny lower [] = ⊥
HasAny lower (t ∷ tokens) = HasToken lower t ⊎ HasAny lower tokens

module _ {ℓ κ} {P : Type ℓ} {Q : Type κ} where
  if_true_iff :
      (a b : Bool) → (a ≡ true) ↔ P → (b ≡ true) ↔ Q → ((if a then true else b) ≡ true) ↔ (P ⊎ Q)
  if_true_iff true b p q = (λ h. inl (p.0 refl), λ h. refl)
  if_true_iff false b p q =
      (λ h. inr (q.0 h), λ h. elim h [ inl x ↦ absurd (false≢true (p.1 x)) | inr y ↦ q.1 y ])

false_iff : (false ≡ true) ↔ ⊥
false_iff = (λ h. false≢true h, λ h. absurd h)

or-eq-if : (a b : Bool) → (a || b) ≡ (if a then true else b)
or-eq-if true b = refl
or-eq-if false b = refl

any_token_iff :
    (lower : Str) (tokens : List Str)
    → (any (match_at_token lower) tokens ≡ true) ↔ HasAny lower tokens
any_token_iff lower [] = false_iff
any_token_iff lower (t ∷ tokens) =
    rw (or-eq-if (match_at_token lower t) (any (match_at_token lower) tokens)) (
      if_true_iff (match_at_token lower t) (any (match_at_token lower) tokens)
        (match_at_token_iff lower t) (any_token_iff lower tokens))

-- the tokens of the user's own nickname: the nickname, and its AI form if it is not one itself
abbrev pub MentionsNick : Str → Option Str → Type 0
MentionsNick lower none = ⊥
MentionsNick lower (some nick) =
    (nick ≢ [])
    × (HasToken lower (to_ascii_lowercase nick)
        ⊎ ((ends_with (to_ascii_lowercase nick) (str "-cc") ≡ false)
            × HasToken lower (to_ascii_lowercase nick ++ str "-cc")))

abbrev pub Mentions : Str → Option Str → Type 0
Mentions body self_nick =
    HasAny (to_ascii_lowercase body) broadcast_tokens
    ⊎ MentionsNick (to_ascii_lowercase body) self_nick

ai_form_iff :
    (lower lower_nick : Str)
    → ((if not (ends_with lower_nick (str "-cc"))
          then match_at_token lower (lower_nick ++ str "-cc")
          else false)
        ≡ true)
      ↔ ((ends_with lower_nick (str "-cc") ≡ false) × HasToken lower (lower_nick ++ str "-cc"))
ai_form_iff lower lower_nick =
    let token = match_at_token_iff lower (lower_nick ++ str "-cc") in
    elim (Bool-cases (ends_with lower_nick (str "-cc"))) [
      | inl e ↦ rw e (λ h. absurd (false≢true h), λ h. absurd (false≢true (sym h.0)))
      | inr e ↦ rw e (λ h. (refl, token.0 h), λ h. token.1 h.1)
    ]

mentions_nick_iff :
    (lower nick : Str)
    → (mentions_nick lower nick ≡ true) ↔ (
        HasToken lower (to_ascii_lowercase nick)
        ⊎ ((ends_with (to_ascii_lowercase nick) (str "-cc") ≡ false)
            × HasToken lower (to_ascii_lowercase nick ++ str "-cc")))
unfolding mentions_nick
mentions_nick_iff lower nick =
    if_true_iff (match_at_token lower (to_ascii_lowercase nick)) _
      (match_at_token_iff lower (to_ascii_lowercase nick))
      (ai_form_iff lower (to_ascii_lowercase nick))

-- A body mentions the user exactly if it has a broadcast token, or one of the user's own.
pub mentions_self_iff :
    (body : Str) (self_nick : Option Str)
    → (mentions_self body self_nick ≡ true) ↔ Mentions body self_nick
unfolding mentions_self
mentions_self_iff body none =
    if_true_iff (any (match_at_token (to_ascii_lowercase body)) broadcast_tokens) false
      (any_token_iff (to_ascii_lowercase body) broadcast_tokens) false_iff
mentions_self_iff body (some []) =
    if_true_iff (any (match_at_token (to_ascii_lowercase body)) broadcast_tokens) false
      (any_token_iff (to_ascii_lowercase body) broadcast_tokens)
      (λ h. absurd (false≢true h), λ h. absurd (h.0 refl))
mentions_self_iff body (some (c ∷ nick)) =
    let own = mentions_nick_iff (to_ascii_lowercase body) (c ∷ nick) in
    if_true_iff (any (match_at_token (to_ascii_lowercase body)) broadcast_tokens) _
      (any_token_iff (to_ascii_lowercase body) broadcast_tokens)
      (λ h. ((λ e. cc), own.0 h), λ h. own.1 h.1)

-- What makes a message a directive: it mentions the user; it is no broadcast of the user's own AI
-- (a nickname in `-cc`, and the user's key, if a key is known); and in owner-only mode it comes
-- from the user's key.
pub record IsDirective (m : Message) (self_pubkey self_nick : Option Str) (owner_only : Bool)
    : Type 0 where
  pub mentions : Mentions m.body self_nick
  pub not_own_ai :
      (nick : Str)
      → m.nick ≡ some nick
      → ends_with nick (str "-cc") ≡ true
      → (pk : Str) × (self_pubkey ≡ some pk) × (m.author ≢ pk)
  pub from_owner : (pk : Str) → self_pubkey ≡ some pk → owner_only ≡ true → m.author ≡ pk

owner_directive→IsDirective :
    (m : Message) (self_pubkey self_nick : Option Str) (owner_only : Bool)
    → is_owner_directive m self_pubkey self_nick owner_only ≡ true
    → IsDirective m self_pubkey self_nick owner_only
unfolding is_owner_directive
owner_directive→IsDirective m none self_nick owner_only h = record {
  mentions = (mentions_self_iff m.body self_nick).0 (ground arith);
  not_own_ai = λ nick e x. absurd (ground arith);
  from_owner = λ pk e x. absurd (ground arith);
}
owner_directive→IsDirective m (some k) self_nick owner_only h = record {
  mentions = (mentions_self_iff m.body self_nick).0 (ground arith);
  not_own_ai = λ nick e x. (k, refl, λ y. absurd (ground (arith, str_eq_iff m.author k)));
  from_owner = λ pk e x. ground (arith, str_eq_iff m.author k);
}

module _ {self_nick : Option Str} {owner_only : Bool} (m : Message) where
  is_own_ai-false :
      (self_pubkey : Option Str)
      → IsDirective m self_pubkey self_nick owner_only
      → is_own_ai m self_pubkey ≡ false
  is_own_ai-false self_pubkey d = elim (Option-cases m.nick) [
    | inl e ↦ ground arith
    | inr (nick, e) ↦ elim (Bool-cases (ends_with nick (str "-cc"))) [
      | inl x ↦ let (pk, p, q) = d.not_own_ai nick e x in ground (arith, str_eq_iff m.author pk)
      | inr x ↦ ground arith
    ]
  ]

IsDirective→owner_directive :
    (m : Message) (self_pubkey self_nick : Option Str) (owner_only : Bool)
    → IsDirective m self_pubkey self_nick owner_only
    → is_owner_directive m self_pubkey self_nick owner_only ≡ true
unfolding is_owner_directive
IsDirective→owner_directive m none self_nick owner_only d =
    rw ((mentions_self_iff m.body self_nick).1 d.mentions, is_own_ai-false m none d)
IsDirective→owner_directive m (some k) self_nick true d = rw (
  (mentions_self_iff m.body self_nick).1 d.mentions,
  is_own_ai-false m (some k) d,
  (str_eq_iff m.author k).1 (d.from_owner k refl refl),
)
IsDirective→owner_directive m (some k) self_nick false d =
    rw ((mentions_self_iff m.body self_nick).1 d.mentions, is_own_ai-false m (some k) d)

-- A line gets the `for-you` tag exactly if its message is a directive.
pub is_owner_directive_iff :
    (m : Message) (self_pubkey self_nick : Option Str) (owner_only : Bool)
    → (is_owner_directive m self_pubkey self_nick owner_only ≡ true)
      ↔ IsDirective m self_pubkey self_nick owner_only
is_owner_directive_iff m pk nick only =
    (owner_directive→IsDirective m pk nick only, IsDirective→owner_directive m pk nick only)

-- ===== src/HookFormat/Mentions.antt =====
-- `match_at_token`, `mentions_self` and `is_owner_directive`: which messages are for this user.
pub mod Token
pub mod Directive
use minara_connect.Base.{
  ℕ, zero, suc, ◌+◌, Bool, true, false, not, ◌&&◌, ◌||◌, Option, none, some, List, [], ◌∷◌, ◌++◌,
  ◌==◌, if◌then◌else◌, Str, str, str_eq, starts_with, ends_with, to_ascii_lowercase, is_empty,
  is_alphanumeric, length, drop, get_elem?, any,
}
use mathlib.Core.Option
use minara_connect.Message.{Message}

abbrev pub is_nick_cont_byte : ℕ → Bool
is_nick_cont_byte b = is_alphanumeric b || b == b'-' || b == b'_'

-- `haystack.find(needle)`
pub find : Str → Str → Option ℕ
find [] needle = if starts_with [] needle then some 0 else none
find (x ∷ s) needle = if starts_with (x ∷ s) needle then some 0 else Option.map suc (find s needle)

find_at_target : Str → Str → Option ℕ
unfolding find
find_at_target haystack target = find haystack (b'@' ∷ target)

-- The `while let`, from the position `from`. Each round moves `from` on, so one round for each byte
-- and one more are enough.
match_at_token_from : ℕ → Str → Str → ℕ → Bool
unfolding find_at_target
match_at_token_from zero lower target from = false
match_at_token_from (suc fuel) lower target from = elim (find_at_target (drop from lower) target) [
  | none ↦ false
  | some rel ↦ elim (get_elem? lower (from + rel + (1 + length target))) [
    | none ↦ true
    | some b ↦ elim (not (is_nick_cont_byte b)) [
      | true ↦ true
      | false ↦ match_at_token_from fuel lower target (from + rel + 1)
    ]
  ]
]

pub match_at_token : Str → Str → Bool
unfolding match_at_token_from
match_at_token lower target = match_at_token_from (length lower + 1) lower target 0

abbrev broadcast_tokens : List Str
broadcast_tokens = str "cc" ∷ str "claude" ∷ str "all" ∷ str "here" ∷ []

-- the `if let Some(nick)` of `mentions_self`, on a lowered body and a nick that is not empty
pub mentions_nick : Str → Str → Bool
mentions_nick lower nick =
    let lower_nick = to_ascii_lowercase nick in
    if match_at_token lower lower_nick
    then true
    else if not (ends_with lower_nick (str "-cc"))
    then match_at_token lower (lower_nick ++ str "-cc")
    else false

pub mentions_self : Str → Option Str → Bool
unfolding mentions_nick
mentions_self body self_nick =
    let lower = to_ascii_lowercase body in
    if any (match_at_token lower) broadcast_tokens then true else elim self_nick [
      | none ↦ false
      | some nick ↦ if is_empty nick then false else mentions_nick lower nick
    ]

-- the early `return false` on a nick that ends in `-cc`
abbrev is_own_ai : Message → Option Str → Bool
is_own_ai m self_pubkey = elim m.nick [
  | none ↦ false
  | some nick ↦
      ends_with nick (str "-cc") && elim self_pubkey [ none ↦ true | some pk ↦ str_eq m.author pk ]
]

pub is_owner_directive : Message → Option Str → Option Str → Bool → Bool
is_owner_directive m self_pubkey self_nick owner_only_mentions =
    if not (mentions_self m.body self_nick)
    then false
    else if is_own_ai m self_pubkey
    then false
    else elim self_pubkey [
      | none ↦ true
      | some pk ↦ if owner_only_mentions && not (str_eq m.author pk) then false else true
    ]

-- ===== src/Mention.antt =====
-- crates/cc-connect-tui/src/mention.rs: which names the terminal offers behind an `@`, and what it
-- writes for the one that is chosen. Names are byte strings, and only ASCII letters have a case.
pub mod Tests
pub mod Candidates
pub mod Complete
use minara_connect.Base.{
  ℕ, zero, suc, Bool, true, false, not, ◌&&◌, ◌||◌, Option, none, some, List, [], ◌∷◌, ◌++◌, any,
  map, ◌==◌, if◌then◌else◌, Str, str, str_eq, is_empty, starts_with, to_ascii_lowercase,
}

abbrev pub broadcast_tokens : List Str
broadcast_tokens = str "cc" ∷ str "claude" ∷ str "all" ∷ str "here" ∷ []

-- `out` and `seen` of the loops
pub record Found : Type 0 where
  pub out : List Str
  pub seen : List Str

-- `if seen.insert(lower) { out.push(name) }`
pub offer : Str → Found → Found
offer name st =
    let lower = to_ascii_lowercase name in
    if any (λ s. str_eq s lower) st.seen
    then st
    else record { out = st.out ++ name ∷ []; seen = lower ∷ st.seen }

-- the name under which the user's own AI posts, for a nick that is not empty
pub offer_own_ai : Str → Option Str → Found → Found
unfolding offer
offer_own_ai lower none st = st
offer_own_ai lower (some nick) st =
    let own_ai = nick ++ str "-cc" in
    if not (is_empty nick) && starts_with (to_ascii_lowercase own_ai) lower
    then offer own_ai st
    else st

-- `Some(&n_lower) == self_lower.as_ref()`
abbrev pub is_self : Option Str → Str → Bool
is_self none name = false
is_self (some nick) name = str_eq (to_ascii_lowercase name) (to_ascii_lowercase nick)

pub offer_recent : Str → Option Str → List Str → Found → Found
unfolding offer
offer_recent lower self_nick [] st = st
offer_recent lower self_nick (nick ∷ recent) st = offer_recent lower self_nick recent (
    if is_self self_nick nick
    then st
    else if not (starts_with (to_ascii_lowercase nick) lower)
    then st
    else offer nick st)

pub offer_tokens : Str → List Str → Found → Found
unfolding offer
offer_tokens lower [] st = st
offer_tokens lower (tok ∷ toks) st =
    offer_tokens lower toks (if not (starts_with tok lower) then st else offer tok st)

pub mention_candidates : List Str → Str → Option Str → List Str
unfolding offer_own_ai offer_recent offer_tokens
mention_candidates recent prefix self_nick =
    let lower = to_ascii_lowercase prefix in
    let st = offer_own_ai lower self_nick (record { out = []; seen = [] }) in
    (offer_tokens lower broadcast_tokens (offer_recent lower self_nick recent st)).out

-- The text up to its last `@`, with it, if there is one.
pub up_to_last_at : Str → Option Str
up_to_last_at [] = none
up_to_last_at (b ∷ s) = elim (up_to_last_at s) [
  | some t ↦ some (b ∷ t)
  | none ↦ if b == b'@' then some (b ∷ []) else none
]

pub complete_at : Str → Str → Str
unfolding up_to_last_at
complete_at input full_nick = elim (up_to_last_at input) [
  | some t ↦ t ++ (full_nick ++ b' ' ∷ [])
  | none ↦ input
]

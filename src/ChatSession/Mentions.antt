-- ===== src/ChatSession/Mentions.antt =====
-- `MentionState`: the last mentions, for a caller that comes back for those it has missed.
pub mod Ring
pub mod Replay
pub mod Tests
use minara_connect.Base.{
  ℕ, zero, suc, Bool, not, Option, none, some, List, [], ◌∷◌, ◌++◌, length, leb, drop,
  if◌then◌else◌, Str, str_le, ℤ,
}

pub record MentionEvent : Type 0 where
  pub id : Str
  pub ts : ℤ
  pub nick : Str
  pub body : Str

abbrev pub mention_buffer_cap : ℕ
mention_buffer_cap = 32

-- `tx` is what has been sent on the broadcast channel.
pub record MentionState : Type 0 where
  pub tx : List MentionEvent
  pub recent : List MentionEvent

abbrev pub new_mentions : MentionState
new_mentions = record { tx = []; recent = [] }

-- `VecDeque::pop_front`
abbrev pop_front : List MentionEvent → List MentionEvent
pop_front [] = []
pop_front (e ∷ buf) = buf

pub push : MentionEvent → MentionState → MentionState
push ev st =
    let buf =
      if leb mention_buffer_cap (length st.recent) then pop_front st.recent else st.recent in
    record { tx = st.tx ++ ev ∷ []; recent = buf ++ ev ∷ [] }

-- `e.id.as_str() > cutoff`
abbrev pub is_newer : Str → MentionEvent → Bool
is_newer cutoff e = not (str_le e.id cutoff)

-- `buf.iter().find(..)`
pub find_newer : Str → List MentionEvent → Option MentionEvent
find_newer cutoff [] = none
find_newer cutoff (e ∷ buf) =
    let rest = find_newer cutoff buf in if is_newer cutoff e then some e else rest

pub snapshot_after : Option Str → MentionState → Option MentionEvent
unfolding find_newer
snapshot_after none st = none
snapshot_after (some cutoff) st = find_newer cutoff st.recent

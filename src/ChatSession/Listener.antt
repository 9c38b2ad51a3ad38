-- ===== src/ChatSession/Listener.antt =====
-- The listener task of `run_session`: what one event from the gossip stream does to the log, the
-- file index, the rate limiter, the mentions, the health of the mesh and the display. Whether a blob
-- can be fetched and whether INDEX.md can be written are parameters; so is the parsed JSON.
pub mod Kept
pub mod Steps
pub mod Keeps
pub mod Wake
pub mod Shown
pub mod Tests
use minara_connect.Base.{
  ℕ, Bool, true, false, not, ◌&&◌, Option, none, some, List, [], ◌∷◌, ◌++◌, if◌then◌else◌, Str, str,
  str_eq, ends_with, ℤ, Error, Result, ok, err,
}
use minara_connect.Message.{Message, from_wire_bytes, kind_file_drop, kind_keepalive}
use minara_connect.RateLimit.{RateLimiter, RateLimitDecision, allow, drop_it, check_and_record}
use minara_connect.LogIo.{append}
use minara_connect.ChatSession.{
  Warning, DisplayLine, incoming, warn, stream_error, malformed, rate_limited, blob_failed,
  append_failed, index_failed, line_mentions_me, nick_short, shown_body, append_file_index_entry,
  is_file_drop,
}
use minara_connect.ChatSession.Mentions.{MentionEvent, MentionState, push}

-- an event of the stream: an error, news of a neighbour, or a message's bytes
pub data GossipEvent : Type 0 where
  failed neighbour : GossipEvent
  received : Str → GossipEvent

-- An event with the two readings of the clock that it may take.
pub record Arrival : Type 0 where
  pub event : GossipEvent
  pub seen_ms : ℤ
  pub checked_ms : ℤ

pub record Listener : Type 0 where
  pub log : Str
  pub index : Str
  pub rate_limiter : RateLimiter
  pub mentions : MentionState
  pub mesh_health : ℤ
  pub shown : List DisplayLine

-- What the task is started with.
pub record Setup : Type 0 where
  pub our_pubkey : Str
  pub self_nick : Option Str
  pub owner_only : Bool
  pub files_dir : Str

abbrev show : DisplayLine → Listener → Listener
show line st = record st { shown = st.shown ++ line ∷ [] }

-- the test whether a peer's mention wakes the caller
abbrev pub wakes : Setup → Message → Bool
wakes setup m =
    line_mentions_me (shown_body m) setup.self_nick
    && not setup.owner_only
    && not (is_file_drop m)
    && not (ends_with (nick_short m) (str "-cc"))

abbrev pub mention_of : Message → MentionEvent
mention_of m = record { id = m.id; ts = m.ts; nick = nick_short m; body = shown_body m }

-- from the line's nick and body on: the mention, and the line itself
pub announce : Setup → Message → Listener → Listener
announce setup m st =
    let woken = if wakes setup m then push (mention_of m) st.mentions else st.mentions in
    show (incoming (nick_short m) (shown_body m) (line_mentions_me (shown_body m) setup.self_nick))
      (record st { mentions = woken })

-- the entry in INDEX.md
pub index_file : (Message → Bool) → Setup → Message → Listener → Listener
index_file index_ok setup m st =
    if not (is_file_drop m)
    then st
    else if index_ok m
    then record st { index = append_file_index_entry setup.files_dir st.index m }
    else show (warn index_failed) st

-- from the append to the log on
pub keep : (Message → Option Str) → (Message → Bool) → Setup → Message → Listener → Listener
unfolding index_file announce
keep to_vec index_ok setup m st = elim (append to_vec st.log m) [
  | err e ↦ show (warn append_failed) st
  | ok log ↦ announce setup m (index_file index_ok setup m (record st { log = log }))
]

-- the `match` on the decision of the rate limiter, and the fetch of a file
pub admit :
    (Message → Option Str)
    → (Message → Bool)
    → (Message → Bool)
    → Setup
    → Message
    → RateLimitDecision
    → Listener
    → Listener
unfolding keep
admit to_vec fetch index_ok setup m (drop_it warned) st =
    if warned then show (warn (rate_limited (nick_short m))) st else st
admit to_vec fetch index_ok setup m allow st =
    if is_file_drop m && not (fetch m)
    then show (warn (blob_failed m.id)) st
    else keep to_vec index_ok setup m st

-- a message that has been parsed
pub receive :
    (Message → Option Str)
    → (Message → Bool)
    → (Message → Bool)
    → Setup
    → Message
    → ℤ
    → Listener
    → Listener
unfolding admit
receive to_vec fetch index_ok setup m now_ms st =
    if str_eq m.author setup.our_pubkey
    then st
    else if str_eq m.kind kind_keepalive
    then st
    else let (decision, limiter) = check_and_record st.rate_limiter m.author now_ms in
      admit to_vec fetch index_ok setup m decision (record st { rate_limiter = limiter })

module _ (from_slice : Str → Option Message) (to_vec : Message → Option Str)
    (fetch index_ok : Message → Bool) (setup : Setup) where
  -- the body of the `while let`
  pub handle_event : Arrival → Listener → Listener
  unfolding receive
  handle_event arrival st =
      let heard = record st { mesh_health = arrival.seen_ms } in
      elim arrival.event [
        | failed ↦ show (warn stream_error) st
        | neighbour ↦ heard
        | received payload ↦ elim (from_wire_bytes from_slice payload) [
          | err e ↦ show (warn (malformed e)) heard
          | ok m ↦ receive to_vec fetch index_ok setup m arrival.checked_ms heard
        ]
      ]

  pub listen : List Arrival → Listener → Listener
  unfolding handle_event
  listen [] st = st
  listen (arrival ∷ arrivals) st = listen arrivals (handle_event arrival st)

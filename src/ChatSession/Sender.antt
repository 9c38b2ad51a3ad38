-- ===== src/ChatSession/Sender.antt =====
-- The send loop of `run_session`: what a typed line, a line from the socket, the heartbeat and the
-- watchdog do. Each turn comes with what it meets outside: a fresh id, the clock, the files, and
-- whether INDEX.md can be written and the broadcast succeeds.
pub mod Lines
pub mod Fatal
pub mod Breaks
pub mod Sent
pub mod Typed
pub mod Wake
pub mod Tests
use minara_connect.Base.{
  ℕ, ◌/◌, Bool, true, false, not, ◌&&◌, ◌||◌, Option, none, some, List, [], ◌∷◌, ◌++◌, ◌==◌, drop,
  length, if◌then◌else◌, Str, str, str_eq, is_empty, starts_with, take_chars, trim, ℤ, pos, negsuc,
  sub_i64, ltb_ℤ, Error, Result, ok, err, ◌>>=◌, decimal,
}
use minara_connect.Message.{Message, new, new_keepalive, with_nick, to_canonical_json}
use minara_connect.RateLimit.{RateLimiter, RateLimitDecision, allow, drop_it, check_and_record}
use minara_connect.LogIo.{append}
use minara_connect.ChatSession.{
  DisplayLine, echo, warn, outgoing_rate_limit, unknown_command, append_failed, index_failed,
  broadcast_failed, drop_failed, mesh_quiet, is_file_drop, line_mentions_me,
  append_file_index_entry,
}
use minara_connect.ChatSession.Mentions.{MentionState, push}
use minara_connect.ChatSession.Drops.{Outside, build_file_drop}

pub data InputSource : Type 0 where
  local mcp : InputSource

pub data SendEvent : Type 0 where
  input : Option Str → InputSource → SendEvent
  keepalive watchdog : SendEvent

-- An event, with what it may read from outside.
pub record Turn : Type 0 where
  pub event : SendEvent
  pub new_ulid : Str
  pub checked_ms : ℤ
  pub now_ms : ℤ
  pub outside : Outside
  pub index_ok : Bool
  pub broadcast_ok : Bool

-- `sent` is what has been broadcast.
pub record Sender : Type 0 where
  pub log : Str
  pub index : Str
  pub send_rate_limiter : RateLimiter
  pub mentions : MentionState
  pub mesh_health : ℤ
  pub last_warn_at : ℤ
  pub shown : List DisplayLine
  pub sent : List Str

pub record Self : Type 0 where
  pub pubkey : Str
  pub self_nick : Option Str
  pub files_dir : Str

-- What a round of the loop, or a part of it, comes to: a value to go on with, the next round, or
-- the end of the session with an error.
pub data Flow (A : Type 0) : Type 0 where
  go : A → Sender → Flow A
  next_round : Sender → Flow A
  broken : Error → Sender → Flow A

abbrev pub show : DisplayLine → Sender → Sender
show line st = record st { shown = st.shown ++ line ∷ [] }

-- `trim_end_matches(['\n', '\r'])`
unfoldable pub trim_newlines : Str → Str
trim_newlines [] = []
trim_newlines (b ∷ s) =
    let rest = trim_newlines s in
    if is_empty rest && (b == b'\n' || b == b'\r') then [] else b ∷ rest

abbrev pub base_nick : Self → Str
base_nick self = elim self.self_nick [ none ↦ take_chars 8 self.pubkey | some nick ↦ nick ]

abbrev pub echo_nick : Self → InputSource → Str
echo_nick self local = base_nick self
echo_nick self mcp = base_nick self ++ str "-cc"

abbrev pub nick_for_msg : Self → InputSource → Option Str
nick_for_msg self local = self.self_nick
nick_for_msg self mcp = some (base_nick self ++ str "-cc")

abbrev pub is_local : InputSource → Bool
is_local local = true
is_local mcp = false

-- `?` on a result: the error ends the session
abbrev require : {A : Type 0} → Result A → Sender → Flow A
require (err e) st = broken e st
require (ok a) st = go a st

-- `body.strip_prefix("/drop ")`
abbrev pub strip_drop : Str → Option Str
strip_drop body =
    if starts_with body (str "/drop ") then some (drop (length (str "/drop ")) body) else none

abbrev size_of : Option ℕ → ℕ
size_of none = 0
size_of (some n) = n

abbrev dropped_line : Message → DisplayLine
dropped_line m = echo (
    str "[chat] dropped "
    ++ (m.body ++ (str " (" ++ (decimal (size_of m.blob_size) ++ str " bytes)"))))

-- the arm of `/drop`
pub compose_drop : Self → InputSource → Turn → Str → Sender → Flow Message
compose_drop self source turn path_str st =
    elim (build_file_drop turn.outside (trim path_str) self.pubkey turn.new_ulid turn.now_ms) [
      | err e ↦ next_round (show (warn (drop_failed e)) st)
      | ok m ↦ elim (with_nick m (nick_for_msg self source)) [
        | err e ↦ broken e st
        | ok m' ↦ go m' (show (dropped_line m') st)
      ]
    ]

abbrev pub echo_line : Self → InputSource → Str → DisplayLine
echo_line self source body = echo (str "[" ++ (echo_nick self source ++ (str "] " ++ body)))

-- the arm of a plain line, which is shown first
pub compose_chat : Self → InputSource → Turn → Str → Sender → Flow Message
compose_chat self source turn body st =
    require
      (new turn.new_ulid self.pubkey turn.now_ms body >>= λ m.
        with_nick m (nick_for_msg self source))
      (show (echo_line self source body) st)

-- the message that a line is made into
pub compose : Self → InputSource → Turn → Str → Sender → Flow Message
unfolding compose_drop compose_chat
compose self source turn body st = elim (strip_drop body) [
  | some path_str ↦ compose_drop self source turn path_str st
  | none ↦
      if starts_with body (str "/")
      then next_round (show (warn unknown_command) st)
      else compose_chat self source turn body st
]

-- the owner's own mention of the AI
pub wake_own : Self → InputSource → Message → Sender → Sender
wake_own self source m st =
    if is_local source && not (is_file_drop m) && line_mentions_me m.body self.self_nick
    then record st {
      mentions =
          push (record { id = m.id; ts = m.ts; nick = echo_nick self source; body = m.body })
            st.mentions;
    }
    else st

pub index_own : Self → Turn → Message → Sender → Sender
index_own self turn m st =
    if not (is_file_drop m)
    then st
    else if turn.index_ok
    then record st { index = append_file_index_entry self.files_dir st.index m }
    else show (warn index_failed) st

pub broadcast : Turn → Str → Sender → Sender
broadcast turn bytes st =
    if turn.broadcast_ok
    then record st { sent = st.sent ++ bytes ∷ [] }
    else show (warn broadcast_failed) st

-- `elapsed / 60_000` where `elapsed` is not negative
abbrev minutes : ℤ → ℕ
minutes (pos n) = n / 60_000
minutes (negsuc n) = 0

pub watch : Turn → Sender → Sender
watch turn st =
    let elapsed = sub_i64 turn.now_ms st.mesh_health in
    if ltb_ℤ (pos 300_000) elapsed && ltb_ℤ (pos 600_000) (sub_i64 turn.now_ms st.last_warn_at)
    then record (show (warn (mesh_quiet (minutes elapsed))) st) { last_warn_at = turn.now_ms }
    else st

module _ (to_vec : Message → Option Str) (self : Self) where
  -- from the append on
  pub deliver : InputSource → Turn → Message → Sender → Flow (Unit {0})
  unfolding wake_own index_own broadcast
  deliver source turn m st = elim (append to_vec st.log m) [
    | err e ↦ next_round (show (warn append_failed) st)
    | ok log ↦
        let indexed = index_own self turn m (wake_own self source m (record st { log = log })) in
        elim (to_canonical_json to_vec m) [
          | err e ↦ broken e indexed
          | ok bytes ↦ next_round (broadcast turn bytes indexed)
        ]
  ]

  -- the outgoing limiter's decision
  pub send_body : InputSource → Turn → Str → RateLimitDecision → Sender → Flow (Unit {0})
  unfolding compose deliver
  send_body source turn body (drop_it warned) st =
      next_round (if warned then show (warn outgoing_rate_limit) st else st)
  send_body source turn body allow st = elim (compose self source turn body st) [
    | go m composed ↦ deliver source turn m composed
    | next_round composed ↦ next_round composed
    | broken e composed ↦ broken e composed
  ]

  -- a line that has been entered
  pub send_line : InputSource → Turn → Str → Sender → Flow (Unit {0})
  unfolding trim_newlines send_body
  send_line source turn line st =
      let body = trim_newlines line in
      let (decision, limiter) = check_and_record st.send_rate_limiter self.pubkey turn.checked_ms in
      if is_empty body
      then next_round st
      else send_body source turn body decision (record st { send_rate_limiter = limiter })

  pub send_keepalive : Turn → Sender → Sender
  send_keepalive turn st = elim (new_keepalive turn.new_ulid self.pubkey turn.now_ms) [
    | err e ↦ st
    | ok m ↦ elim (to_canonical_json to_vec m) [
      | err e ↦ st
      | ok bytes ↦ if turn.broadcast_ok then record st { sent = st.sent ++ bytes ∷ [] } else st
    ]
  ]

  -- a round of the loop; `go` is the end of the session without an error
  pub round : Turn → Sender → Flow (Unit {0})
  unfolding send_line send_keepalive watch
  round turn st = elim turn.event [
    | input none local ↦ go tt st
    | input none mcp ↦ next_round st
    | input (some line) source ↦ send_line source turn line st
    | keepalive ↦ next_round (send_keepalive turn st)
    | watchdog ↦ next_round (watch turn st)
  ]

  pub run : List Turn → Sender → Flow (Unit {0})
  unfolding round
  run [] st = next_round st
  run (turn ∷ turns) st = elim (round turn st) [
    | go done st' ↦ go done st'
    | next_round st' ↦ run turns st'
    | broken e st' ↦ broken e st'
  ]

-- ===== src/ChatSession/Sender/Sent.antt =====
-- What a session broadcasts stands in its own log.
use minara_connect.Base.{
  ◌≡◌, ◌⊎◌, sym, ap, subst, ◌∙◌, inl, inr, true, false, ◌&&◌, Option, none, some, List, [], ◌∷◌,
  ◌++◌, append_assoc, All, All-append, All-mono, Bool-cases, Result-cases, Str, is_empty, ok, ltb_ℤ,
  sub_i64, pos,
}
use minara_connect.Message.{Message, kind_keepalive, new_keepalive, to_canonical_json}
use minara_connect.Message.Sent.{Built, keepalive}
use minara_connect.Message.New.{new_keepalive-IsBeat}
use minara_connect.RateLimit.{RateLimitDecision, allow, drop_it, check_and_record}
use minara_connect.LogIo.{append}
use minara_connect.LogIo.Lines.{IsLog}
use minara_connect.LogIo.ReadBack.{append_lem, IsLog-append, IsLog-line}
use minara_connect.ChatSession.Sender.{
  InputSource, local, mcp, SendEvent, input, watchdog, Turn, Sender, Self, trim_newlines, compose,
  wake_own, index_own, broadcast, deliver, send_body, send_line, send_keepalive, watch, round, run,
}
use minara_connect.ChatSession.Sender.Breaks.{Flow-cases}
use minara_connect.ChatSession.Sender.Lines.{
  state_of, IsOwn, compose_lem, index_own-same, wake_own-same,
}

-- The text stands in the log as a line.
abbrev pub HasLine : Str → Str → Type 0
HasLine log bytes =
    (before : Str) × (after : Str) × IsLog before × (log ≡ before ++ (bytes ++ b'\n' ∷ after))

-- The JSON of a message that a constructor built, by this author, which is a heartbeat or in the log.
pub record IsRecorded (to_vec : Message → Option Str) (self : Self) (log bytes : Str) : Type 0 where
  pub message : Message
  pub encodes : to_canonical_json to_vec message ≡ ok bytes
  pub built : Built message
  pub by_self : message.author ≡ self.pubkey
  pub is_logged : (message.kind ≡ kind_keepalive) ⊎ HasLine log bytes

module _ (to_vec : Message → Option Str) (self : Self) where
  -- The log is a log, and everything that has been sent is recorded.
  abbrev pub IsHonest : Sender → Type 0
  IsHonest st = IsLog st.log × All (IsRecorded to_vec self st.log) st.sent

  IsRecorded-longer :
      (log more bytes : Str)
      → IsRecorded to_vec self log bytes
      → IsRecorded to_vec self (log ++ more) bytes
  IsRecorded-longer log more bytes r = record {
    message = r.message;
    encodes = r.encodes;
    built = r.built;
    by_self = r.by_self;
    is_logged = elim r.is_logged [
      | inl beat ↦ inl beat
      | inr (before, after, l, e) ↦ inr (
        before,
        after ++ more,
        l,
        ap (λ x. x ++ more) e
            ∙ append_assoc before (bytes ++ b'\n' ∷ after) more
            ∙ ap (λ x. before ++ x) (append_assoc bytes (b'\n' ∷ after) more),
      )
    ];
  }

  IsHonest-same :
      (st st' : Sender) → st'.log ≡ st.log → st'.sent ≡ st.sent → IsHonest st → IsHonest st'
  IsHonest-same st st' l s (is_log, sent) = (
    subst IsLog (sym l) is_log,
    subst (λ x. All (IsRecorded to_vec self x) st'.sent) (sym l)
        (subst (All (IsRecorded to_vec self st.log)) (sym s) sent),
  )

  broadcast-IsHonest :
      (turn : Turn) (bytes : Str) (st : Sender)
      → IsHonest st
      → IsRecorded to_vec self st.log bytes
      → IsHonest (broadcast turn bytes st)
  unfolding broadcast
  broadcast-IsHonest turn bytes st h r = elim (Bool-cases turn.broadcast_ok) [
    | inr e ↦ rw e h
    | inl e ↦
        rw e (h.0, All-append (IsRecorded to_vec self st.log) st.sent (bytes ∷ []) h.1 (r, tt))
  ]

  deliver-IsHonest :
      (source : InputSource) (turn : Turn) (m : Message) (st : Sender)
      → IsHonest st
      → IsOwn self source m
      → IsHonest (state_of (deliver to_vec self source turn m st))
  unfolding deliver
  deliver-IsHonest source turn m st h own = elim (Result-cases (append to_vec st.log m)) [
    | inr (e, a) ↦ rw (a, deliver) h
    | inl (log, a) ↦
        let (bytes, j, same) = append_lem (λ s. none) to_vec st.log log m a in
        let logged = record st { log = log } in
        let woken = wake_own self source m logged in
        let indexed = index_own self turn m woken in
        let (w_log, w_sent) = wake_own-same self source m logged in
        let (i_log, i_sent, i_mentions) = index_own-same self turn m woken in
        let longer : IsHonest logged = (
          subst IsLog (sym same) (IsLog-append h.0 (IsLog-line bytes)),
          subst (λ x. All (IsRecorded to_vec self x) st.sent) (sym same)
              (All-mono (IsRecorded to_vec self st.log) _ st.sent
                (IsRecorded-longer st.log (bytes ++ b'\n' ∷ [])) h.1),
        ) in
        rw (a, j, deliver)
          (broadcast-IsHonest turn bytes indexed
            (IsHonest-same logged indexed (i_log ∙ w_log) (i_sent ∙ w_sent) longer)
            (record {
              message = m;
              encodes = j;
              built = own.built;
              by_self = own.by_self;
              is_logged = inr (st.log, [], h.0, i_log ∙ w_log ∙ same);
            }))
  ]

  composed-IsHonest :
      (source : InputSource) (turn : Turn) (body : Str) (st : Sender)
      → IsHonest st
      → IsHonest (state_of (compose self source turn body st))
  composed-IsHonest source turn body st h =
      let (same, own) = compose_lem self source turn body st in
      IsHonest-same st (state_of (compose self source turn body st)) same.log_lem same.sent_lem h

  send_body-IsHonest :
      (source : InputSource) (turn : Turn) (body : Str) (decision : RateLimitDecision) (st : Sender)
      → IsHonest st
      → IsHonest (state_of (send_body to_vec self source turn body decision st))
  unfolding send_body
  send_body-IsHonest source turn body (drop_it true) st h = h
  send_body-IsHonest source turn body (drop_it false) st h = h
  send_body-IsHonest source turn body allow st h =
      let composed = composed-IsHonest source turn body st h in
      let own = (compose_lem self source turn body st).1 in
      elim (Flow-cases (compose self source turn body st)) [
        | inl (m, st', c) ↦
            rw (c, send_body) (deliver-IsHonest source turn m st' (rw c at composed) (rw c at own))
        | inr (inl (st', c)) ↦ rw (c, send_body) (rw c at composed)
        | inr (inr (e, st', c)) ↦ rw (c, send_body) (rw c at composed)
      ]

  send_line-IsHonest :
      (source : InputSource) (turn : Turn) (line : Str) (st : Sender)
      → IsHonest st
      → IsHonest (state_of (send_line to_vec self source turn line st))
  unfolding send_line
  send_line-IsHonest source turn line st h = elim (Bool-cases (is_empty (trim_newlines line))) [
    | inl nil ↦ rw nil h
    | inr text ↦
        let (decision, limiter) =
          check_and_record st.send_rate_limiter self.pubkey turn.checked_ms in
        rw text (
          send_body-IsHonest source turn (trim_newlines line) decision
            (record st { send_rate_limiter = limiter }) h)
  ]

  send_keepalive-IsHonest :
      (turn : Turn) (st : Sender) → IsHonest st → IsHonest (send_keepalive to_vec self turn st)
  unfolding send_keepalive
  send_keepalive-IsHonest turn st h =
      elim (Result-cases (new_keepalive turn.new_ulid self.pubkey turn.now_ms)) [
        | inr (e, b) ↦ rw (b, send_keepalive) h
        | inl (m, b) ↦
            let beat = new_keepalive-IsBeat turn.new_ulid self.pubkey turn.now_ms m b in
            elim (Result-cases (to_canonical_json to_vec m)) [
              | inr (e, j) ↦ rw (b, j, send_keepalive) h
              | inl (bytes, j) ↦ elim (Bool-cases turn.broadcast_ok) [
                | inr f ↦ rw (b, j, f, send_keepalive) h
                | inl f ↦
                    rw (b, j, f, send_keepalive)
                      (
                        h.0,
                        All-append (IsRecorded to_vec self st.log) st.sent (bytes ∷ []) h.1 (
                          record {
                            message = m;
                            encodes = j;
                            built = keepalive turn.new_ulid self.pubkey turn.now_ms b;
                            by_self = beat.author_lem;
                            is_logged = inl beat.kind_lem;
                          },
                          tt,
                        ),
                      )
              ]
            ]
      ]

  watch-IsHonest : (turn : Turn) (st : Sender) → IsHonest st → IsHonest (watch turn st)
  unfolding watch
  watch-IsHonest turn st h =
      let elapsed = sub_i64 turn.now_ms st.mesh_health in
      elim (Bool-cases (
        ltb_ℤ (pos 300_000) elapsed && ltb_ℤ (pos 600_000) (sub_i64 turn.now_ms st.last_warn_at))) [
          | inl e ↦ rw e h
          | inr e ↦ rw e h
        ]

  event-IsHonest :
      (event : SendEvent) (turn : Turn) (st : Sender)
      → IsHonest st
      → IsHonest (state_of (round to_vec self (record turn { event = event }) st))
  unfolding round
  event-IsHonest (input none local) turn st h = h
  event-IsHonest (input none mcp) turn st h = h
  event-IsHonest (input (some line) source) turn st h =
      send_line-IsHonest source (record turn { event = input (some line) source }) line st h
  event-IsHonest SendEvent.keepalive turn st h =
      send_keepalive-IsHonest (record turn { event = SendEvent.keepalive }) st h
  event-IsHonest watchdog turn st h = watch-IsHonest (record turn { event = watchdog }) st h

  -- If the log is a log and everything sent so far is recorded, so it is after any turns, however they
  -- end: what has been broadcast is the JSON of messages that a constructor built, with this user's
  -- key as their author, each of them a heartbeat or a line of the log.
  pub run-IsHonest :
      (turns : List Turn) (st : Sender)
      → IsHonest st
      → IsHonest (state_of (run to_vec self turns st))
  unfolding run
  run-IsHonest [] st h = h
  run-IsHonest (turn ∷ turns) st h =
      let next = event-IsHonest turn.event turn st h in
      elim (Flow-cases (round to_vec self turn st)) [
        | inl (done, st', r) ↦ rw (r, run) (rw r at next)
        | inr (inl (st', r)) ↦ rw (r, run) (run-IsHonest turns st' (rw r at next))
        | inr (inr (e, st', r)) ↦ rw (r, run) (rw r at next)
      ]

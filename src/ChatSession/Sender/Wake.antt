-- ===== src/ChatSession/Sender/Wake.antt =====
-- The embedded AI does not wake itself: only a line typed by the user adds a mention.
use minara_connect.Base.{
  ◌≡◌, ◌≢◌, refl, ◌∙◌, inl, inr, true, false, ◌&&◌, Option, none, some, List, [], ◌∷◌, All,
  Bool-cases, Result-cases, Str, is_empty, ltb_ℤ, sub_i64, pos,
}
use minara_connect.Message.{Message, new_keepalive, to_canonical_json}
use minara_connect.RateLimit.{RateLimitDecision, allow, drop_it, check_and_record}
use minara_connect.LogIo.{append}
use minara_connect.ChatSession.Sender.{
  local, mcp, SendEvent, input, watchdog, Turn, Sender, Self, trim_newlines, compose, wake_own,
  index_own, broadcast, deliver, send_body, send_line, send_keepalive, watch, round, run,
}
use minara_connect.ChatSession.Sender.Breaks.{Flow-cases}
use minara_connect.ChatSession.Sender.Lines.{state_of, compose_lem, index_own-same}

-- No line that the user types.
abbrev pub IsUntyped : SendEvent → Type 0
IsUntyped event = (line : Str) → event ≢ input (some line) local

module _ (to_vec : Message → Option Str) (self : Self) where
  broadcast-same :
      (turn : Turn) (bytes : Str) (st : Sender) → (broadcast turn bytes st).mentions ≡ st.mentions
  unfolding broadcast
  broadcast-same turn bytes st = elim (Bool-cases turn.broadcast_ok) [
    | inl e ↦ rw e refl
    | inr e ↦ rw e refl
  ]

  deliver-same :
      (turn : Turn) (m : Message) (st : Sender)
      → (state_of (deliver to_vec self mcp turn m st)).mentions ≡ st.mentions
  unfolding deliver wake_own
  deliver-same turn m st = elim (Result-cases (append to_vec st.log m)) [
    | inr (e, a) ↦ rw (a, deliver) refl
    | inl (log, a) ↦
        let logged = record st { log = log } in
        let (i_log, i_sent, i_mentions) = index_own-same self turn m logged in
        elim (Result-cases (to_canonical_json to_vec m)) [
          | inr (e, j) ↦ rw (a, j, deliver) i_mentions
          | inl (bytes, j) ↦
              rw (a, j, deliver)
                (broadcast-same turn bytes (index_own self turn m logged) ∙ i_mentions)
        ]
  ]

  send_body-same :
      (turn : Turn) (body : Str) (decision : RateLimitDecision) (st : Sender)
      → (state_of (send_body to_vec self mcp turn body decision st)).mentions ≡ st.mentions
  unfolding send_body
  send_body-same turn body (drop_it true) st = refl
  send_body-same turn body (drop_it false) st = refl
  send_body-same turn body allow st =
      let same = (compose_lem self mcp turn body st).0.mentions_lem in
      elim (Flow-cases (compose self mcp turn body st)) [
        | inl (m, st', c) ↦ rw (c, send_body) (deliver-same turn m st' ∙ rw c at same)
        | inr (inl (st', c)) ↦ rw (c, send_body) (rw c at same)
        | inr (inr (e, st', c)) ↦ rw (c, send_body) (rw c at same)
      ]

  event-same :
      (event : SendEvent) (turn : Turn) (st : Sender)
      → IsUntyped event
      → (state_of (round to_vec self (record turn { event = event }) st)).mentions ≡ st.mentions
  unfolding round send_line send_keepalive watch
  event-same (input none local) turn st u = refl
  event-same (input none mcp) turn st u = refl
  event-same (input (some line) local) turn st u = absurd (u line refl)
  event-same (input (some line) mcp) turn st u = elim (Bool-cases (is_empty (trim_newlines line))) [
    | inl nil ↦ rw nil refl
    | inr text ↦
        let (decision, limiter) =
          check_and_record st.send_rate_limiter self.pubkey turn.checked_ms in
        rw text (
          send_body-same (record turn { event = input (some line) mcp }) (trim_newlines line)
            decision (record st { send_rate_limiter = limiter }))
  ]
  event-same SendEvent.keepalive turn st u =
      elim (Result-cases (new_keepalive turn.new_ulid self.pubkey turn.now_ms)) [
        | inr (e, b) ↦ rw (b, send_keepalive) refl
        | inl (m, b) ↦ elim (Result-cases (to_canonical_json to_vec m)) [
          | inr (e, j) ↦ rw (b, j, send_keepalive) refl
          | inl (bytes, j) ↦ elim (Bool-cases turn.broadcast_ok) [
            | inl f ↦ rw (b, j, f, send_keepalive) refl
            | inr f ↦ rw (b, j, f, send_keepalive) refl
          ]
        ]
      ]
  event-same watchdog turn st u =
      let elapsed = sub_i64 turn.now_ms st.mesh_health in
      elim (Bool-cases (
        ltb_ℤ (pos 300_000) elapsed && ltb_ℤ (pos 600_000) (sub_i64 turn.now_ms st.last_warn_at))) [
          | inl e ↦ rw e refl
          | inr e ↦ rw e refl
        ]

  -- Whatever the embedded AI sends, and whatever the heartbeat and the watchdog do: as long as the
  -- user types no line, no mention is added, so that no caller is woken by its own message.
  pub run_untyped_wakes_nobody :
      (turns : List Turn) (st : Sender)
      → All (λ turn. IsUntyped turn.event) turns
      → (state_of (run to_vec self turns st)).mentions ≡ st.mentions
  unfolding run
  run_untyped_wakes_nobody [] st u = refl
  run_untyped_wakes_nobody (turn ∷ turns) st u =
      let next = event-same turn.event turn st u.0 in
      elim (Flow-cases (round to_vec self turn st)) [
        | inl (done, st', r) ↦ rw (r, run) (rw r at next)
        | inr (inl (st', r)) ↦ rw (r, run) (run_untyped_wakes_nobody turns st' u.1 ∙ rw r at next)
        | inr (inr (e, st', r)) ↦ rw (r, run) (rw r at next)
      ]

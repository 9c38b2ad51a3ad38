-- ===== src/ChatSession/Sender/Breaks.antt =====
-- Which lines end the session with an error.
use minara_connect.Base.{
  ◌≡◌, ◌⊎◌, ◌↔◌, inl, inr, refl, subst, arith, true, false, Option, none, some, Bool-cases,
  Result-cases, Str, is_empty, Error, ok,
}
use minara_connect.Message.{Message, normalize_ulid}
use minara_connect.RateLimit.{RateLimitDecision, allow, drop_it, check_and_record}
use minara_connect.LogIo.{append}
use minara_connect.LogIo.ReadBack.{append_lem}
use minara_connect.ChatSession.Sender.{
  InputSource, local, mcp, SendEvent, input, keepalive, watchdog, Turn, Sender, Self, Flow, go,
  next_round, broken, trim_newlines, compose, deliver, send_body, send_line, round,
}
use minara_connect.ChatSession.Sender.Fatal.{is_broken, IsFatal, compose_breaks_iff}

pub Flow-cases :
    {A : Type 0} (f : Flow A)
    → ((a : A) × (st : Sender) × (f ≡ go a st))
      ⊎ (((st : Sender) × (f ≡ next_round st)) ⊎ ((e : Error) × (st : Sender) × (f ≡ broken e st)))
Flow-cases (go a st) = inl (a, st, refl)
Flow-cases (next_round st) = inr (inl (st, refl))
Flow-cases (broken e st) = inr (inr (e, st, refl))

abbrev from_nothing : Str → Option Message
from_nothing s = none

-- What has been appended has a JSON text, so its delivery does not end the session.
deliver_survives :
    (to_vec : Message → Option Str) (self : Self) (source : InputSource) (turn : Turn) (m : Message)
    (st : Sender)
    → is_broken (deliver to_vec self source turn m st) ≡ false
unfolding deliver
deliver_survives to_vec self source turn m st = elim (Result-cases (append to_vec st.log m)) [
  | inr (e, a) ↦ rw (a, deliver) refl
  | inl (log, a) ↦
      let (bytes, j, same) = append_lem from_nothing to_vec st.log log m a in
      rw (a, j, deliver) refl
]

send_body_breaks_iff :
    (to_vec : Message → Option Str) (self : Self) (source : InputSource) (turn : Turn) (body : Str)
    (decision : RateLimitDecision) (st : Sender) (id : Str)
    → normalize_ulid turn.new_ulid ≡ ok id
    → (is_broken (send_body to_vec self source turn body decision st) ≡ true)
      ↔ ((decision ≡ allow) × IsFatal self source turn body)
unfolding send_body
send_body_breaks_iff to_vec self source turn body (drop_it warned) st id i =
    (λ h. absurd (ground arith), λ h. absurd (ground (arith, h.0)))
send_body_breaks_iff to_vec self source turn body allow st id i =
    let (to, from) = compose_breaks_iff self source turn body st id i in
    elim (Flow-cases (compose self source turn body st)) [
      | inl (m, st', c) ↦
          rw (c, send_body)
            (
              λ h. absurd (let d = deliver_survives to_vec self source turn m st' in ground arith),
              λ h. absurd (let k = rw c at (from h.1) in ground arith),
            )
      | inr (inl (st', c)) ↦
          rw (c, send_body)
            (λ h. absurd (ground arith), λ h. absurd (let k = rw c at (from h.1) in ground arith))
      | inr (inr (e, st', c)) ↦ rw (c, send_body) (λ h. (refl, to (rw c refl)), λ h. refl)
    ]

-- The line is not empty, is within the rate, and is fatal.
abbrev pub IsFatalLine : Self → Turn → Sender → Str → InputSource → Type 0
IsFatalLine self turn st line source =
    (is_empty (trim_newlines line) ≡ false)
    × ((check_and_record st.send_rate_limiter self.pubkey turn.checked_ms).0 ≡ allow)
    × IsFatal self source turn (trim_newlines line)

abbrev HasFatalLine : SendEvent → Self → Turn → Sender → Type 0
HasFatalLine event self turn st =
    (line : Str) × (source : InputSource) × (event ≡ input (some line) source)
    × IsFatalLine self turn st line source

input_fatal :
    (self : Self) (turn : Turn) (st : Sender) (line : Str) (source : InputSource)
    → HasFatalLine (input (some line) source) self turn st
    → IsFatalLine self turn st line source
input_fatal self turn st line source (line', source', e, f) =
    let same_line : line' ≡ line = ground arith in
    let same_source : source' ≡ source = ground arith in
    subst (IsFatalLine self turn st line) same_source
      (subst (λ l. IsFatalLine self turn st l source') same_line f)

event_breaks_iff :
    (to_vec : Message → Option Str) (self : Self) (event : SendEvent) (turn : Turn) (st : Sender)
    (id : Str)
    → normalize_ulid turn.new_ulid ≡ ok id
    → (is_broken (round to_vec self (record turn { event = event }) st) ≡ true)
      ↔ HasFatalLine event self turn st
unfolding round send_line
event_breaks_iff to_vec self keepalive turn st id i =
    (λ h. absurd (ground arith), λ h. absurd (ground (arith, h.2)))
event_breaks_iff to_vec self watchdog turn st id i =
    (λ h. absurd (ground arith), λ h. absurd (ground (arith, h.2)))
event_breaks_iff to_vec self (input none local) turn st id i =
    (λ h. absurd (ground arith), λ h. absurd (ground (arith, h.2)))
event_breaks_iff to_vec self (input none mcp) turn st id i =
    (λ h. absurd (ground arith), λ h. absurd (ground (arith, h.2)))
event_breaks_iff to_vec self (input (some line) source) turn st id i =
    let body = trim_newlines line in
    let (decision, limiter) = check_and_record st.send_rate_limiter self.pubkey turn.checked_ms in
    let (to, from) =
      send_body_breaks_iff to_vec self source turn body decision
        (record st { send_rate_limiter = limiter }) id i in
    elim (Bool-cases (is_empty body)) [
      | inl nil ↦
          rw (nil, send_line)
            (
              λ h. absurd (ground arith),
              λ h. absurd (let f = input_fatal self turn st line source h in ground (arith, f.0)),
            )
      | inr text ↦
          rw (text, send_line)
            (
              λ h. (line, source, refl, (let t = to h in (text, t.0, t.1))),
              λ h. let f = input_fatal self turn st line source h in from (f.1, f.2),
            )
    ]

-- Where the fresh id is a ULID, a round of the loop ends the session with an error exactly if it is
-- given a line, from the keyboard or from the socket, that is not empty and is within the rate, and
-- that is a plain line over 8 KiB or is to go out under a nickname that is not valid, be it a plain
-- line or a drop that has been built.
pub round_breaks_iff :
    (to_vec : Message → Option Str) (self : Self) (turn : Turn) (st : Sender) (id : Str)
    → normalize_ulid turn.new_ulid ≡ ok id
    → (is_broken (round to_vec self turn st) ≡ true) ↔ (
        (line : Str) × (source : InputSource) × (turn.event ≡ input (some line) source)
        × IsFatalLine self turn st line source)
round_breaks_iff to_vec self turn st id i = event_breaks_iff to_vec self turn.event turn st id i

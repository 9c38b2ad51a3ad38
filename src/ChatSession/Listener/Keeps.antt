-- ===== src/ChatSession/Listener/Keeps.antt =====
-- What a run of the listener leaves in the log and among the mentions.
use minara_connect.Base.{
  ◌≡◌, refl, sym, ap, subst, ◌∙◌, inl, inr, Bool, true, false, not, ◌&&◌, Option, none, some, List,
  [], ◌∷◌, ◌++◌, All, if◌then◌else◌, Str, str_eq, ok, Bool-cases, Result-cases, ℤ,
}
use minara_connect.Message.{Message, from_wire_bytes, kind_keepalive}
use minara_connect.RateLimit.{RateLimiter, RateLimitDecision, allow, drop_it, check_and_record}
use minara_connect.LogIo.{read_since}
use minara_connect.LogIo.Lines.{IsLog}
use minara_connect.LogIo.ReadBack.{IsEncoded}
use minara_connect.ChatSession.{is_file_drop}
use minara_connect.ChatSession.Listener.Steps.{Keeps, Keeps-nothing, Keeps-append, keep-Keeps}
use minara_connect.ChatSession.Listener.Kept.{
  from_others, is_kept, kept, mentions_in, IsForeign, kept-IsForeign,
}
use minara_connect.ChatSession.Listener.{
  GossipEvent, failed, neighbour, received, Arrival, Listener, Setup, admit, receive, handle_event,
  listen,
}

-- Whatever of the events is received has a JSON text of one line that parses back.
abbrev pub AreEncoded : (Str → Option Message) → (Message → Option Str) → List Arrival → Type 0
AreEncoded from_slice to_vec arrivals =
    All
      (λ arrival.
        (payload : Str) (m : Message)
        → arrival.event ≡ received payload
        → from_wire_bytes from_slice payload ≡ ok m
        → IsEncoded from_slice to_vec m)
      arrivals

module _ (from_slice : Str → Option Message) (to_vec : Message → Option Str)
    (fetch index_ok : Message → Bool) (setup : Setup) where
  -- What an event adds, and the limiter after it.
  record Handles (arrival : Arrival) (arrivals : List Arrival) (st st' : Listener) : Type 0 where
    new_messages : List Message
    keeps : Keeps from_slice setup new_messages st st'
    rest :
        kept from_slice fetch setup.our_pubkey (arrival ∷ arrivals) st.rate_limiter
        ≡ new_messages ++ kept from_slice fetch setup.our_pubkey arrivals st'.rate_limiter

  admit-Keeps :
      (m : Message) (decision : RateLimitDecision) (st : Listener) (payload : Str)
      → IsLog st.log
      → IsEncoded from_slice to_vec m
      → from_wire_bytes from_slice payload ≡ ok m
      → let st' = admit to_vec fetch index_ok setup m decision st in
        Keeps from_slice setup (if is_kept fetch decision m then m ∷ [] else []) st st'
        × (st'.rate_limiter ≡ st.rate_limiter)
  unfolding admit
  admit-Keeps m (drop_it true) st payload l e taken =
      (Keeps-nothing from_slice setup st _ l refl refl, refl)
  admit-Keeps m (drop_it false) st payload l e taken =
      (Keeps-nothing from_slice setup st _ l refl refl, refl)
  admit-Keeps m allow st payload l e taken = elim (Bool-cases (is_file_drop m && not (fetch m))) [
    | inl missing ↦ rw missing (Keeps-nothing from_slice setup st _ l refl refl, refl)
    | inr there ↦ rw there (keep-Keeps from_slice to_vec index_ok setup m st payload l e taken)
  ]

  kept-none :
      (arrival : Arrival) (arrivals : List Arrival) (limiter : RateLimiter)
      → from_others from_slice fetch setup.our_pubkey arrival.event ≡ none
      → kept from_slice fetch setup.our_pubkey (arrival ∷ arrivals) limiter
        ≡ kept from_slice fetch setup.our_pubkey arrivals limiter
  unfolding kept
  kept-none arrival arrivals limiter e = rw (e, kept) refl

  kept-some :
      (arrival : Arrival) (arrivals : List Arrival) (limiter : RateLimiter) (m : Message)
      → from_others from_slice fetch setup.our_pubkey arrival.event ≡ some m
      → let (decision, after) = check_and_record limiter m.author arrival.checked_ms in
        kept from_slice fetch setup.our_pubkey (arrival ∷ arrivals) limiter
        ≡ (if is_kept fetch decision m then m ∷ [] else [])
          ++ kept from_slice fetch setup.our_pubkey arrivals after
  unfolding kept
  kept-some arrival arrivals limiter m e =
      elim (Bool-cases (is_kept fetch (check_and_record limiter m.author arrival.checked_ms).0 m)) [
        | inl k ↦ rw (e, kept) (rw k refl)
        | inr k ↦ rw (e, kept) (rw k refl)
      ]

  -- An event that adds nothing.
  Handles-nothing :
      (arrival : Arrival) (arrivals : List Arrival) (st st' : Listener)
      → from_others from_slice fetch setup.our_pubkey arrival.event ≡ none
      → IsLog st.log
      → st'.log ≡ st.log
      → st'.mentions ≡ st.mentions
      → st'.rate_limiter ≡ st.rate_limiter
      → Handles arrival arrivals st st'
  Handles-nothing arrival arrivals st st' n l e f g = record {
    new_messages = [];
    keeps = Keeps-nothing from_slice setup st st' l e f;
    rest =
        kept-none arrival arrivals st.rate_limiter n
        ∙ ap (kept from_slice fetch setup.our_pubkey arrivals) (sym g);
  }

  receive-Handles :
      (payload : Str) (seen checked : ℤ) (arrivals : List Arrival) (st : Listener) (m : Message)
      → IsLog st.log
      → IsEncoded from_slice to_vec m
      → from_wire_bytes from_slice payload ≡ ok m
      → Handles
          (record { event = received payload; seen_ms = seen; checked_ms = checked })
          arrivals
          st
          (receive to_vec fetch index_ok setup m checked (record st { mesh_health = seen }))
  unfolding receive from_others
  receive-Handles payload seen checked arrivals st m l e taken =
      let arrival : Arrival = record {
        event = received payload;
        seen_ms = seen;
        checked_ms = checked;
      } in
      elim (Bool-cases (str_eq m.author setup.our_pubkey)) [
        | inl own ↦ rw own (
            Handles-nothing arrival arrivals st _ (rw (taken, from_others) (rw own refl)) l refl
              refl refl)
        | inr other ↦ elim (Bool-cases (str_eq m.kind kind_keepalive)) [
          | inl beat ↦
              rw (other, beat)
                (Handles-nothing arrival arrivals st _
                  (rw (taken, from_others) (rw (other, beat) refl)) l refl refl refl)
          | inr text ↦
              let (decision, after) = check_and_record st.rate_limiter m.author checked in
              let heard = record st { mesh_health = seen; rate_limiter = after } in
              let (k, r) = admit-Keeps m decision heard payload l e taken in
              rw (other, text)
                (record {
                  new_messages = if is_kept fetch decision m then m ∷ [] else [];
                  keeps = record { is_log = k.is_log; reads = k.reads; wakes_with = k.wakes_with };
                  rest =
                      kept-some arrival arrivals st.rate_limiter m
                        (rw (taken, from_others) (rw (other, text) refl))
                      ∙ ap
                          (λ x.
                            (if is_kept fetch decision m then m ∷ [] else [])
                            ++ kept from_slice fetch setup.our_pubkey arrivals x)
                          (sym r);
                })
        ]
      ]

  event-Handles :
      (event : GossipEvent) (seen checked : ℤ) (arrivals : List Arrival) (st : Listener)
      → IsLog st.log
      → ((payload : Str) (m : Message)
          → event ≡ received payload
          → from_wire_bytes from_slice payload ≡ ok m
          → IsEncoded from_slice to_vec m)
      → let arrival : Arrival = record { event = event; seen_ms = seen; checked_ms = checked } in
        Handles arrival arrivals st (handle_event from_slice to_vec fetch index_ok setup arrival st)
  unfolding handle_event from_others
  event-Handles failed seen checked arrivals st l enc =
      Handles-nothing _ arrivals st _ refl l refl refl refl
  event-Handles neighbour seen checked arrivals st l enc =
      Handles-nothing _ arrivals st _ refl l refl refl refl
  event-Handles (received payload) seen checked arrivals st l enc =
      elim (Result-cases (from_wire_bytes from_slice payload)) [
        | inr (x, e) ↦
            rw (e, handle_event)
              (Handles-nothing _ arrivals st _ (rw (e, from_others) refl) l refl refl refl)
        | inl (m, e) ↦
            rw (e, handle_event)
              (receive-Handles payload seen checked arrivals st m l (enc payload m refl e) e)
      ]

  listen-Keeps :
      (arrivals : List Arrival) (st : Listener)
      → IsLog st.log
      → AreEncoded from_slice to_vec arrivals
      → Keeps from_slice setup
          (kept from_slice fetch setup.our_pubkey arrivals st.rate_limiter)
          st
          (listen from_slice to_vec fetch index_ok setup arrivals st)
  unfolding listen kept
  listen-Keeps [] st l enc = Keeps-nothing from_slice setup st st l refl refl
  listen-Keeps (arrival ∷ arrivals) st l enc =
      let h = event-Handles arrival.event arrival.seen_ms arrival.checked_ms arrivals st l enc.0 in
      let later =
        listen-Keeps arrivals (handle_event from_slice to_vec fetch index_ok setup arrival st)
          h.keeps.is_log enc.1 in
      subst
        (λ ms.
          Keeps from_slice setup ms st
            (listen from_slice to_vec fetch index_ok setup (arrival ∷ arrivals) st))
        (sym h.rest) (Keeps-append from_slice setup h.keeps later)

  -- Where the log is a log, and what is received has a JSON text of one line that parses back:
  -- after any events, the log holds what it held and then the messages that were kept, which
  -- `from_wire_bytes` accepts, by others, no heartbeats, within the rate and with their files; and the mentions sent
  -- are those that were sent and then the ones among the messages kept. Among the kept are also a
  -- message whose id is in the log already, and one whose author is not the node that delivers it:
  -- the listener compares neither, where PROTOCOL.md asks to drop both.
  pub listen_lem :
      (arrivals : List Arrival) (st : Listener)
      → IsLog st.log
      → AreEncoded from_slice to_vec arrivals
      → let st' = listen from_slice to_vec fetch index_ok setup arrivals st in
        let new_messages = kept from_slice fetch setup.our_pubkey arrivals st.rate_limiter in
        IsLog st'.log
        × (read_since from_slice st'.log none ≡ read_since from_slice st.log none ++ new_messages)
        × (st'.mentions.tx ≡ st.mentions.tx ++ mentions_in setup new_messages)
        × All (IsForeign setup.our_pubkey) new_messages
  listen_lem arrivals st l enc =
      let k = listen-Keeps arrivals st l enc in
      (
        k.is_log,
        k.reads,
        k.wakes_with,
        kept-IsForeign from_slice fetch setup.our_pubkey arrivals st.rate_limiter,
      )

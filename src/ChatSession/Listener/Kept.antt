-- ===== src/ChatSession/Listener/Kept.antt =====
-- The messages that a run of the listener keeps, said of the events alone.
use minara_connect.Base.{
  ◌≡◌, ◌≢◌, subst, inl, inr, Bool, true, false, not, ◌&&◌, Option, none, some, List, [], ◌∷◌, All,
  arith, if◌then◌else◌, Str, str_eq, str_eq_iff, ok, err, Bool-cases, Result-cases, Option-cases,
}
use minara_connect.Message.{Message, from_wire_bytes, kind_keepalive}
use minara_connect.RateLimit.{RateLimiter, RateLimitDecision, allow, drop_it, check_and_record}
use minara_connect.Message.Wire.{IsAccepted, received-IsAccepted}
use minara_connect.ChatSession.{is_file_drop}
use minara_connect.ChatSession.Mentions.{MentionEvent}
use minara_connect.ChatSession.Listener.{
  GossipEvent, failed, neighbour, received, Arrival, Setup, wakes, mention_of,
}

-- Its author is within the rate, and its file, if it drops one, can be fetched.
abbrev pub is_kept : (Message → Bool) → RateLimitDecision → Message → Bool
is_kept fetch (drop_it warned) m = false
is_kept fetch allow m = not (is_file_drop m && not (fetch m))

module _ (from_slice : Str → Option Message) (fetch : Message → Bool) (our_pubkey : Str) where
  -- the message of an event, if it has one that is valid, by another author, and no heartbeat
  unfoldable pub from_others : GossipEvent → Option Message
  from_others failed = none
  from_others neighbour = none
  from_others (received payload) = elim (from_wire_bytes from_slice payload) [
    | err e ↦ none
    | ok m ↦
        if str_eq m.author our_pubkey
        then none
        else if str_eq m.kind kind_keepalive
        then none
        else some m
  ]

  -- the messages that a run keeps
  unfoldable pub kept : List Arrival → RateLimiter → List Message
  kept [] limiter = []
  kept (arrival ∷ arrivals) limiter = elim (from_others arrival.event) [
    | none ↦ kept arrivals limiter
    | some m ↦
        let (decision, after) = check_and_record limiter m.author arrival.checked_ms in
        elim (is_kept fetch decision m) [
          | true ↦ m ∷ kept arrivals after
          | false ↦ kept arrivals after
        ]
  ]

-- by another author, no heartbeat, and accepted by `from_wire_bytes`
abbrev pub IsForeign : Str → Message → Type 0
IsForeign our_pubkey m = (m.author ≢ our_pubkey) × (m.kind ≢ kind_keepalive) × IsAccepted m

-- the mentions that a list of messages wakes a caller with
unfoldable pub mentions_in : Setup → List Message → List MentionEvent
mentions_in setup [] = []
mentions_in setup (m ∷ ms) =
    let rest = mentions_in setup ms in if wakes setup m then mention_of m ∷ rest else rest

module _ (from_slice : Str → Option Message) (fetch : Message → Bool) (our_pubkey : Str) where
  from_others-IsForeign :
      (event : GossipEvent) (m : Message)
      → from_others from_slice fetch our_pubkey event ≡ some m
      → IsForeign our_pubkey m
  unfolding from_others
  from_others-IsForeign failed m h = absurd (ground arith)
  from_others-IsForeign neighbour m h = absurd (ground arith)
  from_others-IsForeign (received payload) m h =
      elim (Result-cases (from_wire_bytes from_slice payload)) [
        | inr (x, e) ↦ absurd (let h' = rw (e, from_others) at h in ground arith)
        | inl (n, e) ↦
            let h' = rw (e, from_others) at h in
            let same : n ≡ m = ground arith in
            subst (IsForeign our_pubkey) same (
              (λ x. absurd (ground (arith, str_eq_iff n.author our_pubkey))),
              (λ x. absurd (ground (arith, str_eq_iff n.kind kind_keepalive))),
              (received-IsAccepted from_slice payload n e),
            )
      ]

  pub kept-IsForeign :
      (arrivals : List Arrival) (limiter : RateLimiter)
      → All (IsForeign our_pubkey) (kept from_slice fetch our_pubkey arrivals limiter)
  unfolding kept
  kept-IsForeign [] limiter = tt
  kept-IsForeign (arrival ∷ arrivals) limiter =
      elim (Option-cases (from_others from_slice fetch our_pubkey arrival.event)) [
        | inl e ↦ rw (e, kept) (kept-IsForeign arrivals limiter)
        | inr (m, e) ↦
            let (decision, after) = check_and_record limiter m.author arrival.checked_ms in
            elim (Bool-cases (is_kept fetch decision m)) [
              | inl k ↦
                  rw (e, kept)
                    (rw k (from_others-IsForeign arrival.event m e, kept-IsForeign arrivals after))
              | inr k ↦ rw (e, kept) (rw k (kept-IsForeign arrivals after))
            ]
      ]

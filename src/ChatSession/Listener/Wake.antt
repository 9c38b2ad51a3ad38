-- ===== src/ChatSession/Listener/Wake.antt =====
-- Whom the listener wakes a waiting caller for.
use minara_connect.Base.{
  ◌≡◌, subst, sym, inl, inr, Bool, true, false, Option, List, [], ◌∷◌, All, All-append, arith, Str,
  str, ends_with, Bool-cases,
}
use minara_connect.Message.{Message}
use minara_connect.LogIo.Lines.{IsLog}
use minara_connect.ChatSession.{line_mentions_me}
use minara_connect.ChatSession.Mentions.{MentionEvent}
use minara_connect.ChatSession.Listener.{Arrival, Listener, Setup, wakes, listen}
use minara_connect.ChatSession.Listener.Kept.{kept, mentions_in}
use minara_connect.ChatSession.Listener.Keeps.{AreEncoded, listen_lem}

-- A mention of this user, by someone who is no embedded AI, where peers may wake it at all.
pub record IsWake (setup : Setup) (ev : MentionEvent) : Type 0 where
  pub peers_may : setup.owner_only ≡ false
  pub mentions_me : line_mentions_me ev.body setup.self_nick ≡ true
  pub by_no_ai : ends_with ev.nick (str "-cc") ≡ false

mentions_in-IsWake : (setup : Setup) (ms : List Message) → All (IsWake setup) (mentions_in setup ms)
unfolding mentions_in
mentions_in-IsWake setup [] = tt
mentions_in-IsWake setup (m ∷ ms) = elim (Bool-cases (wakes setup m)) [
  | inr e ↦ rw e (mentions_in-IsWake setup ms)
  | inl e ↦ rw e (
    record { peers_may = ground arith; mentions_me = ground arith; by_no_ai = ground arith },
    mentions_in-IsWake setup ms,
  )
]

module _ (from_slice : Str → Option Message) (to_vec : Message → Option Str)
    (fetch index_ok : Message → Bool) (setup : Setup) where
  -- Where the log is a log, and what is received has a JSON text of one line that parses back: if
  -- every mention sent so far is one of this user by no AI, with peers free to wake it, so is every
  -- mention after any events.
  pub listen-IsWake :
      (arrivals : List Arrival) (st : Listener)
      → IsLog st.log
      → AreEncoded from_slice to_vec arrivals
      → All (IsWake setup) st.mentions.tx
      → All (IsWake setup) (listen from_slice to_vec fetch index_ok setup arrivals st).mentions.tx
  listen-IsWake arrivals st l enc h =
      let (log, reads, sent, foreign) =
        listen_lem from_slice to_vec fetch index_ok setup arrivals st l enc in
      subst (All (IsWake setup)) (sym sent) (
        All-append (IsWake setup) st.mentions.tx _ h (
          mentions_in-IsWake setup
            (kept from_slice fetch setup.our_pubkey arrivals st.rate_limiter)))

-- ===== src/ChatSession/Delivery.antt =====
-- A line from one session to another: the send loop of the one and the listener of the other.
use minara_connect.Base.{
  ◌≡◌, ◌≢◌, refl, sym, ap, subst, ◌∙◌, arith, Bool, true, Option, none, [], ◌∷◌, ◌++◌, Str, ok, ℤ,
}
use minara_connect.Message.{Message, to_canonical_json}
use minara_connect.Message.Sent.{Built-is_received}
use minara_connect.RateLimit.{allow, check_and_record}
use minara_connect.LogIo.{read_since}
use minara_connect.LogIo.Lines.{IsLog}
use minara_connect.LogIo.ReadBack.{IsEncoded, append_reads_back}
use minara_connect.ChatSession.{incoming, line_mentions_me, nick_short, shown_body}
use minara_connect.ChatSession.Sender.{InputSource, Turn, Sender, Self, next_round, round}
use minara_connect.ChatSession.Sender.Typed.{IsPlain, message_of, message_of-Built, plain-IsSent}
use minara_connect.ChatSession.Listener.{received, Arrival, Listener, Setup, handle_event}
use minara_connect.ChatSession.Listener.Shown.{chat_is_shown}

-- The message is behind what could be read from the log before.
abbrev pub IsAdded : (Str → Option Message) → Message → Str → Str → Type 0
IsAdded from_slice m log log' =
    read_since from_slice log' none ≡ read_since from_slice log none ++ m ∷ []

module _ (from_slice : Str → Option Message) (to_vec : Message → Option Str)
    (fetch index_ok : Message → Bool) where
  -- A plain line that is not empty, within the size cap and the rates of both sides, under a valid
  -- nickname, by another user than the receiver, and whose message has a JSON text of one line that
  -- parses back: the sender broadcasts that text and goes on, and once the receiver has it, the
  -- message can be read at the end of both logs, and the receiver sees it with its author's nickname.
  -- Nothing is asked of the ids in the receiver's log, nor of the node that delivers the text: a
  -- message whose id is in that log is there twice then, where PROTOCOL.md asks to drop it, and one
  -- with an author other than the node that delivers it is taken too.
  pub line_arrives :
      (self : Self) (source : InputSource) (turn : Turn) (line id : Str) (st : Sender)
      (setup : Setup) (seen_ms checked_ms : ℤ) (peer : Listener)
      → IsLog st.log
      → IsLog peer.log
      → IsPlain self source turn line id st
      → (enc : IsEncoded from_slice to_vec (message_of self source turn line id))
      → turn.broadcast_ok ≡ true
      → self.pubkey ≢ setup.our_pubkey
      → (check_and_record peer.rate_limiter self.pubkey checked_ms).0 ≡ allow
      → let m = message_of self source turn line id in
        let arrival : Arrival = record {
          event = received enc.text;
          seen_ms = seen_ms;
          checked_ms = checked_ms;
        } in
        let peer' = handle_event from_slice to_vec fetch index_ok setup arrival peer in
        (st' : Sender) × (round to_vec self turn st ≡ next_round st')
        × (st'.sent ≡ st.sent ++ enc.text ∷ [])
        × IsAdded from_slice m st.log st'.log
        × IsAdded from_slice m peer.log peer'.log
        × (peer'.shown
            ≡ peer.shown
              ++ incoming
                  (nick_short m)
                  (shown_body m)
                  (line_mentions_me (shown_body m) setup.self_nick)
                ∷ [])
  line_arrives self source turn line id st setup seen_ms checked_ms peer l k p enc up other within =
      let m = message_of self source turn line id in
      let built = message_of-Built self source turn line id st p in
      let (st', r, s) = plain-IsSent from_slice to_vec self source turn line id st l p enc up in
      let json : to_canonical_json to_vec m ≡ ok enc.text =
        unfold to_canonical_json in rw enc.encodes refl in
      let same : s.bytes ≡ enc.text = let q = sym s.encodes ∙ json in ground arith in
      let taken = Built-is_received from_slice to_vec m enc.text built json (λ h. enc.parses) in
      let (log, a, is_log, reads) = append_reads_back from_slice to_vec peer.log m k built enc in
      let arrival : Arrival = record {
        event = received enc.text;
        seen_ms = seen_ms;
        checked_ms = checked_ms;
      } in
      let (in_log, shown) =
        chat_is_shown from_slice to_vec fetch index_ok setup arrival enc.text log m peer refl taken
          other refl within a in
      (
        st',
        r,
        s.sent_lem ∙ ap (λ b. st.sent ++ b ∷ []) same,
        s.reads,
        subst (IsAdded from_slice m peer.log) (sym in_log) reads,
        shown,
      )

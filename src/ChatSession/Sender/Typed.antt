-- ===== src/ChatSession/Sender/Typed.antt =====
-- A plain line from its entry to its broadcast.
use minara_connect.Base.{
  ◌≡◌, ◌≤◌, refl, ap, ◌∙◌, inl, inr, arith, true, false, Option, none, some, [], ◌∷◌, ◌++◌,
  Bool-cases, Str, str, starts_with, is_empty, length, ok, ◌==◌,
}
use minara_connect.Message.{Message, body_max_bytes, normalize_ulid, to_canonical_json}
use minara_connect.Message.Accepted.{IsNickOption}
use minara_connect.Message.Sent.{Built, chat, nicked}
use minara_connect.Message.New.{chat_message, new-ok, with_nick-ok}
use minara_connect.RateLimit.{allow, check_and_record}
use minara_connect.LogIo.{read_since}
use minara_connect.LogIo.Lines.{IsLog}
use minara_connect.LogIo.ReadBack.{IsEncoded, append_reads_back, append_lem}
use minara_connect.ChatSession.Sender.{
  InputSource, input, Turn, Sender, Self, go, next_round, trim_newlines, nick_for_msg, strip_drop,
  compose_chat, compose, wake_own, broadcast, deliver, send_body, send_line, round, index_own, show,
  echo_line,
}
use minara_connect.ChatSession.Sender.Lines.{index_own-same, wake_own-same}

-- A line of text, within the size cap and the rate, by someone whose nickname is valid.
pub record IsPlain (self : Self) (source : InputSource) (turn : Turn) (line id : Str) (st : Sender)
    : Type 0 where
  pub is_input : turn.event ≡ input (some line) source
  pub is_id : normalize_ulid turn.new_ulid ≡ ok id
  pub has_text : is_empty (trim_newlines line) ≡ false
  pub no_command : starts_with (trim_newlines line) (str "/") ≡ false
  pub fits : length (trim_newlines line) ≤ body_max_bytes
  pub is_nick : IsNickOption (nick_for_msg self source)
  pub within_rate : (check_and_record st.send_rate_limiter self.pubkey turn.checked_ms).0 ≡ allow

-- the message that the line becomes
abbrev pub message_of : Self → InputSource → Turn → Str → Str → Message
message_of self source turn line id =
    record (chat_message id self.pubkey turn.now_ms (trim_newlines line)) {
      nick = nick_for_msg self source;
    }

pub no_command-no_drop : (body : Str) → starts_with body (str "/") ≡ false → strip_drop body ≡ none
unfolding starts_with
no_command-no_drop [] h = refl
no_command-no_drop (b ∷ body) h = elim (Bool-cases (b == b'/')) [
  | inl e ↦ absurd (let h' = rw e at h in ground arith)
  | inr e ↦ rw e refl
]

compose_plain :
    (self : Self) (source : InputSource) (turn : Turn) (line id : Str) (st0 st : Sender)
    → IsPlain self source turn line id st0
    → compose self source turn (trim_newlines line) st
      ≡ go
          (message_of self source turn line id)
          (show (echo_line self source (trim_newlines line)) st)
unfolding compose compose_chat
compose_plain self source turn line id st0 st p =
    let body = trim_newlines line in
    let made = new-ok turn.new_ulid id self.pubkey turn.now_ms body p.is_id p.fits in
    let nicked =
      with_nick-ok (chat_message id self.pubkey turn.now_ms body) (nick_for_msg self source)
        p.is_nick in
    rw (no_command-no_drop body p.no_command, p.no_command, made, nicked, compose, compose_chat)
      refl

pub message_of-Built :
    (self : Self) (source : InputSource) (turn : Turn) (line id : Str) (st : Sender)
    → IsPlain self source turn line id st
    → Built (message_of self source turn line id)
message_of-Built self source turn line id st p =
    let body = trim_newlines line in
    let nick = nick_for_msg self source in
    nicked nick
      (chat turn.new_ulid self.pubkey turn.now_ms body
        (new-ok turn.new_ulid id self.pubkey turn.now_ms body p.is_id p.fits))
      (with_nick-ok (chat_message id self.pubkey turn.now_ms body) nick p.is_nick)

module _ (from_slice : Str → Option Message) (to_vec : Message → Option Str) (self : Self) where
  -- What has come of a line that was sent.
  pub record IsSent (m : Message) (st st' : Sender) : Type 0 where
    pub bytes : Str
    pub encodes : to_canonical_json to_vec m ≡ ok bytes
    pub sent_lem : st'.sent ≡ st.sent ++ bytes ∷ []
    pub is_log : IsLog st'.log
    pub reads : read_since from_slice st'.log none ≡ read_since from_slice st.log none ++ m ∷ []

  deliver_plain :
      (source : InputSource) (turn : Turn) (m : Message) (st : Sender)
      → IsLog st.log
      → Built m
      → IsEncoded from_slice to_vec m
      → turn.broadcast_ok ≡ true
      → (st' : Sender) × (deliver to_vec self source turn m st ≡ next_round st') × IsSent m st st'
  unfolding deliver broadcast
  deliver_plain source turn m st l b enc up =
      let (log, a, is_log, reads) = append_reads_back from_slice to_vec st.log m l b enc in
      let (bytes, j, same) = append_lem from_slice to_vec st.log log m a in
      let logged = record st { log = log } in
      let woken = wake_own self source m logged in
      let indexed = index_own self turn m woken in
      let (w_log, w_sent) = wake_own-same self source m logged in
      let (i_log, i_sent, i_mentions) = index_own-same self turn m woken in
      (
        record indexed { sent = indexed.sent ++ bytes ∷ [] },
        rw (a, j, up, deliver, broadcast) refl,
        record {
          bytes = bytes;
          encodes = j;
          sent_lem = ap (λ x. x ++ bytes ∷ []) (i_sent ∙ w_sent);
          is_log = rw (i_log ∙ w_log) is_log;
          reads = rw (i_log ∙ w_log) reads;
        },
      )

  round-input :
      (source : InputSource) (turn : Turn) (line : Str) (st : Sender)
      → turn.event ≡ input (some line) source
      → round to_vec self turn st ≡ send_line to_vec self source turn line st
  unfolding round
  round-input source turn line st e = rw (e, round) refl

  -- A plain line within the caps goes out, and stands in the log.
  pub plain-IsSent :
      (source : InputSource) (turn : Turn) (line id : Str) (st : Sender)
      → IsLog st.log
      → IsPlain self source turn line id st
      → IsEncoded from_slice to_vec (message_of self source turn line id)
      → turn.broadcast_ok ≡ true
      → (st' : Sender) × (round to_vec self turn st ≡ next_round st')
        × IsSent (message_of self source turn line id) st st'
  unfolding round send_line send_body
  plain-IsSent source turn line id st l p enc up =
      let (decision, limiter) = check_and_record st.send_rate_limiter self.pubkey turn.checked_ms in
      let allowed = record st { send_rate_limiter = limiter } in
      let shown = show (echo_line self source (trim_newlines line)) allowed in
      let m = message_of self source turn line id in
      let built = message_of-Built self source turn line id st p in
      let (st', d, s) = deliver_plain source turn m shown l built enc up in
      (
        st',
        round-input source turn line st p.is_input
            ∙ rw
                (
                  p.has_text,
                  p.within_rate,
                  compose_plain self source turn line id st allowed p,
                  d,
                  send_line,
                  send_body,
                )
                refl,
        record {
          bytes = s.bytes;
          encodes = s.encodes;
          sent_lem = s.sent_lem;
          is_log = s.is_log;
          reads = s.reads;
        },
      )

-- ===== src/ChatSession/Listener/Shown.antt =====
-- A chat message from its arrival to the display.
use minara_connect.Base.{
  ◌≡◌, ◌≢◌, refl, arith, Bool, false, Option, [], ◌∷◌, ◌++◌, Str, str_eq, str_eq_iff, ok,
}
use minara_connect.Message.{Message, from_wire_bytes, kind_chat, kind_keepalive, kind_file_drop}
use minara_connect.RateLimit.{allow, check_and_record}
use minara_connect.LogIo.{append}
use minara_connect.ChatSession.{incoming, line_mentions_me, nick_short, shown_body}
use minara_connect.ChatSession.Listener.{
  received, Arrival, Listener, Setup, announce, index_file, keep, admit, receive, handle_event,
}

chat-ne :
    (m : Message)
    → m.kind ≡ kind_chat
    → (str_eq m.kind kind_keepalive ≡ false) × (str_eq m.kind kind_file_drop ≡ false)
unfolding str_eq
chat-ne m h = rw h (refl, refl)

module _ (from_slice : Str → Option Message) (to_vec : Message → Option Str)
    (fetch index_ok : Message → Bool) (setup : Setup) where
  -- A valid chat message of another author within the rate that can be appended to the log is appended,
  -- and is shown with its author's nickname and its text, and as a mention exactly if it is one.
  pub chat_is_shown :
      (arrival : Arrival) (payload log : Str) (m : Message) (st : Listener)
      → arrival.event ≡ received payload
      → from_wire_bytes from_slice payload ≡ ok m
      → m.author ≢ setup.our_pubkey
      → m.kind ≡ kind_chat
      → (check_and_record st.rate_limiter m.author arrival.checked_ms).0 ≡ allow
      → append to_vec st.log m ≡ ok log
      → let st' = handle_event from_slice to_vec fetch index_ok setup arrival st in
        (st'.log ≡ log)
        × (st'.shown
            ≡ st.shown
              ++ incoming
                  (nick_short m)
                  (shown_body m)
                  (line_mentions_me (shown_body m) setup.self_nick)
                ∷ [])
  unfolding handle_event receive admit keep announce index_file
  chat_is_shown arrival payload log m st e taken other chat within a =
      let not_own : str_eq m.author setup.our_pubkey ≡ false =
        ground (arith, str_eq_iff m.author setup.our_pubkey) in
      let (not_beat, not_drop) = chat-ne m chat in
      rw (e, taken, handle_event, receive)
        (rw (not_own, not_beat, within, not_drop, a, admit, keep) (rw not_drop (refl, refl)))

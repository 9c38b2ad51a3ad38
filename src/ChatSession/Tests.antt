-- ===== src/ChatSession/Tests.antt =====
-- A line that p1 types, as it reaches p2.
use minara_connect.Base.{
  ◌≡◌, ◌≢◌, refl, true, false, [], ◌∷◌, str, str_eq, str_eq_iff, arith, starts_with, pos,
}
use minara_connect.Message.Samples.{normalize_ulid-id, id, to_vec, from_slice}
use minara_connect.RateLimit.{check_and_record, evict}
use minara_connect.ChatSession.{incoming, line_mentions_me, nick_short, shown_body}
use minara_connect.ChatSession.Sender.{local, Sender, next_round, round, trim_newlines}
use minara_connect.ChatSession.Sender.Typed.{IsPlain, message_of}
use minara_connect.ChatSession.Listener.{handle_event}
use minara_connect.ChatSession.Delivery.{IsAdded, line_arrives}
use minara_connect.ChatSession.Samples.{
  text, hello-IsEncoded, p1, typed, sender, bob, listener, heard,
}
use minara_connect.LogIo.Samples.{broken_log, broken_log-IsLog}

typed-IsPlain : IsPlain p1 local typed (str "hello @bob\n") id sender
unfolding trim_newlines starts_with check_and_record evict
typed-IsPlain = record {
  is_input = refl;
  is_id = normalize_ulid-id;
  has_text = refl;
  no_command = refl;
  fits = omega arith;
  is_nick = tt;
  within_rate = refl;
}

other_user : p1.pubkey ≢ bob.our_pubkey
unfolding str_eq
other_user h =
    let k : false ≡ true = (str_eq_iff p1.pubkey bob.our_pubkey).1 h in absurd (ground arith)

line_arrives_example :
    let m = message_of p1 local typed (str "hello @bob\n") id in
    let peer' = handle_event from_slice to_vec (λ m. true) (λ m. true) bob heard listener in
    (st' : Sender) × (round to_vec p1 typed sender ≡ next_round st')
    × (st'.sent ≡ text ∷ [])
    × IsAdded from_slice m broken_log st'.log
    × IsAdded from_slice m broken_log peer'.log
    × (peer'.shown
        ≡ incoming (nick_short m) (shown_body m) (line_mentions_me (shown_body m) bob.self_nick)
          ∷ [])
unfolding trim_newlines check_and_record evict hello-IsEncoded
line_arrives_example =
    line_arrives from_slice to_vec (λ m. true) (λ m. true) p1 local typed (str "hello @bob\n") id
      sender bob (pos 1001) (pos 1001) listener broken_log-IsLog broken_log-IsLog typed-IsPlain
      hello-IsEncoded refl other_user refl

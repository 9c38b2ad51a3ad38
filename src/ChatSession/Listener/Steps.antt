-- ===== src/ChatSession/Listener/Steps.antt =====
-- What one step of the listener adds to the log and to the mentions.
use minara_connect.Base.{
  ◌≡◌, refl, sym, ap, ◌∙◌, inl, inr, Bool, Option, none, List, [], ◌∷◌, ◌++◌, append_assoc,
  append-nil, Str, ok, Bool-cases,
}
use minara_connect.Message.{Message, from_wire_bytes}
use minara_connect.LogIo.{read_since}
use minara_connect.LogIo.Lines.{IsLog}
use minara_connect.LogIo.ReadBack.{IsEncoded, append_received}
use minara_connect.ChatSession.{is_file_drop}
use minara_connect.ChatSession.Mentions.Ring.{tx-push}
use minara_connect.ChatSession.Listener.Kept.{mentions_in}
use minara_connect.ChatSession.Listener.{
  Listener, Setup, wakes, mention_of, announce, index_file, keep,
}

module _ (from_slice : Str → Option Message) (setup : Setup) where
  -- These messages are new in the log, and these mentions among those sent.
  pub record Keeps (ms : List Message) (st st' : Listener) : Type 0 where
    pub is_log : IsLog st'.log
    pub reads : read_since from_slice st'.log none ≡ read_since from_slice st.log none ++ ms
    pub wakes_with : st'.mentions.tx ≡ st.mentions.tx ++ mentions_in setup ms

  pub Keeps-nothing :
      (st st' : Listener)
      → IsLog st.log
      → st'.log ≡ st.log
      → st'.mentions ≡ st.mentions
      → Keeps [] st st'
  unfolding mentions_in
  Keeps-nothing st st' l e f = record {
    is_log = rw e l;
    reads = rw e (sym (append-nil (read_since from_slice st.log none)));
    wakes_with = rw f (sym (append-nil st.mentions.tx));
  }

  mentions_in-append :
      (ms ns : List Message)
      → mentions_in setup (ms ++ ns) ≡ mentions_in setup ms ++ mentions_in setup ns
  unfolding mentions_in
  mentions_in-append [] ns = refl
  mentions_in-append (a ∷ ms) ns = elim (Bool-cases (wakes setup a)) [
    | inl e ↦ rw e (ap (◌∷◌ (mention_of a)) (mentions_in-append ms ns))
    | inr e ↦ rw e (mentions_in-append ms ns)
  ]

  pub Keeps-append :
      {ms ns : List Message} {st st1 st2 : Listener}
      → Keeps ms st st1
      → Keeps ns st1 st2
      → Keeps (ms ++ ns) st st2
  Keeps-append {ms} {ns} {st} {st1} {st2} k l = record {
    is_log = l.is_log;
    reads =
        l.reads
        ∙ ap (λ x. x ++ ns) k.reads
        ∙ append_assoc (read_since from_slice st.log none) ms ns;
    wakes_with =
        l.wakes_with
        ∙ ap (λ x. x ++ mentions_in setup ns) k.wakes_with
        ∙ append_assoc st.mentions.tx (mentions_in setup ms) (mentions_in setup ns)
        ∙ ap (λ x. st.mentions.tx ++ x) (sym (mentions_in-append ms ns));
  }

module _ (from_slice : Str → Option Message) (to_vec : Message → Option Str)
    (index_ok : Message → Bool) (setup : Setup) where
  index_file-same :
      (m : Message) (st : Listener)
      → ((index_file index_ok setup m st).log ≡ st.log)
        × ((index_file index_ok setup m st).mentions ≡ st.mentions)
        × ((index_file index_ok setup m st).rate_limiter ≡ st.rate_limiter)
  unfolding index_file
  index_file-same m st = elim (Bool-cases (is_file_drop m)) [
    | inr e ↦ rw e (refl, refl, refl)
    | inl e ↦ elim (Bool-cases (index_ok m)) [
      | inl f ↦ rw (e, f) (refl, refl, refl)
      | inr f ↦ rw (e, f) (refl, refl, refl)
    ]
  ]

  announce-same :
      (m : Message) (st : Listener)
      → ((announce setup m st).log ≡ st.log)
        × ((announce setup m st).mentions.tx ≡ st.mentions.tx ++ mentions_in setup (m ∷ []))
        × ((announce setup m st).rate_limiter ≡ st.rate_limiter)
  unfolding announce mentions_in
  announce-same m st = elim (Bool-cases (wakes setup m)) [
    | inl e ↦ rw e (refl, tx-push (mention_of m) st.mentions, refl)
    | inr e ↦ rw e (refl, sym (append-nil st.mentions.tx), refl)
  ]

  pub keep-Keeps :
      (m : Message) (st : Listener) (payload : Str)
      → IsLog st.log
      → IsEncoded from_slice to_vec m
      → from_wire_bytes from_slice payload ≡ ok m
      → Keeps from_slice setup (m ∷ []) st (keep to_vec index_ok setup m st)
        × ((keep to_vec index_ok setup m st).rate_limiter ≡ st.rate_limiter)
  unfolding keep
  keep-Keeps m st payload l e taken =
      let (log, a, is_log, reads) = append_received from_slice to_vec st.log payload m l e taken in
      let indexed = index_file index_ok setup m (record st { log = log }) in
      let (i_log, i_mentions, i_rate) = index_file-same m (record st { log = log }) in
      let (a_log, a_mentions, a_rate) = announce-same m indexed in
      rw (a, keep)
        (
          record {
            is_log = rw (a_log, i_log) is_log;
            reads = rw (a_log, i_log) reads;
            wakes_with = a_mentions ∙ ap (λ x. x.tx ++ mentions_in setup (m ∷ [])) i_mentions;
          },
          a_rate ∙ i_rate,
        )

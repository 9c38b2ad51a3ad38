-- ===== src/Backfill/Merge.antt =====
-- crates/cc-connect/src/backfill.rs, attempt: what a joiner's log holds after the answer of a peer.
use mathlib.Core.List.{reverse, reverse-cons}
use minara_connect.Base.{
  ℕ, suc, ◌+◌, ◌≡◌, refl, sym, ap, ◌∙◌, inl, inr, Bool, true, false, not, ◌&&◌, Option, none, List,
  [], ◌∷◌, ◌++◌, map, All, append_assoc, append-nil, arith, ◌==◌, if◌then◌else◌, Str, ok,
  Bool-cases,
}
use minara_connect.Message.{Message}
use minara_connect.Message.Sent.{Built}
use minara_connect.LogIo.{read_since}
use minara_connect.LogIo.Lines.{IsLog}
use minara_connect.LogIo.ReadBack.{IsEncoded, append_reads_back}
use minara_connect.Backfill.{
  BackfillResponse, Filling, proto_v, is_spoof, is_known, is_missing, merge_messages, attempt,
}

module _ (fetch : Message → Bool) (self_pubkey : Str) (existing : List Str) where
  abbrev pub is_wanted : Message → Bool
  is_wanted m =
      not (is_spoof self_pubkey m) && (not (is_known existing m) && not (is_missing fetch m))

  -- the messages of an answer that are neither forged nor known nor without their file
  pub wanted : List Message → List Message
  wanted [] = []
  wanted (m ∷ ms) = let rest = wanted ms in if is_wanted m then m ∷ rest else rest

  -- the number of messages under the joiner's own key
  pub forged : List Message → ℕ
  forged [] = 0
  forged (m ∷ ms) = let rest = forged ms in if is_spoof self_pubkey m then suc rest else rest

  -- Every wanted message is by someone else and new.
  pub wanted-All :
      (ms : List Message)
      → All (λ m. (is_spoof self_pubkey m ≡ false) × (is_known existing m ≡ false)) (wanted ms)
  unfolding wanted
  wanted-All [] = tt
  wanted-All (m ∷ ms) = elim (Bool-cases (is_wanted m)) [
    | inl e ↦ rw e ((ground arith, ground arith), wanted-All ms)
    | inr e ↦ rw e (wanted-All ms)
  ]

module _ (from_slice : Str → Option Message) (to_vec : Message → Option Str)
    (fetch : Message → Bool) (self_pubkey : Str) where
  abbrev Good : Message → Type 0
  Good m = Built m × IsEncoded from_slice to_vec m

  -- What the loop has done with messages from where it stood.
  record IsMerged (existing : List Str) (ms : List Message) (st st' : Filling) : Type 0 where
    is_log : IsLog st'.log
    appends : reverse st'.appended ≡ reverse st.appended ++ wanted fetch self_pubkey existing ms
    drops : st'.spoof_dropped ≡ st.spoof_dropped + forged fetch self_pubkey existing ms
    reads :
        read_since from_slice st'.log none
        ≡ read_since from_slice st.log none ++ wanted fetch self_pubkey existing ms

  -- A message that is not wanted changes at most the count.
  IsMerged-skip :
      (existing : List Str) (m : Message) (ms : List Message) (st st' : Filling)
      → is_wanted fetch self_pubkey existing m ≡ false
      → IsMerged existing ms
          (record {
            log = st.log;
            appended = st.appended;
            spoof_dropped =
                (if is_spoof self_pubkey m then suc st.spoof_dropped else st.spoof_dropped);
          })
          st'
      → IsMerged existing (m ∷ ms) st st'
  unfolding wanted forged
  IsMerged-skip existing m ms st st' e k = record {
    is_log = k.is_log;
    appends = rw e k.appends;
    drops = let d = k.drops in ground arith;
    reads = rw e k.reads;
  }

  -- A wanted one is put behind both.
  IsMerged-append :
      (existing : List Str) (m : Message) (ms : List Message) (st st' : Filling) (log : Str)
      → is_wanted fetch self_pubkey existing m ≡ true
      → is_spoof self_pubkey m ≡ false
      → read_since from_slice log none ≡ read_since from_slice st.log none ++ m ∷ []
      → IsMerged existing ms (record st { log = log; appended = m ∷ st.appended }) st'
      → IsMerged existing (m ∷ ms) st st'
  unfolding wanted forged
  IsMerged-append existing m ms st st' log e own r k = record {
    is_log = k.is_log;
    appends = rw e (k.appends ∙ simp (reverse-cons, append_assoc));
    drops = let d = k.drops in ground arith;
    reads = rw e (
        k.reads
        ∙ (ap (λ x. x ++ wanted fetch self_pubkey existing ms) r
            ∙ append_assoc (read_since from_slice st.log none) (m ∷ [])
                (wanted fetch self_pubkey existing ms)));
  }

  merge_messages-IsMerged :
      (existing : List Str) (ms : List Message) (st : Filling)
      → All Good ms
      → IsLog st.log
      → (st' : Filling) × (merge_messages to_vec fetch self_pubkey existing ms st ≡ (st', ok tt))
        × IsMerged existing ms st st'
  unfolding merge_messages wanted forged
  merge_messages-IsMerged existing [] st good l = (
    st,
    refl,
    record {
      is_log = l;
      appends = sym (append-nil _);
      drops = omega arith;
      reads = sym (append-nil _);
    },
  )
  merge_messages-IsMerged existing (m ∷ ms) st good l = elim (Bool-cases (is_spoof self_pubkey m)) [
    | inl spoof ↦
        let (st', e, k) =
          merge_messages-IsMerged existing ms (record st { spoof_dropped = suc st.spoof_dropped })
            good.1 l in
        (
          st',
          rw (spoof, merge_messages) e,
          IsMerged-skip existing m ms st st' (ground arith) (rw spoof k),
        )
    | inr own ↦ elim (Bool-cases (is_known existing m)) [
      | inl known ↦
          let (st', e, k) = merge_messages-IsMerged existing ms st good.1 l in
          (
            st',
            rw (own, known, merge_messages) e,
            IsMerged-skip existing m ms st st' (ground arith) (rw own k),
          )
      | inr new ↦ elim (Bool-cases (is_missing fetch m)) [
        | inl missing ↦
            let (st', e, k) = merge_messages-IsMerged existing ms st good.1 l in
            (
              st',
              rw (own, new, missing, merge_messages) e,
              IsMerged-skip existing m ms st st' (ground arith) (rw own k),
            )
        | inr there ↦
            let (log, a, l', r) =
              append_reads_back from_slice to_vec st.log m l good.0.0 good.0.1 in
            let (st', e, k) =
              merge_messages-IsMerged existing ms
                (record st { log = log; appended = m ∷ st.appended }) good.1 l' in
            (
              st',
              rw (own, new, there, a, merge_messages) e,
              IsMerged-append existing m ms st st' log (ground arith) own r k,
            )
      ]
    ]
  ]

  -- An answer of this version, whose messages the program built and whose JSON is one line that
  -- parses back, fills a log that is empty or ends in a newline: the joiner appends
  -- those that are not under its own key, that it does not have and whose file it could fetch, in
  -- the order of the answer, behind all it had, and counts those under its own key. None of those
  -- appended is under its own key, and none has the id of a message that the log held before.
  -- The messages of one answer are not compared with each other: an id that the answer has twice is
  -- appended twice, where PROTOCOL.md asks to drop the second, and their order is not that of the
  -- ids unless the answer's is.
  pub attempt-fills :
      (log : Str) (response : BackfillResponse)
      → IsLog log
      → response.v ≡ proto_v
      → All (λ m. Built m × IsEncoded from_slice to_vec m) response.messages
      → let existing = map (λ m. m.id) (read_since from_slice log none) in
        let new_messages = wanted fetch self_pubkey existing response.messages in
        (st : Filling) × (attempt from_slice to_vec fetch self_pubkey log response ≡ (st, ok tt))
        × IsLog st.log
        × (reverse st.appended ≡ new_messages)
        × (read_since from_slice st.log none ≡ read_since from_slice log none ++ new_messages)
        × (st.spoof_dropped ≡ forged fetch self_pubkey existing response.messages)
        × All (λ m. (is_spoof self_pubkey m ≡ false) × (is_known existing m ≡ false)) new_messages
  unfolding attempt
  attempt-fills log response l v good =
      let existing = map (λ m. m.id) (read_since from_slice log none) in
      let version : (response.v == proto_v) ≡ true = ground arith in
      let (st, e, k) =
        merge_messages-IsMerged existing response.messages
          (record { log = log; appended = []; spoof_dropped = 0 }) good l in
      (
        st,
        rw version e,
        k.is_log,
        k.appends,
        k.reads,
        k.drops ∙ omega arith,
        wanted-All fetch self_pubkey existing response.messages,
      )

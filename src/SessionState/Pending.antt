-- ===== src/SessionState/Pending.antt =====
-- A pending join from its request to its acceptance.
use minara_connect.Base.{
  ℕ, ◌≡◌, ◌≢◌, refl, Option, none, some, arith, Str, str_eq_iff, str_eq_refl, ok, err, >>-eq-ok,
  not_found,
}
use minara_connect.SessionState.{
  PendingJoin, PendingDir, put, state_version, check_token, read_pending_join, create_pending_join,
  consume_pending_join,
}

module _ (parse : Str → Option PendingJoin) (print : PendingJoin → Str)
    (parse-print : (p : PendingJoin) → parse (print p) ≡ some p) where
  -- If a request has succeeded, and what is printed parses back, what was requested is what the
  -- human accepts: the same process, topic and ticket, under the
  -- token that the request returned. Accepting it takes it away, and so a second time finds
  -- nothing; other requests stay.
  pub create-consume :
      (dir dir' : PendingDir) (token token' : Str) (now pid : ℕ) (topic ticket : Str)
      → create_pending_join parse print dir token now pid topic ticket ≡ ok (token', dir')
      → (pj : PendingJoin) × (dir'' : PendingDir) × (token' ≡ token)
        × (consume_pending_join parse print dir' token ≡ ok (pj, dir''))
        × (pj.claude_pid ≡ pid)
        × (pj.topic ≡ topic)
        × (pj.ticket ≡ ticket)
        × (consume_pending_join parse print dir'' token ≡ err not_found)
        × ((t : Str) → t ≢ token → dir'' t ≡ dir t)
  unfolding create_pending_join consume_pending_join read_pending_join
  create-consume dir dir' token token' now pid topic ticket h =
      let pj : PendingJoin = record {
        v = state_version;
        token = token;
        claude_pid = pid;
        topic = topic;
        ticket = ticket;
        requested_at_ms = now;
      } in
      let (good, h1) = >>-eq-ok (check_token token) _ h in
      let is_token : token' ≡ token = ground arith in
      let is_dir : dir' ≡ put dir token (some (print pj)) = ground arith in
      let put_other : (t : Str)
          → t ≢ token
          → put (put dir token (some (print pj))) token none t ≡ dir t =
        λ t ne. ground (arith, str_eq_iff token t) in
      (
        pj,
        put dir' token none,
        is_token,
        rw (is_dir, good, str_eq_refl token, parse-print) refl,
        refl,
        refl,
        refl,
        rw (good, str_eq_refl token) refl,
        λ t ne. rw is_dir (put_other t ne),
      )

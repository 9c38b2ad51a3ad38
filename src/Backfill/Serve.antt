-- ===== src/Backfill/Serve.antt =====
-- crates/cc-connect/src/backfill.rs, handle_one: which messages a peer answers with.
use minara_connect.Base.{
  ◌≡◌, min, not, Option, none, List, ◌++◌, take, drop, take-append-drop, length-take, arith, ◌==◌,
  length, Str, ok, >>-eq-ok, bail_if,
}
use minara_connect.Message.{Message}
use minara_connect.LogIo.{read_since}
use minara_connect.LogIo.Lines.{after_cursor, read_since_cursor}
use minara_connect.Backfill.{
  BackfillRequest, BackfillResponse, proto_v, server_limit_cap, handle_one,
}

-- An answer to a request is the first of the logged messages with an id above the cursor, in the order
-- of the log, which is that of arrival: all of them, or as many as were asked for, but at most 50.
-- The answer is not sorted by id, as PROTOCOL.md asks it to be, and a request without a cursor gets
-- the first of the log, where PROTOCOL.md promises the latest.
pub handle_one_lem :
    (from_slice : Str → Option Message) (content : Str) (request : BackfillRequest)
    (response : BackfillResponse)
    → handle_one from_slice content request ≡ ok response
    → (unsent : List Message) × (response.messages ++ unsent
        ≡ after_cursor request.since (read_since from_slice content none))
      × (length response.messages
          ≡ min
              (min request.limit server_limit_cap)
              (length (after_cursor request.since (read_since from_slice content none))))
unfolding handle_one
handle_one_lem from_slice content request response h =
    let (good, h1) = >>-eq-ok (bail_if (not (request.v == proto_v)) _) _ h in
    let limit = min request.limit server_limit_cap in
    let all = after_cursor request.since (read_since from_slice content none) in
    let is_all : read_since from_slice content request.since ≡ all =
      read_since_cursor from_slice content request.since in
    let is_taken : response.messages ≡ take limit all =
      let taken : response.messages ≡ take limit (read_since from_slice content request.since) =
        ground arith in
      rw is_all at taken in
    (drop limit all, rw is_taken (take-append-drop limit all), rw is_taken (length-take limit all))

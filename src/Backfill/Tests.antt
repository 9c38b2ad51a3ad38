-- ===== src/Backfill/Tests.antt =====
-- A joiner with an empty log, and a peer that has one message.
use mathlib.Core.List.{reverse}
use minara_connect.Base.{
  ◌≡◌, refl, min, Bool, true, false, none, List, [], ◌∷◌, ◌++◌, map, All, take, length, arith, Str,
  str, str_eq, is_utf8, contains_byte, ok,
}
use minara_connect.Message.{Message}
use minara_connect.Message.Samples.{hello, hello-Built, to_vec, from_slice}
use minara_connect.LogIo.{read_since}
use minara_connect.LogIo.Lines.{IsLog, empty, after_cursor}
use minara_connect.LogIo.ReadBack.{IsEncoded}
use minara_connect.Backfill.{
  BackfillRequest, BackfillResponse, Filling, server_limit_cap, handle_one, is_spoof, is_known,
  attempt, write_length_prefixed, read_length_prefixed,
}
use minara_connect.Backfill.Serve.{handle_one_lem}
use minara_connect.Backfill.Merge.{wanted, forged, attempt-fills}
use minara_connect.Backfill.Frames.{read-write}

abbrev fetch : Message → Bool
fetch m = true

abbrev response : BackfillResponse
response = record { v = 1; messages = hello ∷ [] }

hello-IsEncoded : IsEncoded from_slice to_vec hello
unfolding is_utf8 contains_byte str_eq
hello-IsEncoded = record {
  text = str "{m}";
  encodes = refl;
  valid = refl;
  no_newline = refl;
  no_return = refl;
  ne_nil = refl;
  parses = refl;
}

attempt-fills_example :
    let existing = map (λ m. m.id) (read_since from_slice [] none) in
    let new_messages = wanted fetch (str "me") existing (hello ∷ []) in
    (st : Filling) × (attempt from_slice to_vec fetch (str "me") [] response ≡ (st, ok tt))
    × IsLog st.log
    × (reverse st.appended ≡ new_messages)
    × (read_since from_slice st.log none ≡ read_since from_slice [] none ++ new_messages)
    × (st.spoof_dropped ≡ forged fetch (str "me") existing (hello ∷ []))
    × All (λ m. (is_spoof (str "me") m ≡ false) × (is_known existing m ≡ false)) new_messages
attempt-fills_example =
    attempt-fills from_slice to_vec fetch (str "me") [] response empty refl
      ((hello-Built, hello-IsEncoded), tt)

abbrev request : BackfillRequest
request = record { v = 1; since = none; limit = 60 }

abbrev peer_log : Str
peer_log = str "x\n{m}\n"

abbrev answer : BackfillResponse
answer = record { v = 1; messages = take 50 (read_since from_slice peer_log none) }

served : handle_one from_slice peer_log request ≡ ok answer
unfolding handle_one
served = refl

handle_one_lem_example :
    (unsent : List Message) × (answer.messages ++ unsent
      ≡ after_cursor none (read_since from_slice peer_log none))
    × (length answer.messages
        ≡ min
            (min 60 server_limit_cap)
            (length (after_cursor none (read_since from_slice peer_log none))))
handle_one_lem_example = handle_one_lem from_slice peer_log request answer served

read-write_test :
    (frame : Str) × (write_length_prefixed (str "{}") ≡ ok frame)
    × (read_length_prefixed (frame ++ str "rest") ≡ ok (str "{}", str "rest"))
read-write_test = read-write (str "{}") (str "rest") (omega arith)

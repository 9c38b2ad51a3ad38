-- ===== src/Backfill.antt =====
-- crates/cc-connect/src/backfill.rs: the answer of a peer that is asked for history, what the joiner
-- does with it, and the frames between them. The streams are byte lists; the connection, the
-- time limit of an attempt and the debug log are outside. Fetching a blob is a parameter.
pub mod Tests
pub mod Serve
pub mod Merge
pub mod Frames
use minara_connect.Base.{
  ℕ, zero, suc, ◌+◌, ◌*◌, ◌/◌, ◌%◌, ◌^◌, min, Bool, true, false, not, ◌&&◌, Option, none, some,
  List, [], ◌∷◌, ◌++◌, any, take, drop, map, ◌==◌, ltb, if◌then◌else◌, length, Str, str_eq,
  is_empty, Result, ok, err, ◌>>=◌, ◌>>◌, bail_if, version_mismatch, frame_too_large, io_error,
}
use minara_connect.Message.{Message, kind_file_drop}
use minara_connect.LogIo.{append, read_since}

abbrev pub max_frame_bytes : ℕ
max_frame_bytes = 2 ^ 24

abbrev pub server_limit_cap : ℕ
server_limit_cap = 50

abbrev pub proto_v : ℕ
proto_v = 1

pub record BackfillRequest : Type 0 where
  pub v : ℕ
  pub since : Option Str
  pub limit : ℕ

pub record BackfillResponse : Type 0 where
  pub v : ℕ
  pub messages : List Message

-- `handle_one` from the parsed request to the response, over the content of the log
pub handle_one : (Str → Option Message) → Str → BackfillRequest → Result BackfillResponse
handle_one from_slice content request = do
  bail_if (not (request.v == proto_v)) version_mismatch
  let limit = min request.limit server_limit_cap
  let all = read_since from_slice content request.since
  ok (record { v = proto_v; messages = take limit all })

-- The log, what has been appended to it (the last one first) and the number of messages dropped.
pub record Filling : Type 0 where
  pub log : Str
  pub appended : List Message
  pub spoof_dropped : ℕ

abbrev pub is_spoof : Str → Message → Bool
is_spoof self_pubkey m = not (is_empty self_pubkey) && str_eq m.author self_pubkey

abbrev pub is_known : List Str → Message → Bool
is_known existing m = any (λ id. str_eq id m.id) existing

-- The arm for file drops: it fails if the blob cannot be fetched.
abbrev pub is_missing : (Message → Bool) → Message → Bool
is_missing fetch m = str_eq m.kind kind_file_drop && not (fetch m)

module _ (to_vec : Message → Option Str) (fetch : Message → Bool) (self_pubkey : Str)
    (existing : List Str) where
  -- The loop over the response. At an error it stops, with what has been written.
  pub merge_messages : List Message → Filling → Filling × Result (Unit {0})
  merge_messages [] st = (st, ok tt)
  merge_messages (m ∷ ms) st = elim (is_spoof self_pubkey m) [
    | true ↦ merge_messages ms (record st { spoof_dropped = suc st.spoof_dropped })
    | false ↦ elim (is_known existing m) [
      | true ↦ merge_messages ms st
      | false ↦ elim (is_missing fetch m) [
        | true ↦ merge_messages ms st
        | false ↦ elim (append to_vec st.log m) [
          | err e ↦ (st, err e)
          | ok log ↦ merge_messages ms (record st { log = log; appended = m ∷ st.appended })
        ]
      ]
    ]
  ]

-- `attempt` from the parsed response on
pub attempt :
    (Str → Option Message)
    → (Message → Option Str)
    → (Message → Bool)
    → Str
    → Str
    → BackfillResponse
    → Filling × Result (Unit {0})
unfolding merge_messages
attempt from_slice to_vec fetch self_pubkey log response =
    let st : Filling = record { log = log; appended = []; spoof_dropped = 0 } in
    if not (response.v == proto_v)
    then (st, err version_mismatch)
    else merge_messages to_vec fetch self_pubkey (map (λ m. m.id) (read_since from_slice log none))
        response.messages st

-- `u32::to_be_bytes` and `u32::from_be_bytes`
pub to_be_bytes : ℕ → Str
to_be_bytes n = n / 2 ^ 24 % 256 ∷ n / 2 ^ 16 % 256 ∷ n / 2 ^ 8 % 256 ∷ n % 256 ∷ []

abbrev from_be_bytes : ℕ → ℕ → ℕ → ℕ → ℕ
from_be_bytes a b c d = ((a * 256 + b) * 256 + c) * 256 + d

-- what `write_length_prefixed` sends
pub write_length_prefixed : Str → Result Str
unfolding to_be_bytes
write_length_prefixed body =
    if ltb max_frame_bytes (length body)
    then err frame_too_large
    else ok (to_be_bytes (length body % 2 ^ 32) ++ body)

-- `read_exact` of so many bytes: they and what is left of the stream
abbrev read_exact : ℕ → Str → Result (Str × Str)
read_exact n stream =
    if ltb (length stream) n then err io_error else ok (take n stream, drop n stream)

-- the body and what is left of the stream
pub read_length_prefixed : Str → Result (Str × Str)
read_length_prefixed (a ∷ b ∷ c ∷ d ∷ stream) =
    let len = from_be_bytes a b c d in
    if ltb max_frame_bytes len then err frame_too_large else read_exact len stream
read_length_prefixed _ = err io_error

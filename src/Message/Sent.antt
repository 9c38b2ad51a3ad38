-- ===== src/Message/Sent.antt =====
-- What the constructors of a message return, and that a receiver takes it.
use minara_connect.Base.{
  ℕ, ◌≡◌, inl, inr, refl, subst, Option, some, arith, Str, ℤ, ok, >>=-eq-ok, >>-eq-ok,
}
use minara_connect.Message.{
  Message, check_nick, from_wire_bytes, normalize_ulid, new, with_nick, new_keepalive,
  new_file_drop, validate_body, validate_filename, validate_blob_hash, validate_blob_size,
  to_canonical_json,
}
use minara_connect.Message.Accepted.{
  IsFilename, validate_body_iff, validate_filename_iff, validate_blob_hash_iff,
  validate_blob_size_iff, check_nick_iff,
}
use minara_connect.Message.Ulid.{normalize_ulid_idem}
use minara_connect.Message.Wire.{IsAccepted, from_wire_bytes_iff, IsKind-same}

-- A message that a constructor of the source returns.
pub data Built : Message → Type 0 where
  chat :
      {m : Message} (id author : Str) (ts : ℤ) (body : Str) → new id author ts body ≡ ok m → Built m
  keepalive : {m : Message} (id author : Str) (ts : ℤ) → new_keepalive id author ts ≡ ok m → Built m
  file_drop :
      {m : Message} (id author : Str) (ts : ℤ) (filename hash : Str) (size : ℕ)
      → new_file_drop id author ts filename hash size ≡ ok m
      → Built m
  nicked : {m m' : Message} (nick : Option Str) → Built m → with_nick m nick ≡ ok m' → Built m'

-- What is built is accepted, and its id is in canonical form.
record IsSendable (m : Message) : Type 0 where
  accepted : IsAccepted m
  is_id : normalize_ulid m.id ≡ ok m.id

IsSendable-with_id :
    (p : Message) (id id' : Str)
    → IsAccepted p
    → normalize_ulid id ≡ ok id'
    → p.id ≡ id'
    → IsSendable p
IsSendable-with_id p id id' a e i = record {
  accepted = a;
  is_id = rw i (normalize_ulid_idem id id' e);
}

IsSendable-new :
    (id author : Str) (ts : ℤ) (body : Str) (m : Message)
    → new id author ts body ≡ ok m
    → IsSendable m
unfolding new
IsSendable-new id author ts body m h =
    let (b, h1) = >>-eq-ok (validate_body body) _ h in
    let (id', e, h2) = >>=-eq-ok (normalize_ulid id) _ h1 in
    let len = (validate_body_iff body).0 b in
    IsSendable-with_id m id id'
      (record {
        version = ground arith;
        is_kind = inl (ground arith, ground arith);
        is_nick = ground arith;
      })
      e (ground arith)

IsSendable-new_keepalive :
    (id author : Str) (ts : ℤ) (m : Message) → new_keepalive id author ts ≡ ok m → IsSendable m
unfolding new_keepalive
IsSendable-new_keepalive id author ts m h =
    let (id', e, h2) = >>=-eq-ok (normalize_ulid id) _ h in
    IsSendable-with_id m id id'
      (record {
        version = ground arith;
        is_kind = inr (inr (ground arith));
        is_nick = ground arith;
      })
      e (ground arith)

IsSendable-new_file_drop :
    (id author : Str) (ts : ℤ) (filename hash : Str) (size : ℕ) (m : Message)
    → new_file_drop id author ts filename hash size ≡ ok m
    → IsSendable m
unfolding new_file_drop
IsSendable-new_file_drop id author ts filename hash size m h =
    let (f, h1) = >>-eq-ok (validate_filename filename) _ h in
    let (b, h2) = >>-eq-ok (validate_blob_hash hash) _ h1 in
    let (z, h3) = >>-eq-ok (validate_blob_size size) _ h2 in
    let (id', e, h4) = >>=-eq-ok (normalize_ulid id) _ h3 in
    let is_name = (validate_filename_iff filename).0 f in
    let is_hash = (validate_blob_hash_iff hash).0 b in
    let is_size = (validate_blob_size_iff size).0 z in
    let same_body : filename ≡ m.body = ground arith in
    IsSendable-with_id m id id'
      (record {
        version = ground arith;
        is_kind = inr (
            inl (record {
              is_kind = ground arith;
              filename = subst IsFilename same_body is_name;
              hash = hash;
              has_hash = ground arith;
              is_hash = is_hash;
              size = size;
              has_size = ground arith;
              is_size = is_size;
            }));
        is_nick = ground arith;
      })
      e (ground arith)

Built-IsSendable : {m : Message} → Built m → IsSendable m
unfolding with_nick
Built-IsSendable {m} (chat id author ts body h) = IsSendable-new id author ts body m h
Built-IsSendable {m} (keepalive id author ts h) = IsSendable-new_keepalive id author ts m h
Built-IsSendable {m} (file_drop id author ts filename hash size h) =
    IsSendable-new_file_drop id author ts filename hash size m h
Built-IsSendable {m} (nicked {m = q} nick b h) =
    let s = Built-IsSendable b in
    let (n, h1) = >>-eq-ok (check_nick nick) _ h in
    let e : record q { nick = nick } ≡ m = ground arith in
    subst IsSendable e (record {
      accepted = record {
        version = s.accepted.version;
        is_kind = IsKind-same q (record q { nick = nick }) refl refl refl refl s.accepted.is_kind;
        is_nick = (check_nick_iff nick).0 n;
      };
      is_id = s.is_id;
    })

-- What a constructor of the source returns passes every check of the receiver unchanged, whenever
-- the JSON that it is sent as parses back to it.
pub Built-is_received :
    (from_slice : Str → Option Message) (to_vec : Message → Option Str) (m : Message) (bytes : Str)
    → Built m
    → to_canonical_json to_vec m ≡ ok bytes
    → (to_vec m ≡ some bytes → from_slice bytes ≡ some m)
    → from_wire_bytes from_slice bytes ≡ ok m
unfolding to_canonical_json
Built-is_received from_slice to_vec m bytes b sent parses =
    let s = Built-IsSendable b in
    (from_wire_bytes_iff from_slice bytes m).1
      (m, parses (ground arith), record { accepted = s.accepted; id_lem = s.is_id; same = refl })

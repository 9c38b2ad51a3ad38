-- ===== src/Message/Wire.antt =====
-- `from_wire_bytes` against the checks listed in Accepted, and the constructors against both.
use minara_connect.Base.{
  ◌≡◌, ◌≢◌, ◌↔◌, inl, inr, refl, sym, subst, ◌∙◌, not, Option, some, arith, ◌==◌, Str, Result, ok,
  err, >>=-eq-ok, >>-eq-ok, ap, bail_if, ok_or, parse_error, version_mismatch,
}
use minara_connect.Message.{
  Message, protocol_version, check_nick, check_kind, check_parsed, from_wire_bytes, normalize_ulid,
}
use minara_connect.Message.Accepted.{
  IsKind, IsFilename, IsNickOption, check_kind_iff, check_nick_iff,
}
use minara_connect.Message.Ulid.{IsUlid, normalize_ulid-IsUlid, normalize_ulid_idem}

-- What is checked of a message as it is parsed, all but its id: the version, the nickname, and what
-- IsKind asks for its kind. The author is not looked at, and only a chat's body has a cap.
pub record IsAccepted (m : Message) : Type 0 where
  pub version : m.v ≡ protocol_version
  pub is_kind : IsKind m
  pub is_nick : IsNickOption m.nick

-- What `from_wire_bytes` returns when all is well: the parsed message, its id normalised.
pub record IsReceived (parsed m : Message) : Type 0 where
  pub accepted : IsAccepted parsed
  pub id_lem : normalize_ulid parsed.id ≡ ok m.id
  pub same : m ≡ record parsed { id = m.id }

-- the message with its id normalised
abbrev pub with_id : Message → Str → Message
with_id p id = record p { id = id }

check_version : Message → Result (Unit {0})
check_version p = bail_if (not (p.v == protocol_version)) version_mismatch

check_version_iff : (p : Message) → (check_version p ≡ ok tt) ↔ (p.v ≡ protocol_version)
unfolding check_version
check_version_iff p = (λ h. ground arith, λ h. ground arith)

check_parsed-IsReceived : (p m : Message) → check_parsed p ≡ ok m → IsReceived p m
unfolding check_parsed check_version
check_parsed-IsReceived p m h =
    let (v, h1) = >>-eq-ok (check_version p) _ h in
    let (k, h2) = >>-eq-ok (check_kind p) _ h1 in
    let (n, h3) = >>-eq-ok (check_nick p.nick) _ h2 in
    let (id, i, h4) = >>=-eq-ok (normalize_ulid p.id) _ h3 in
    let e : with_id p id ≡ m = ground arith in
    let same_id : id ≡ m.id = ap (λ (x : Message). x.id) e in
    record {
      accepted = record {
        version = (check_version_iff p).0 v;
        is_kind = (check_kind_iff p).0 k;
        is_nick = (check_nick_iff p.nick).0 n;
      };
      id_lem = i ∙ ap ok same_id;
      same = sym e ∙ ap (with_id p) same_id;
    }

IsReceived-check_parsed : (p m : Message) → IsReceived p m → check_parsed p ≡ ok m
unfolding check_parsed check_version
IsReceived-check_parsed p m r = rw ((check_version_iff p).1 r.accepted.version) (
    rw ((check_kind_iff p).1 r.accepted.is_kind)
      (rw ((check_nick_iff p.nick).1 r.accepted.is_nick) (rw r.id_lem (ap ok (sym r.same)))))

-- A receiver returns a message exactly if the bytes parse, the version is the protocol's, the kind is
-- one of three (a chat with at most 8 KiB of body; a file drop with a file name without separators, a
-- BLAKE3 hash and a size of at most 1 GiB; a heartbeat), a nickname is valid, and the id normalises;
-- and then it returns what was parsed with the id in its normal form. So any author is accepted,
-- though PROTOCOL.md wants a public key, and a body of any length on a file drop and on a heartbeat,
-- though PROTOCOL.md wants bodies over 8 KiB dropped.
pub from_wire_bytes_iff :
    (from_slice : Str → Option Message) (bytes : Str) (m : Message)
    → (from_wire_bytes from_slice bytes ≡ ok m)
      ↔ ((p : Message) × (from_slice bytes ≡ some p) × IsReceived p m)
unfolding from_wire_bytes
from_wire_bytes_iff from_slice bytes m = (
  λ h.
      let (p, e, h1) = >>=-eq-ok (ok_or parse_error (from_slice bytes)) _ h in
      (p, ground arith, check_parsed-IsReceived p m h1),
  λ h. let (p, e, r) = h in rw e (IsReceived-check_parsed p m r),
)

-- The version is checked first: whatever else is wrong, another version is what is reported.
pub version_mismatch_first :
    (from_slice : Str → Option Message) (bytes : Str) (p : Message)
    → from_slice bytes ≡ some p
    → p.v ≢ protocol_version
    → from_wire_bytes from_slice bytes ≡ err version_mismatch
unfolding from_wire_bytes
version_mismatch_first from_slice bytes p e v = rw e (unfold check_parsed in ground arith)

-- The conditions on the kind read neither the nickname nor the id.
pub IsKind-same :
    (q m : Message)
    → m.kind ≡ q.kind
    → m.body ≡ q.body
    → m.blob_hash ≡ q.blob_hash
    → m.blob_size ≡ q.blob_size
    → IsKind q
    → IsKind m
IsKind-same q m k b h z (inl (c, len)) = inl (k ∙ c, rw b len)
IsKind-same q m k b h z (inr (inl d)) = inr (
    inl (record {
      is_kind = k ∙ d.is_kind;
      filename = subst IsFilename (sym b) d.filename;
      hash = d.hash;
      has_hash = h ∙ d.has_hash;
      is_hash = d.is_hash;
      size = d.size;
      has_size = z ∙ d.has_size;
      is_size = d.is_size;
    }))
IsKind-same q m k b h z (inr (inr e)) = inr (inr (k ∙ e))

IsAccepted-with_id : (p : Message) (id : Str) → IsAccepted p → IsAccepted (with_id p id)
IsAccepted-with_id p id a = record {
  version = a.version;
  is_kind = IsKind-same p (with_id p id) refl refl refl refl a.is_kind;
  is_nick = a.is_nick;
}

-- The id of a received message is a ULID in canonical form, and receiving it again, from bytes that
-- parse to it, changes nothing.
pub received_is_canonical :
    (from_slice : Str → Option Message) (bytes bytes' : Str) (m : Message)
    → from_wire_bytes from_slice bytes ≡ ok m
    → from_slice bytes' ≡ some m
    → IsUlid m.id × (from_wire_bytes from_slice bytes' ≡ ok m)
received_is_canonical from_slice bytes bytes' m h again =
    let (p, e, r) = (from_wire_bytes_iff from_slice bytes m).0 h in
    let m_accepted : IsAccepted m =
      subst IsAccepted (sym r.same) (IsAccepted-with_id p m.id r.accepted) in
    (
      (normalize_ulid-IsUlid p.id m.id r.id_lem).0,
      (from_wire_bytes_iff from_slice bytes' m).1 (
        m,
        again,
        record {
          accepted = m_accepted;
          id_lem = normalize_ulid_idem p.id m.id r.id_lem;
          same = refl;
        },
      ),
    )

pub received-IsAccepted :
    (from_slice : Str → Option Message) (bytes : Str) (m : Message)
    → from_wire_bytes from_slice bytes ≡ ok m
    → IsAccepted m
received-IsAccepted from_slice bytes m h =
    let (p, e, r) = (from_wire_bytes_iff from_slice bytes m).0 h in
    subst IsAccepted (sym r.same) (IsAccepted-with_id p m.id r.accepted)

-- The id of a received message is a ULID in canonical form.
pub received-IsUlid :
    (from_slice : Str → Option Message) (bytes : Str) (m : Message)
    → from_wire_bytes from_slice bytes ≡ ok m
    → IsUlid m.id
received-IsUlid from_slice bytes m h =
    let (p, e, r) = (from_wire_bytes_iff from_slice bytes m).0 h in
    (normalize_ulid-IsUlid p.id m.id r.id_lem).0

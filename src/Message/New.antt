-- ===== src/Message/New.antt =====
-- What the constructors of a message fill in, and when they refuse.
use minara_connect.Base.{
  true, ℕ, ◌≤◌, ◌<◌, ◌≡◌, length, ltb, none, body_too_large, Error, Result-cases, inl, inr, refl,
  Option, some, arith, Str, ℤ, ok, err, >>=-eq-ok, >>-eq-ok,
}
use minara_connect.Message.{
  Message, kind_chat, kind_file_drop, kind_keepalive, body_max_bytes, file_drop_max_bytes,
  protocol_version, check_nick, normalize_ulid, new, with_nick, new_keepalive, new_file_drop,
  validate_body, validate_filename, validate_blob_hash, validate_blob_size,
}
use minara_connect.Message.Accepted.{
  IsNickOption, validate_body_iff, validate_blob_size_iff, check_nick_iff,
}

-- What `new` fills in.
pub record IsNew (author body : Str) (m : Message) : Type 0 where
  pub author_lem : m.author ≡ author
  pub body_lem : m.body ≡ body
  pub kind_lem : m.kind ≡ kind_chat
  pub length_le : length body ≤ body_max_bytes

pub new-IsNew :
    (id author : Str) (ts : ℤ) (body : Str) (m : Message)
    → new id author ts body ≡ ok m
    → IsNew author body m
unfolding new
new-IsNew id author ts body m h =
    let (b, h1) = >>-eq-ok (validate_body body) _ h in
    let (id', e, h2) = >>=-eq-ok (normalize_ulid id) _ h1 in
    record {
      author_lem = ground arith;
      body_lem = ground arith;
      kind_lem = ground arith;
      length_le = (validate_body_iff body).0 b;
    }

-- What `new_file_drop` fills in.
pub record IsNewDrop (author filename hash : Str) (size : ℕ) (m : Message) : Type 0 where
  pub author_lem : m.author ≡ author
  pub body_lem : m.body ≡ filename
  pub kind_lem : m.kind ≡ kind_file_drop
  pub hash_lem : m.blob_hash ≡ some hash
  pub size_lem : m.blob_size ≡ some size
  pub size_le : size ≤ file_drop_max_bytes

pub new_file_drop-IsNewDrop :
    (id author : Str) (ts : ℤ) (filename hash : Str) (size : ℕ) (m : Message)
    → new_file_drop id author ts filename hash size ≡ ok m
    → IsNewDrop author filename hash size m
unfolding new_file_drop
new_file_drop-IsNewDrop id author ts filename hash size m h =
    let (f, h1) = >>-eq-ok (validate_filename filename) _ h in
    let (b, h2) = >>-eq-ok (validate_blob_hash hash) _ h1 in
    let (z, h3) = >>-eq-ok (validate_blob_size size) _ h2 in
    let (id', e, h4) = >>=-eq-ok (normalize_ulid id) _ h3 in
    record {
      author_lem = ground arith;
      body_lem = ground arith;
      kind_lem = ground arith;
      hash_lem = ground arith;
      size_lem = ground arith;
      size_le = (validate_blob_size_iff size).0 z;
    }

-- `with_nick` changes the nickname alone.
pub with_nick_lem :
    (m m' : Message) (nick : Option Str)
    → with_nick m nick ≡ ok m'
    → (record m { nick = nick } ≡ m') × IsNickOption nick
unfolding with_nick
with_nick_lem m m' nick h =
    let (n, h1) = >>-eq-ok (check_nick nick) _ h in (ground arith, (check_nick_iff nick).0 n)

-- A valid nickname can be attached.
pub with_nick-ok :
    (m : Message) (nick : Option Str)
    → IsNickOption nick
    → with_nick m nick ≡ ok (record m { nick = nick })
unfolding with_nick
with_nick-ok m nick n = rw ((check_nick_iff nick).1 n) refl

-- A nickname that is not valid cannot.
pub with_nick-err :
    (m : Message) (nick : Option Str)
    → ¬ IsNickOption nick
    → (e : Error) × (with_nick m nick ≡ err e)
unfolding with_nick
with_nick-err m nick n = elim (Result-cases (check_nick nick)) [
  | inl (t, e) ↦ absurd (n ((check_nick_iff nick).0 e))
  | inr (e, h) ↦ (e, rw h refl)
]

-- the message that `new` makes, with this id
abbrev pub chat_message : Str → Str → ℤ → Str → Message
chat_message id author ts body = record {
  v = protocol_version;
  id = id;
  author = author;
  ts = ts;
  body = body;
  kind = kind_chat;
  nick = none;
  blob_hash = none;
  blob_size = none;
}

-- A body within the cap makes a message, and a longer one the error.
pub new-ok :
    (id id' author : Str) (ts : ℤ) (body : Str)
    → normalize_ulid id ≡ ok id'
    → length body ≤ body_max_bytes
    → new id author ts body ≡ ok (chat_message id' author ts body)
unfolding new
new-ok id id' author ts body i len = rw ((validate_body_iff body).1 len, i) refl

pub new_too_large :
    (id author : Str) (ts : ℤ) (body : Str)
    → body_max_bytes < length body
    → new id author ts body ≡ err body_too_large
unfolding new validate_body
new_too_large id author ts body len =
    rw (let t : ltb body_max_bytes (length body) ≡ true = ground arith in t) refl

-- What `new_keepalive` fills in.
pub record IsBeat (author : Str) (m : Message) : Type 0 where
  pub author_lem : m.author ≡ author
  pub kind_lem : m.kind ≡ kind_keepalive

pub new_keepalive-IsBeat :
    (id author : Str) (ts : ℤ) (m : Message) → new_keepalive id author ts ≡ ok m → IsBeat author m
unfolding new_keepalive
new_keepalive-IsBeat id author ts m h =
    let (id', e, h1) = >>=-eq-ok (normalize_ulid id) _ h in
    record { author_lem = ground arith; kind_lem = ground arith }

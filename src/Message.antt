-- ===== src/Message.antt =====
-- crates/cc-connect-core/src/message.rs: the Message, its constructors, and the receiver's checks.
-- serde_json is a parameter: `from_slice` and `to_vec` are its calls at the type `Message`.
pub mod Tests
pub mod Samples
pub mod Ulid
pub mod Accepted
pub mod Wire
pub mod Sent
pub mod New
use minara_connect.Base.{
  ℕ, ◌+◌, ◌-◌, ◌*◌, ◌^◌, Bool, true, false, not, ◌&&◌, ◌||◌, Option, none, some, List, [], ◌∷◌, ltb,
  leb, ◌==◌, within, if◌then◌else◌, any, length, Str, str, str_eq, contains_byte, is_empty, chars,
  ℤ, Result, ok, err, ◌>>=◌, ◌>>◌, bail_if, ok_or, json_error, parse_error, version_mismatch,
  unknown_kind, body_too_large, filename_empty, filename_invalid, blob_hash_missing,
  blob_hash_invalid, blob_size_missing, blob_too_large, nick_empty, nick_too_large, nick_invalid,
  ulid_invalid_char, ulid_length,
}

abbrev pub protocol_version : ℕ
protocol_version = 1

abbrev pub body_max_bytes : ℕ
body_max_bytes = 8 * 1024

abbrev pub ulid_len : ℕ
ulid_len = 26

abbrev pub kind_chat : Str
kind_chat = str "chat"

abbrev pub kind_file_drop : Str
kind_file_drop = str "file_drop"

abbrev pub kind_keepalive : Str
kind_keepalive = str "keepalive"

abbrev pub file_drop_max_bytes : ℕ
file_drop_max_bytes = 2 ^ 30

abbrev pub blob_hash_hex_len : ℕ
blob_hash_hex_len = 64

abbrev pub nick_max_bytes : ℕ
nick_max_bytes = 64

pub record Message : Type 0 where
  pub v : ℕ
  pub id : Str
  pub author : Str
  pub ts : ℤ
  pub body : Str
  pub kind : Str
  pub nick : Option Str
  pub blob_hash : Option Str
  pub blob_size : Option ℕ

-- The arms of the `match` on one character. Every byte of a character that is not ASCII falls into
-- the last arm, as that character does.
abbrev map_char : ℕ → Result ℕ
map_char c =
    if c == b'I' || c == b'i' || c == b'L' || c == b'l'
    then ok b'1'
    else if c == b'O' || c == b'o'
    then ok b'0'
    else if c == b'U' || c == b'u'
    then err ulid_invalid_char
    else if within b'0' b'9' c || within b'A' b'Z' c
    then ok c
    else if within b'a' b'z' c
    then ok (c - 32)
    else err ulid_invalid_char

map_chars : Str → Result Str
map_chars [] = ok []
map_chars (c ∷ s) = do mapped ← map_char c; out ← map_chars s; ok (mapped ∷ out)

pub normalize_ulid : Str → Result Str
unfolding map_chars
normalize_ulid s = do out ← map_chars s; bail_if (not (length out == ulid_len)) ulid_length; ok out

pub validate_body : Str → Result (Unit {0})
validate_body body = bail_if (ltb body_max_bytes (length body)) body_too_large

pub validate_filename : Str → Result (Unit {0})
validate_filename filename = do
  bail_if (is_empty filename) filename_empty
  bail_if (contains_byte filename b'/' || contains_byte filename b'\\' || contains_byte filename 0)
      filename_invalid

abbrev is_ascii_hexdigit : ℕ → Bool
is_ascii_hexdigit b = within b'0' b'9' b || within b'A' b'F' b || within b'a' b'f' b

abbrev is_ascii_lowercase : ℕ → Bool
is_ascii_lowercase b = within b'a' b'z' b

abbrev is_ascii_alphabetic : ℕ → Bool
is_ascii_alphabetic b = within b'A' b'Z' b || within b'a' b'z' b

-- the closure of `validate_blob_hash`
abbrev is_hash_byte : ℕ → Bool
is_hash_byte b = is_ascii_hexdigit b && (not (is_ascii_alphabetic b) || is_ascii_lowercase b)

pub validate_blob_hash : Str → Result (Unit {0})
validate_blob_hash hash = do
  bail_if (not (length hash == blob_hash_hex_len)) blob_hash_invalid
  bail_if (any (λ b. not (is_hash_byte b)) hash) blob_hash_invalid

pub validate_blob_size : ℕ → Result (Unit {0})
validate_blob_size size = bail_if (ltb file_drop_max_bytes size) blob_too_large

abbrev pub is_control : ℕ → Bool
is_control c = ltb c 0x20 || within 0x7F 0x9F c

pub validate_nick : Str → Result (Unit {0})
validate_nick nick = do
  bail_if (is_empty nick) nick_empty
  bail_if (ltb nick_max_bytes (length nick)) nick_too_large
  bail_if (any is_control (chars nick)) nick_invalid

-- `if let Some(ref n) = nick { validate_nick(n)?; }`
abbrev pub check_nick : Option Str → Result (Unit {0})
check_nick none = ok tt
check_nick (some n) = validate_nick n

pub new : Str → Str → ℤ → Str → Result Message
new id author ts body = do
  validate_body body
  id' ← normalize_ulid id
  ok (record {
    v = protocol_version;
    id = id';
    author = author;
    ts = ts;
    body = body;
    kind = kind_chat;
    nick = none;
    blob_hash = none;
    blob_size = none;
  })

pub with_nick : Message → Option Str → Result Message
with_nick m nick = do check_nick nick; ok (record m { nick = nick })

pub new_keepalive : Str → Str → ℤ → Result Message
new_keepalive id author ts = do
  id' ← normalize_ulid id
  ok (record {
    v = protocol_version;
    id = id';
    author = author;
    ts = ts;
    body = [];
    kind = kind_keepalive;
    nick = none;
    blob_hash = none;
    blob_size = none;
  })

pub new_file_drop : Str → Str → ℤ → Str → Str → ℕ → Result Message
new_file_drop id author ts filename blob_hash blob_size = do
  validate_filename filename
  validate_blob_hash blob_hash
  validate_blob_size blob_size
  id' ← normalize_ulid id
  ok (record {
    v = protocol_version;
    id = id';
    author = author;
    ts = ts;
    body = filename;
    kind = kind_file_drop;
    nick = none;
    blob_hash = some blob_hash;
    blob_size = some blob_size;
  })

pub check_file_drop : Message → Result (Unit {0})
check_file_drop m = do
  validate_filename m.body
  hash ← ok_or blob_hash_missing m.blob_hash
  validate_blob_hash hash
  size ← ok_or blob_size_missing m.blob_size
  validate_blob_size size

-- `match msg.kind.as_str() { .. }`
pub check_kind : Message → Result (Unit {0})
unfolding check_file_drop
check_kind m =
    if str_eq m.kind kind_chat
    then validate_body m.body
    else if str_eq m.kind kind_file_drop
    then check_file_drop m
    else if str_eq m.kind kind_keepalive
    then ok tt
    else err unknown_kind

-- the checks of `from_wire_bytes` on a message that has been parsed
pub check_parsed : Message → Result Message
unfolding check_kind
check_parsed m = do
  bail_if (not (m.v == protocol_version)) version_mismatch
  check_kind m
  check_nick m.nick
  id' ← normalize_ulid m.id
  ok (record m { id = id' })

unfoldable pub from_wire_bytes : (Str → Option Message) → Str → Result Message
unfolding check_parsed
from_wire_bytes from_slice bytes = do m ← ok_or parse_error (from_slice bytes); check_parsed m

unfoldable pub to_canonical_json : (Message → Option Str) → Message → Result Str
to_canonical_json to_vec m = ok_or json_error (to_vec m)

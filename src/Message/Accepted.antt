-- ===== src/Message/Accepted.antt =====
-- What a receiver accepts, said without the order and the codes of its checks. PROTOCOL.md asks more:
-- a cap on the body of every kind, and an author in the form of a public key.
use minara_connect.Base.{
  ℕ, ◌≤◌, ◌≡◌, ◌≢◌, ◌↔◌, ◌⊎◌, inl, inr, refl, true, false, not, ◌||◌, Option, none, some, List, [],
  ◌∷◌, arith, within, All, any, length, Str, str_eq, str_eq_iff, contains_byte, chars, Result, ok,
  err, ◌>>◌, >>=-eq-ok, ok_or, Bool-cases, le→ltb_false, blob_hash_missing, blob_size_missing,
}
use minara_connect.Message.{
  Message, is_control, kind_chat, kind_file_drop, kind_keepalive, body_max_bytes,
  file_drop_max_bytes, blob_hash_hex_len, nick_max_bytes, validate_body, validate_filename,
  validate_blob_hash, validate_blob_size, validate_nick, check_nick, is_hash_byte, check_file_drop,
  check_kind,
}

-- a lower-case hexadecimal digit
abbrev pub IsLowerHex : ℕ → Type 0
IsLowerHex b = (within b'0' b'9' b || within b'a' b'f' b) ≡ true

-- a file name with no path separator and no NUL
abbrev pub IsFilename : Str → Type 0
IsFilename s = (s ≢ []) × All (λ b. (b ≢ b'/') × (b ≢ b'\\') × (b ≢ 0)) s

abbrev pub IsBlobHash : Str → Type 0
IsBlobHash h = (length h ≡ blob_hash_hex_len) × All IsLowerHex h

abbrev pub IsNick : Str → Type 0
IsNick n = (n ≢ []) × (length n ≤ nick_max_bytes) × All (λ c. is_control c ≡ false) (chars n)

abbrev pub IsNickOption : Option Str → Type 0
IsNickOption none = Unit
IsNickOption (some n) = IsNick n

pub record IsFileDrop (m : Message) : Type 0 where
  pub is_kind : m.kind ≡ kind_file_drop
  pub filename : IsFilename m.body
  pub hash : Str
  pub has_hash : m.blob_hash ≡ some hash
  pub is_hash : IsBlobHash hash
  pub size : ℕ
  pub has_size : m.blob_size ≡ some size
  pub is_size : size ≤ file_drop_max_bytes

-- the three kinds, with what each asks of the other fields
abbrev pub IsKind : Message → Type 0
IsKind m =
    ((m.kind ≡ kind_chat) × (length m.body ≤ body_max_bytes))
    ⊎ IsFileDrop m
    ⊎ (m.kind ≡ kind_keepalive)

pub validate_body_iff : (s : Str) → (validate_body s ≡ ok tt) ↔ (length s ≤ body_max_bytes)
unfolding validate_body
validate_body_iff s = (λ h. ground arith, λ h. ground arith)

pub validate_blob_size_iff : (n : ℕ) → (validate_blob_size n ≡ ok tt) ↔ (n ≤ file_drop_max_bytes)
unfolding validate_blob_size
validate_blob_size_iff n = (λ h. ground arith, λ h. ground arith)

separators_iff :
    (s : Str)
    → ((contains_byte s b'/' || contains_byte s b'\\' || contains_byte s 0) ≡ false)
      ↔ All (λ b. (b ≢ b'/') × (b ≢ b'\\') × (b ≢ 0)) s
unfolding contains_byte
separators_iff [] = (λ h. tt, λ h. refl)
separators_iff (b ∷ s) =
    let ih = separators_iff s in
    (
      λ h. ((ground arith, ground arith, ground arith), ih.0 (ground arith)),
      λ h. ground (arith, ih.1 h.1),
    )

pub validate_filename_iff : (s : Str) → (validate_filename s ≡ ok tt) ↔ IsFilename s
unfolding validate_filename
validate_filename_iff [] = (λ h. cc, λ h. absurd (h.0 refl))
validate_filename_iff (b ∷ s) =
    let sep = separators_iff (b ∷ s) in (λ h. (λ e. cc, sep.0 (ground arith)), λ h. rw (sep.1 h.1))

hash_bytes_iff : (s : Str) → (any (λ b. not (is_hash_byte b)) s ≡ false) ↔ All IsLowerHex s
hash_bytes_iff [] = (λ h. tt, λ h. refl)
hash_bytes_iff (b ∷ s) =
    let ih = hash_bytes_iff s in
    (λ h. (ground arith, ih.0 (ground arith)), λ h. ground (arith, ih.1 h.1))

pub validate_blob_hash_iff : (s : Str) → (validate_blob_hash s ≡ ok tt) ↔ IsBlobHash s
unfolding validate_blob_hash
validate_blob_hash_iff s =
    let hex = hash_bytes_iff s in
    (λ h. (ground arith, hex.0 (ground arith)), λ h. rw (hex.1 h.1) (ground arith))

pub controls_iff : (cs : List ℕ) → (any is_control cs ≡ false) ↔ All (λ c. is_control c ≡ false) cs
controls_iff [] = (λ h. tt, λ h. refl)
controls_iff (c ∷ cs) =
    let ih = controls_iff cs in
    (λ h. (ground arith, ih.0 (ground arith)), λ h. ground (arith, ih.1 h.1))

validate_nick_iff : (s : Str) → (validate_nick s ≡ ok tt) ↔ IsNick s
unfolding validate_nick
validate_nick_iff [] = (λ h. cc, λ h. absurd (h.0 refl))
validate_nick_iff (b ∷ s) =
    let ctl = controls_iff (chars (b ∷ s)) in
    (λ h. (λ e. cc, ground arith, ctl.0 (ground arith)), λ h. rw (le→ltb_false _ _ h.1, ctl.1 h.2))

pub check_nick_iff : (o : Option Str) → (check_nick o ≡ ok tt) ↔ IsNickOption o
check_nick_iff none = (λ h. tt, λ h. refl)
check_nick_iff (some n) = validate_nick_iff n

-- A check that passes lets the rest decide.
seq_iff : (m n : Result (Unit {0})) → ((m >> n) ≡ ok tt) ↔ ((m ≡ ok tt) × (n ≡ ok tt))
seq_iff (ok t) n = (λ h. (refl, h), λ h. h.1)
seq_iff (err e) n = (λ h. cc, λ h. cc)

check_file_drop_iff :
    (m : Message) → m.kind ≡ kind_file_drop → (check_file_drop m ≡ ok tt) ↔ IsFileDrop m
unfolding check_file_drop
check_file_drop_iff m k = (
  λ h.
      let (p, h1) = (seq_iff (validate_filename m.body) _).0 h in
      let (hash, e, h2) = >>=-eq-ok (ok_or blob_hash_missing m.blob_hash) _ h1 in
      let (q, h3) = (seq_iff (validate_blob_hash hash) _).0 h2 in
      let (size, e2, h4) = >>=-eq-ok (ok_or blob_size_missing m.blob_size) _ h3 in
      record {
        is_kind = k;
        filename = (validate_filename_iff m.body).0 p;
        hash = hash;
        has_hash = ground arith;
        is_hash = (validate_blob_hash_iff hash).0 q;
        size = size;
        has_size = ground arith;
        is_size = (validate_blob_size_iff size).0 h4;
      },
  λ d. rw ((validate_filename_iff m.body).1 d.filename) (
      rw d.has_hash (
        rw ((validate_blob_hash_iff d.hash).1 d.is_hash)
          (rw d.has_size ((validate_blob_size_iff d.size).1 d.is_size)))),
)

check_kind-IsKind : (m : Message) → check_kind m ≡ ok tt → IsKind m
unfolding check_kind
check_kind-IsKind m h = elim (Bool-cases (str_eq m.kind kind_chat)) [
  | inl c ↦ inl ((str_eq_iff m.kind kind_chat).0 c, (validate_body_iff m.body).0 (rw c at h))
  | inr c ↦ elim (Bool-cases (str_eq m.kind kind_file_drop)) [
    | inl d ↦
        inr (
          inl ((check_file_drop_iff m ((str_eq_iff m.kind kind_file_drop).0 d)).0 (rw (c, d) at h)))
    | inr d ↦ elim (Bool-cases (str_eq m.kind kind_keepalive)) [
      | inl e ↦ inr (inr ((str_eq_iff m.kind kind_keepalive).0 e))
      | inr e ↦ absurd (ground arith)
    ]
  ]
]

file_drop-ne-chat : (k : Str) → k ≡ kind_file_drop → str_eq k kind_chat ≡ false
unfolding str_eq
file_drop-ne-chat k e = rw e

keepalive_ne :
    (k : Str)
    → k ≡ kind_keepalive
    → (str_eq k kind_chat ≡ false)
      × (str_eq k kind_file_drop ≡ false)
      × (str_eq k kind_keepalive ≡ true)
unfolding str_eq
keepalive_ne k e = (rw e, rw e, rw e)

IsKind-check_kind : (m : Message) → IsKind m → check_kind m ≡ ok tt
unfolding check_kind
IsKind-check_kind m (inl (c, len)) =
    rw ((str_eq_iff m.kind kind_chat).1 c) ((validate_body_iff m.body).1 len)
IsKind-check_kind m (inr (inl d)) =
    rw (file_drop-ne-chat m.kind d.is_kind, (str_eq_iff m.kind kind_file_drop).1 d.is_kind)
      ((check_file_drop_iff m d.is_kind).1 d)
IsKind-check_kind m (inr (inr k)) = let (c, d, e) = keepalive_ne m.kind k in rw (c, d, e)

-- The checks on the kind pass exactly for what IsKind lists.
pub check_kind_iff : (m : Message) → (check_kind m ≡ ok tt) ↔ IsKind m
unfolding check_kind
check_kind_iff m = (check_kind-IsKind m, IsKind-check_kind m)

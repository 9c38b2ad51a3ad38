-- ===== src/ChatSession/Drops/Announced.antt =====
-- What it takes to announce a file.
use minara_connect.Base.{
  ◌≡◌, ◌≤◌, ◌⊎◌, inl, inr, refl, ap, sym, ◌∙◌, Bool-cases, true, not, some, arith, ltb, ℕ, Str, ℤ,
  ok, >>=-eq-ok, >>-eq-ok, ok_or, bail_if, io_error, blob_too_large, filename_invalid,
}
use minara_connect.Message.{Message, file_drop_max_bytes, new_file_drop}
use minara_connect.Message.Sent.{Built, file_drop}
use minara_connect.Message.New.{new_file_drop-IsNewDrop}
use minara_connect.DropSafety.{DropSafety, Reason, allow, block, evaluate}
use minara_connect.ChatSession.Drops.{
  Outside, bypass, home_or_root, check_safety, drop_name, build_file_drop,
}

-- The file of an announced message: it is not on the blocklist, or that is bypassed; it has the
-- announced size; and its hash is the one that the blob store serves it under.
pub record IsAnnounced (out : Outside) (path_str author : Str) (m : Message) : Type 0 where
  pub abs_path : Str
  pub is_absolute : out.absolute path_str ≡ some abs_path
  pub is_safe :
      (bypass out.allow_dangerous ≡ true) ⊎ (evaluate abs_path (home_or_root out.home) ≡ allow)
  pub size : ℕ
  pub has_size :
      (out.metadata abs_path ≡ some size) × (m.blob_size ≡ some size) × (size ≤ file_drop_max_bytes)
  pub has_name : drop_name path_str ≡ some m.body
  pub has_hash : out.add_path abs_path ≡ m.blob_hash
  pub is_copied : out.copy_local m abs_path ≡ true
  pub by_author : m.author ≡ author
  pub built : Built m

safety_cases : (d : DropSafety) → (d ≡ allow) ⊎ ((reason : Reason) × (d ≡ block reason))
safety_cases allow = inl refl
safety_cases (block reason) = inr (reason, refl)

check_safety-safe :
    (out : Outside) (abs_path : Str)
    → check_safety out abs_path ≡ ok tt
    → (bypass out.allow_dangerous ≡ true) ⊎ (evaluate abs_path (home_or_root out.home) ≡ allow)
unfolding check_safety
check_safety-safe out abs_path h = elim (Bool-cases (bypass out.allow_dangerous)) [
  | inl b ↦ inl b
  | inr b ↦ elim (safety_cases (evaluate abs_path (home_or_root out.home))) [
    | inl safe ↦ inr safe
    | inr (reason, e) ↦ absurd (let h' = rw (b, e) at h in ground arith)
  ]
]

-- A drop succeeds only for a file that is off the blocklist or with the blocklist bypassed, and
-- within the size cap; the message that comes of it is one that a constructor built, with the
-- file's own name, size and hash and the given author, and a copy of the file is in place.
pub build_file_drop-IsAnnounced :
    (out : Outside) (path_str author id : Str) (now_ms : ℤ) (m : Message)
    → build_file_drop out path_str author id now_ms ≡ ok m
    → IsAnnounced out path_str author m
unfolding build_file_drop
build_file_drop-IsAnnounced out path_str author id now_ms m h =
    let (abs_path, a, h1) = >>=-eq-ok (ok_or io_error (out.absolute path_str)) _ h in
    let (s, h2) = >>-eq-ok (check_safety out abs_path) _ h1 in
    let (size, z, h3) = >>=-eq-ok (ok_or io_error (out.metadata abs_path)) _ h2 in
    let (cap, h4) = >>-eq-ok (bail_if (ltb file_drop_max_bytes size) blob_too_large) _ h3 in
    let (name, n, h5) = >>=-eq-ok (ok_or filename_invalid (drop_name path_str)) _ h4 in
    let (hash, k, h6) = >>=-eq-ok (ok_or io_error (out.add_path abs_path)) _ h5 in
    let (m', b, h7) = >>=-eq-ok (new_file_drop id author now_ms name hash size) _ h6 in
    let (c, h8) = >>-eq-ok (bail_if (not (out.copy_local m' abs_path)) io_error) _ h7 in
    let same : m' ≡ m = ground arith in
    let d = new_file_drop-IsNewDrop id author now_ms name hash size m (b ∙ ap ok same) in
    record {
      abs_path = abs_path;
      is_absolute = ground arith;
      is_safe = check_safety-safe out abs_path s;
      size = size;
      has_size = (ground arith, d.size_lem, d.size_le);
      has_name =
          (let e : drop_name path_str ≡ some name = ground arith in e) ∙ ap some (sym d.body_lem);
      has_hash = (let e : out.add_path abs_path ≡ some hash = ground arith in e) ∙ sym d.hash_lem;
      is_copied = ground arith;
      by_author = d.author_lem;
      built = file_drop id author now_ms name hash size (b ∙ ap ok same);
    }

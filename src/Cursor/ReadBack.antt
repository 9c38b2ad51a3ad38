-- ===== src/Cursor/ReadBack.antt =====
-- crates/cc-connect-core/src/cursor_io.rs, read_cursor: a ULID that was written is read.
use minara_connect.Base.{
  ℕ, ◌≤◌, ◌≡◌, refl, ap, ◌∙◌, true, false, Option, none, some, List, [], ◌∷◌, arith, ◌==◌, ltb, All,
  Str, starts_with, is_utf8, is_utf8_from, lead, ok,
}
use minara_connect.Message.Ulid.{IsUlid, is_crockford}
use minara_connect.Cursor.{
  CursorFs, trim_end_matches, read_cursor, race_retry_limit, advance_cursor, content_of,
}
use minara_connect.Cursor.Race.{IsGiven, is_calm, advance_cursor_lem}

abbrev IsCrockford : ℕ → Type 0
IsCrockford c = is_crockford c ≡ true

is_utf8_from-ascii : (s : Str) (lo hi : ℕ) → All IsCrockford s → is_utf8_from 0 lo hi s ≡ true
unfolding is_utf8_from lead
is_utf8_from-ascii [] lo hi h = refl
is_utf8_from-ascii (b ∷ s) lo hi h =
    let ascii : ltb b 0x80 ≡ true = let k = h.0 in ground arith in
    rw (ascii, is_utf8_from) (is_utf8_from-ascii s 0x80 0xBF h.1)

trim_end_matches-keeps :
    (c : ℕ) (s : Str) → All IsCrockford s → c ≤ b'\r' → trim_end_matches c s ≡ s
unfolding trim_end_matches
trim_end_matches-keeps c [] h le = refl
trim_end_matches-keeps c (b ∷ []) h le =
    let other : (b == c) ≡ false = let k = h.0 in ground arith in rw other refl
trim_end_matches-keeps c (b ∷ d ∷ s) h le = rw (trim_end_matches-keeps c (d ∷ s) h.1 le) refl

no_brace : (b : ℕ) (s : Str) → IsCrockford b → starts_with (b ∷ s) (b'{' ∷ []) ≡ false
unfolding starts_with
no_brace b s h = let other : (b == b'{') ≡ false = ground arith in rw (other, starts_with) refl

-- A cursor file that holds a ULID in canonical form is read as that ULID.
read_cursor-IsUlid :
    (from_str : Str → Option Str) (ulid : Str)
    → IsUlid ulid
    → read_cursor from_str (some ulid) ≡ ok (some ulid)
unfolding read_cursor is_utf8
read_cursor-IsUlid from_str [] u = absurd (let k = u.has_len in omega arith)
read_cursor-IsUlid from_str (b ∷ s) u =
    let alphabet = u.in_alphabet in
    let valid = is_utf8_from-ascii (b ∷ s) 0x80 0xBF alphabet in
    let brace : starts_with (b ∷ s) (b'{' ∷ []) ≡ false = no_brace b s alphabet.0 in
    rw
      (
        trim_end_matches-keeps b'\n' (b ∷ s) alphabet (omega arith),
        trim_end_matches-keeps b'\r' (b ∷ s) alphabet (omega arith),
        valid,
        brace,
      )
      refl

-- A ULID in canonical form to which the cursor has been advanced is what is read next, if in one of
-- the five attempts no other writer came between, and the inode at the path is one that was given
-- out.
pub read-advance_cursor :
    (from_str : Str → Option Str) (others : List (List Str)) (ulid : Str) (fs : CursorFs)
    → IsGiven fs
    → IsUlid ulid
    → is_calm race_retry_limit others ≡ true
    → read_cursor from_str (content_of ((advance_cursor others ulid fs).0)) ≡ ok (some ulid)
read-advance_cursor from_str others ulid fs g u c =
    let (done, written) = (advance_cursor_lem others ulid fs g).0 c in
    ap (read_cursor from_str) written ∙ read_cursor-IsUlid from_str ulid u

-- Without a file there is no mark.
pub read_cursor_missing : (from_str : Str → Option Str) → read_cursor from_str none ≡ ok none
unfolding read_cursor
read_cursor_missing from_str = refl

-- ===== src/Backfill/Frames.antt =====
-- crates/cc-connect/src/backfill.rs, write_length_prefixed and read_length_prefixed.
use minara_connect.Base.{
  ℕ, ◌+◌, ◌*◌, ◌/◌, ◌%◌, ◌^◌, ◌≤◌, ◌≡◌, refl, ap, false, [], ◌∷◌, ◌++◌, take, drop, length,
  length-append, arith, ltb, Str, ok,
}
use minara_connect.Backfill.{
  max_frame_bytes, to_be_bytes, write_length_prefixed, read_length_prefixed,
}

be_bytes_back :
    (n : ℕ)
    → n ≤ 2 ^ 24
    → ((n / 2 ^ 24 % 256 * 256 + n / 2 ^ 16 % 256) * 256 + n / 2 ^ 8 % 256) * 256 + n % 256 ≡ n
be_bytes_back n h = omega arith

take-length-append : (xs ys : Str) → take (length xs) (xs ++ ys) ≡ xs
take-length-append [] ys = refl
take-length-append (x ∷ xs) ys = ap (◌∷◌ x) (take-length-append xs ys)

drop-length-append : (xs ys : Str) → drop (length xs) (xs ++ ys) ≡ ys
drop-length-append [] ys = refl
drop-length-append (x ∷ xs) ys = drop-length-append xs ys

-- A body of at most 16 MiB is sent as a frame from which exactly it is read, whatever follows in
-- the stream, and what follows is left.
pub read-write :
    (body rest : Str)
    → length body ≤ max_frame_bytes
    → (frame : Str) × (write_length_prefixed body ≡ ok frame)
      × (read_length_prefixed (frame ++ rest) ≡ ok (body, rest))
unfolding write_length_prefixed read_length_prefixed to_be_bytes
read-write body rest h =
    let fits : ltb max_frame_bytes (length body) ≡ false = ground arith in
    let small : length body % 2 ^ 32 ≡ length body = omega arith in
    let there : ltb (length (body ++ rest)) (length body) ≡ false =
      ground (arith, length-append body rest) in
    (
      to_be_bytes (length body) ++ body,
      rw (fits, small) refl,
      rw
          (
            be_bytes_back (length body) h,
            fits,
            there,
            take-length-append body rest,
            drop-length-append body rest,
          )
          refl,
    )

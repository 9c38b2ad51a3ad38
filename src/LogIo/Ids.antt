-- ===== src/LogIo/Ids.antt =====
-- The ids of the messages that are read.
use minara_connect.Base.{
  ◌≡◌, subst, inl, inr, arith, Option, some, List, [], ◌∷◌, All, Bool-cases, Option-cases,
  Result-cases, Str, is_empty, is_utf8,
}
use minara_connect.Message.{Message, from_wire_bytes}
use minara_connect.Message.Ulid.{IsUlid}
use minara_connect.Message.Wire.{received-IsUlid}
use minara_connect.LogIo.{lines, read_line, read_lines, read_since}

read_line-IsUlid :
    (from_slice : Str → Option Message) (cursor : Option Str) (l : Str) (m : Message)
    → read_line from_slice cursor l ≡ some m
    → IsUlid m.id
unfolding read_line
read_line-IsUlid from_slice cursor l m h = elim (Bool-cases (is_utf8 l)) [
  | inr e ↦ absurd (let h' = rw e at h in ground arith)
  | inl u ↦ elim (Bool-cases (is_empty l)) [
    | inl e ↦ absurd (let h' = rw (u, e) at h in ground arith)
    | inr n ↦ elim (Result-cases (from_wire_bytes from_slice l)) [
      | inr (x, e) ↦ absurd (let h' = rw (u, n, e, read_line) at h in ground arith)
      | inl (q, e) ↦
          let h' = rw (u, n, e, read_line) at h in
          let same : q ≡ m = ground arith in
          subst (λ (x : Message). IsUlid x.id) same (received-IsUlid from_slice l q e)
    ]
  ]
]

read_lines-IsUlid :
    (from_slice : Str → Option Message) (cursor : Option Str) (ls : List Str)
    → All (λ m. IsUlid m.id) (read_lines from_slice cursor ls)
unfolding read_lines
read_lines-IsUlid from_slice cursor [] = tt
read_lines-IsUlid from_slice cursor (l ∷ ls) = elim (Option-cases (read_line from_slice cursor l)) [
  | inl e ↦ rw (e, read_lines) (read_lines-IsUlid from_slice cursor ls)
  | inr (m, e) ↦
      rw (e, read_lines)
        (read_line-IsUlid from_slice cursor l m e, read_lines-IsUlid from_slice cursor ls)
]

-- Every message that is read has a ULID in canonical form as its id.
pub read_since-IsUlid :
    (from_slice : Str → Option Message) (content : Str) (cursor : Option Str)
    → All (λ m. IsUlid m.id) (read_since from_slice content cursor)
unfolding read_since
read_since-IsUlid from_slice content cursor = read_lines-IsUlid from_slice cursor (lines content)

-- ===== src/LogIo/ReadBack.antt =====
-- What is appended is read back: the log as the list of the messages written to it.
use minara_connect.Base.{
  ℕ, ◌≡◌, refl, ap, ◌∙◌, true, false, Option, none, some, List, [], ◌∷◌, ◌++◌, arith, ◌==◌, Str,
  starts_with, contains_byte, is_utf8, is_empty, ok, >>=-eq-ok, >>-eq-ok, bail_if, append_invariant,
}
use minara_connect.Message.{Message, from_wire_bytes, to_canonical_json}
use minara_connect.Message.Wire.{received_is_canonical}
use minara_connect.Message.Sent.{Built, Built-is_received}
use minara_connect.LogIo.{append, lines, push_byte, read_line, read_lines, read_since}
use minara_connect.LogIo.Lines.{IsLog, empty, last, more, read_since-append}

-- What serde_json promises of one message: its text is UTF-8 with no raw newline and no raw carriage
-- return, is not empty, and parses back to the message.
pub record IsEncoded (from_slice : Str → Option Message) (to_vec : Message → Option Str)
    (m : Message) : Type 0 where
  pub text : Str
  pub encodes : to_vec m ≡ some text
  pub valid : is_utf8 text ≡ true
  pub no_newline : contains_byte text b'\n' ≡ false
  pub no_return : contains_byte text b'\r' ≡ false
  pub ne_nil : is_empty text ≡ false
  pub parses : from_slice text ≡ some m

-- A line with its newline is a log.
pub IsLog-line : (s : Str) → IsLog (s ++ b'\n' ∷ [])
IsLog-line [] = last
IsLog-line (b ∷ []) = more last
IsLog-line (b ∷ c ∷ s) = more (IsLog-line (c ∷ s))

pub IsLog-append : {a b : Str} → IsLog a → IsLog b → IsLog (a ++ b)
IsLog-append empty k = k
IsLog-append last empty = last
IsLog-append last last = more last
IsLog-append last (more k) = more (more k)
IsLog-append (more h) k = more (IsLog-append h k)

starts_with_newline :
    (c : ℕ) (s : Str) → (c == b'\n') ≡ false → starts_with (c ∷ s) (b'\n' ∷ []) ≡ false
unfolding starts_with
starts_with_newline c s h = rw h

-- A text with neither newline nor carriage return is one line.
pub lines-line :
    (s : Str)
    → contains_byte s b'\n' ≡ false
    → contains_byte s b'\r' ≡ false
    → lines (s ++ b'\n' ∷ []) ≡ s ∷ []
unfolding lines contains_byte
lines-line [] h k = refl
lines-line (b ∷ s) h k =
    let ih = lines-line s (ground arith) (ground arith) in
    let nl : (b == b'\n') ≡ false = ground arith in
    let cr : (b == b'\r') ≡ false = ground arith in rw (nl, cr) (ap (push_byte b) ih)

pub read_line_lem :
    (from_slice : Str → Option Message) (s : Str) (m : Message)
    → is_utf8 s ≡ true
    → is_empty s ≡ false
    → from_wire_bytes from_slice s ≡ ok m
    → read_line from_slice none s ≡ some m
unfolding read_line
read_line_lem from_slice s m u n r = rw (u, n, r)

pub read_since-line :
    (from_slice : Str → Option Message) (s : Str) (m : Message)
    → lines (s ++ b'\n' ∷ []) ≡ s ∷ []
    → read_line from_slice none s ≡ some m
    → read_since from_slice (s ++ b'\n' ∷ []) none ≡ m ∷ []
unfolding read_since
read_since-line from_slice s m e r = rw e (rw (r, read_lines) (unfold read_lines in refl))

module _ (from_slice : Str → Option Message) (to_vec : Message → Option Str) where
  -- Appending a message that a receiver would take from its JSON, and what is read then.
  pub append_taken :
      (content : Str) (m : Message)
      → IsLog content
      → (e : IsEncoded from_slice to_vec m) → from_wire_bytes from_slice e.text ≡ ok m
      → (content' : Str) × (append to_vec content m ≡ ok content')
        × IsLog content'
        × (read_since from_slice content' none ≡ read_since from_slice content none ++ m ∷ [])
  unfolding append to_canonical_json
  append_taken content m h e taken = (
    content ++ (e.text ++ b'\n' ∷ []),
    rw (e.encodes) (rw e.no_newline),
    IsLog-append h (IsLog-line e.text),
    read_since-append from_slice none content _ h
        ∙ ap (λ (ms : List Message). read_since from_slice content none ++ ms)
            (read_since-line from_slice e.text m (lines-line e.text e.no_newline e.no_return)
              (read_line_lem from_slice e.text m e.valid e.ne_nil taken)),
  )

  -- What is appended is the JSON that would be sent, and a newline.
  pub append_lem :
      (content content' : Str) (m : Message)
      → append to_vec content m ≡ ok content'
      → (bytes : Str) × (to_canonical_json to_vec m ≡ ok bytes)
        × (content' ≡ content ++ (bytes ++ b'\n' ∷ []))
  unfolding append
  append_lem content content' m h =
      let (bytes, e, h1) = >>=-eq-ok (to_canonical_json to_vec m) _ h in
      let (c, h2) = >>-eq-ok (bail_if (contains_byte bytes b'\n') append_invariant) _ h1 in
      (bytes, e, ground arith)

  -- A message that has been received can be appended.
  pub append_received :
      (content bytes : Str) (m : Message)
      → IsLog content
      → IsEncoded from_slice to_vec m
      → from_wire_bytes from_slice bytes ≡ ok m
      → (content' : Str) × (append to_vec content m ≡ ok content')
        × IsLog content'
        × (read_since from_slice content' none ≡ read_since from_slice content none ++ m ∷ [])
  append_received content bytes m h e taken =
      append_taken content m h e (received_is_canonical from_slice bytes e.text m taken e.parses).1

  -- Appending a message that the program built to a log succeeds, if its JSON is one line of UTF-8
  -- that parses back to it. It leaves a log, in which the message stands behind all that could be
  -- read before.
  pub append_reads_back :
      (content : Str) (m : Message)
      → IsLog content
      → Built m
      → IsEncoded from_slice to_vec m
      → (content' : Str) × (append to_vec content m ≡ ok content')
        × IsLog content'
        × (read_since from_slice content' none ≡ read_since from_slice content none ++ m ∷ [])
  unfolding to_canonical_json
  append_reads_back content m h b e = append_taken content m h e (
      Built-is_received from_slice to_vec m e.text b (unfold to_canonical_json in rw e.encodes)
        (λ _. e.parses))

-- ===== src/ClaudePid/Stat/Parent.antt =====
-- A line of the kernel, whatever the process calls itself.
use minara_connect.Base.{
  ℕ, ◌<◌, ◌≡◌, ◌≢◌, refl, arith, false, none, some, List, [], ◌∷◌, ◌++◌, ◌==◌, All, All-append,
  All-mono, Str, chars-ascii,
}
use minara_connect.ClaudePid.Stat.{
  after_last_close, is_whitespace, scan_words, split_whitespace, parse_u32, second_u32,
  parse_proc_stat_ppid,
}

-- an ASCII character other than `)`
abbrev pub IsInside : ℕ → Type 0
IsInside b = (b < 0x80) × (b ≢ b')')

-- and one that is no white space
abbrev pub IsLetter : ℕ → Type 0
IsLetter b = IsInside b × (is_whitespace b ≡ false)

no_close : (s : Str) → All IsInside s → after_last_close s ≡ none
unfolding after_last_close
no_close [] h = refl
no_close (b ∷ s) h =
    let other : (b == b')') ≡ false = let n = h.0.1 in ground arith in
    rw (no_close s h.1, other, after_last_close) refl

last_close : (front s : Str) → All IsInside s → after_last_close (front ++ b')' ∷ s) ≡ some s
unfolding after_last_close
last_close [] s h = rw (no_close s h, after_last_close) refl
last_close (b ∷ front) s h = rw (last_close front s h, after_last_close) refl

scan_word :
    (word s : List ℕ)
    → All IsLetter word
    → scan_words (word ++ b' ' ∷ s) ≡ (word, split_whitespace s)
unfolding scan_words split_whitespace
scan_word [] s h = refl
scan_word (c ∷ word) s h = rw (scan_word word s h.1, h.0.1) refl

-- The words are taken as they stand.
second_word :
    (state ppid rest : List ℕ)
    → All IsLetter state
    → All IsLetter ppid
    → state ≢ []
    → ppid ≢ []
    → second_u32 (split_whitespace (b' ' ∷ (state ++ b' ' ∷ (ppid ++ b' ' ∷ rest))))
      ≡ parse_u32 ppid
unfolding split_whitespace scan_words
second_word [] ppid rest s p ns np = absurd (ns refl)
second_word (a ∷ state) [] rest s p ns np = absurd (np refl)
second_word (a ∷ state) (c ∷ ppid) rest s p ns np =
    rw (scan_word (a ∷ state) ((c ∷ ppid) ++ b' ' ∷ rest) s) (rw (scan_word (c ∷ ppid) rest p) refl)

-- Behind a command of any characters, parentheses and spaces among them, and the `)` that ends it, a
-- state and a parent are read, where the rest of the line is ASCII without a `)`: the answer is the
-- parent, if it fits 32 bits.
pub parse_proc_stat_ppid_lem :
    (front state ppid rest : Str)
    → All IsLetter state
    → All IsLetter ppid
    → state ≢ []
    → ppid ≢ []
    → All IsInside rest
    → parse_proc_stat_ppid (front ++ b')' ∷ b' ' ∷ (state ++ b' ' ∷ (ppid ++ b' ' ∷ rest)))
      ≡ parse_u32 ppid
unfolding parse_proc_stat_ppid
parse_proc_stat_ppid_lem front state ppid rest s p ns np r =
    let after = b' ' ∷ (state ++ b' ' ∷ (ppid ++ b' ' ∷ rest)) in
    let space : IsInside b' ' = (omega arith, λ e. absurd (omega arith)) in
    let inside : All IsInside after = (
      space,
      All-append IsInside state _ (letters state s)
          (space, All-append IsInside ppid _ (letters ppid p) (space, r)),
    ) in
    rw
      (
        last_close front after inside,
        chars-ascii after (All-mono IsInside (λ b. b < 0x80) after (λ b h. h.0) inside),
        parse_proc_stat_ppid,
      )
      (second_word state ppid rest s p ns np)
  where
    letters : (w : Str) → All IsLetter w → All IsInside w
    letters w h = All-mono IsLetter IsInside w (λ b l. l.0) h

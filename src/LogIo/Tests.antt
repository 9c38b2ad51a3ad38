-- ===== src/LogIo/Tests.antt =====
-- A log of one message, and a line that is no message in front of it.
use minara_connect.Base.{
  ◌≡◌, refl, some, none, [], ◌∷◌, ◌++◌, Str, str, str_eq, contains_byte, is_utf8, ok,
}
use minara_connect.Message.Samples.{hello, hello-Built, to_vec, from_slice}
use minara_connect.LogIo.{append, read_since}
use minara_connect.LogIo.Lines.{
  after_cursor, read_since_cursor, IsLog, last, more, read_since-append,
}
use minara_connect.LogIo.ReadBack.{IsEncoded, append_reads_back}

abbrev broken : Str
broken = str "x\n"

broken-IsLog : IsLog broken
broken-IsLog = more last

hello-IsEncoded : IsEncoded from_slice to_vec hello
unfolding is_utf8 contains_byte str_eq
hello-IsEncoded = record {
  text = str "{m}";
  encodes = refl;
  valid = refl;
  no_newline = refl;
  no_return = refl;
  ne_nil = refl;
  parses = refl;
}

append_reads_back_example :
    (content' : Str) × (append to_vec broken hello ≡ ok content')
    × IsLog content'
    × (read_since from_slice content' none ≡ read_since from_slice broken none ++ hello ∷ [])
append_reads_back_example =
    append_reads_back from_slice to_vec broken hello broken-IsLog hello-Built hello-IsEncoded

read_since-append_test :
    read_since from_slice (broken ++ str "{m}\n") none
    ≡ read_since from_slice broken none ++ read_since from_slice (str "{m}\n") none
read_since-append_test = read_since-append from_slice none broken (str "{m}\n") broken-IsLog

read_since_cursor_test :
    read_since from_slice (str "x\n{m}\n") (some (str "00"))
    ≡ after_cursor (some (str "00")) (read_since from_slice (str "x\n{m}\n") none)
read_since_cursor_test = read_since_cursor from_slice (str "x\n{m}\n") (some (str "00"))

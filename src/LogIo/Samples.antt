-- ===== src/LogIo/Samples.antt =====
-- A log of one message, and one whose only line is no message.
use minara_connect.Base.{
  ◌≡◌, refl, none, [], ◌∷◌, Str, str, str_eq, is_utf8, contains_byte, starts_with,
}
use minara_connect.Message.{from_wire_bytes}
use minara_connect.Message.Samples.{hello, from_slice, hello-is_received}
use minara_connect.LogIo.{lines, read_since, read_lines, read_line}
use minara_connect.LogIo.Lines.{IsLog}
use minara_connect.LogIo.ReadBack.{IsLog-line, lines-line, read_line_lem, read_since-line}

abbrev pub hello_log : Str
hello_log = str "{m}\n"

abbrev pub broken_log : Str
broken_log = str "x\n"

pub hello_log-IsLog : IsLog hello_log
hello_log-IsLog = IsLog-line (str "{m}")

pub broken_log-IsLog : IsLog broken_log
broken_log-IsLog = IsLog-line (str "x")

pub read_since-hello_log : read_since from_slice hello_log none ≡ hello ∷ []
unfolding is_utf8 contains_byte
read_since-hello_log =
    read_since-line from_slice (str "{m}") hello (lines-line (str "{m}") refl refl)
      (read_line_lem from_slice (str "{m}") hello refl refl hello-is_received)

pub read_since-broken_log : read_since from_slice broken_log none ≡ []
unfolding read_since lines read_lines read_line from_wire_bytes str_eq is_utf8 starts_with
read_since-broken_log = refl

-- ===== src/Setup/Tests.antt =====
-- A user with a nickname of 62 bytes, whose AI says hello.
use minara_connect.Base.{
  ◌≡◌, refl, true, some, none, Option, Str, str, ok, Result, trim, chars, starts_with, arith,
}
use minara_connect.Message.Samples.{id, to_vec, normalize_ulid-id}
use minara_connect.Message.Accepted.{IsNickOption}
use minara_connect.RateLimit.{check_and_record, evict}
use minara_connect.ChatSession.Samples.{p1, typed, sender}
use minara_connect.ChatSession.Sender.{
  mcp, local, input, Self, Turn, round, nick_for_msg, trim_newlines,
}
use minara_connect.ChatSession.Sender.Fatal.{is_broken}
use minara_connect.Setup.{ensure_self_nick, sanitize_nick}
use minara_connect.Setup.Nick.{long_nick_ends_session}

abbrev long_nick : Str
long_nick = str "nnnnnnnnnnnnnnnnnnnnnnnnnnnnnnnnnnnnnnnnnnnnnnnnnnnnnnnnnnnnnn"

abbrev self : Self
self = record p1 { self_nick = some long_nick }

abbrev asked : Turn
asked = record typed { event = input (some (str "hi")) mcp }

set_test :
    ◌≡◌ {A = Result (Option Str × Option Str)}
      (ensure_self_nick true (some long_nick) none (str ""))
      (ok (some long_nick, some long_nick))
unfolding ensure_self_nick sanitize_nick trim chars
set_test = refl

long_nick_ends_session_example :
    IsNickOption (nick_for_msg self local) × (is_broken (round to_vec self asked sender) ≡ true)
unfolding trim_newlines starts_with check_and_record evict
long_nick_ends_session_example =
    long_nick_ends_session to_vec true (some long_nick) none (some long_nick) (str "") long_nick
      (str "hi") id self asked sender refl set_test refl (omega arith) refl normalize_ulid-id refl
      refl refl

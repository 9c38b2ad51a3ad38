-- ===== src/ChatSession/Sender/Tests.antt =====
-- Lines that p1 types, and what its AI sends.
use minara_connect.Base.{◌≡◌, ◌↔◌, true, some, List, [], ◌∷◌, Str, str}
use minara_connect.Message.Samples.{normalize_ulid-id, id, to_vec}
use minara_connect.ChatSession.Mentions.{new_mentions}
use minara_connect.ChatSession.Samples.{p1, typed, sender}
use minara_connect.LogIo.Samples.{broken_log-IsLog}
use minara_connect.ChatSession.Sender.{
  InputSource, mcp, SendEvent, input, watchdog, Turn, Self, round, run,
}
use minara_connect.ChatSession.Sender.Breaks.{IsFatalLine, round_breaks_iff}
use minara_connect.ChatSession.Sender.Fatal.{is_broken}
use minara_connect.ChatSession.Sender.Lines.{state_of}
use minara_connect.ChatSession.Sender.Sent.{IsHonest, run-IsHonest}
use minara_connect.ChatSession.Sender.Wake.{run_untyped_wakes_nobody}

-- a user whose nickname is valid, but not with `-cc` behind it
abbrev long_nick : Self
long_nick = record p1 {
  self_nick = some (str "nnnnnnnnnnnnnnnnnnnnnnnnnnnnnnnnnnnnnnnnnnnnnnnnnnnnnnnnnnnnnn");
}

abbrev asked : Turn
asked = record typed { event = input (some (str "hi")) mcp }

abbrev turns : List Turn
turns =
    asked ∷ record typed { event = SendEvent.keepalive } ∷ record typed { event = watchdog } ∷ []

round_breaks_iff_example : (is_broken (round to_vec long_nick asked sender) ≡ true) ↔ (
    (line : Str) × (source : InputSource) × (asked.event ≡ input (some line) source)
    × IsFatalLine long_nick asked sender line source)
round_breaks_iff_example = round_breaks_iff to_vec long_nick asked sender id normalize_ulid-id

run-IsHonest_example : IsHonest to_vec p1 (state_of (run to_vec p1 (typed ∷ turns) sender))
run-IsHonest_example = run-IsHonest to_vec p1 (typed ∷ turns) sender (broken_log-IsLog, tt)

run_untyped_wakes_nobody_example : (state_of (run to_vec p1 turns sender)).mentions ≡ new_mentions
run_untyped_wakes_nobody_example =
    run_untyped_wakes_nobody to_vec p1 turns sender
      ((λ line h. cc), ((λ line h. cc), ((λ line h. cc), tt)))

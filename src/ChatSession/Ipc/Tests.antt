-- ===== src/ChatSession/Ipc/Tests.antt =====
-- What an AI may ask for, and what it is told.
use minara_connect.Base.{◌≢◌, true, none, some, [], str, str_eq, if◌then◌else◌}
use minara_connect.Message.Samples.{from_slice}
use minara_connect.ChatSession.Mentions.{new_mentions}
use minara_connect.ChatSession.Ipc.{Request, Around, Desk, elapsed, dispatch_ipc, wait_action}
use minara_connect.ChatSession.Ipc.Answers.{
  AreAi, dispatch_ipc-AreAi, IsInformed, wait_action-IsInformed,
}

abbrev send_hi : Request
send_hi = record {
  text_of = λ field.
      if str_eq field (str "action")
      then some (str "send")
      else if str_eq field (str "body")
      then some (str "@me hi")
      else none;
  number_of = λ field. none;
}

abbrev around : Around
around = record {
  log = some (str "{m}\n");
  files_dir = some [];
  mention_state = new_mentions;
  wait = λ ms. elapsed;
  has_log_parent = true;
  saved_ok = true;
}

abbrev desk : Desk
desk = record { lines = []; summary = none }

no_source : send_hi.text_of (str "source") ≢ some (str "human")
unfolding str_eq
no_source h = cc

dispatch_ipc-AreAi_example : AreAi (dispatch_ipc from_slice (some send_hi) around desk).0
dispatch_ipc-AreAi_example = dispatch_ipc-AreAi send_hi no_source from_slice around desk tt

wait_action-IsInformed_example :
    IsInformed (send_hi.text_of (str "since_id")) (wait_action from_slice send_hi around)
wait_action-IsInformed_example = wait_action-IsInformed from_slice send_hi around

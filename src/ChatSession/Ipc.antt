-- ===== src/ChatSession/Ipc.antt =====
-- `dispatch_ipc`: the requests that the socket takes. A request is its JSON object, of which a field
-- is read as text or as a number; what arrives while a caller waits is outside.
pub mod Answers
pub mod Tests
use minara_connect.Base.{
  ℕ, min, Bool, true, false, not, Option, none, some, List, [], ◌∷◌, ◌++◌, if◌then◌else◌, Str, str,
  str_eq, is_empty, Error,
}
use minara_connect.Message.{Message}
use minara_connect.ChatSession.Mentions.{MentionEvent, MentionState, snapshot_after}
use minara_connect.ChatSession.Sender.{InputSource, local, mcp}
use minara_connect.ChatSession.History.{
  context_between, recent_messages, summary_payload, FileEntry, list_files_in,
}

-- `v.get(field).and_then(as_str)` and `as_u64`
pub record Request : Type 0 where
  pub text_of : Str → Option Str
  pub number_of : Str → Option ℕ

abbrev pub wait_for_mention_default_ms : ℕ
wait_for_mention_default_ms = 300_000

abbrev pub wait_for_mention_max_ms : ℕ
wait_for_mention_max_ms = 600_000

-- what comes of `timeout(rx.recv())`
pub data Waited : Type 0 where
  got : MentionEvent → Waited
  lagged : ℕ → Waited
  closed elapsed : Waited

pub data IpcError : Type 0 where
  parse_failed missing_body missing_nick_or_body missing_path missing_text no_log_parent : IpcError
  broadcast_closed unknown_action unreadable unsaved : IpcError

pub data Reason : Type 0 where
  buffered at_last : Reason

pub data Answer : Type 0 where
  done timed_out : Answer
  refused : IpcError → Answer
  messages : List Message → Answer
  files : List FileEntry → Answer
  mention : MentionEvent → List Message → Reason → Answer
  skipped : ℕ → Answer

-- What the session has for a request: the lines that wait for the send loop, with their channel, and
-- the summary.
pub record Desk : Type 0 where
  pub lines : List (InputSource × Str)
  pub summary : Option Str

-- What a request meets outside.
pub record Around : Type 0 where
  pub log : Option Str
  pub files_dir : Option (List FileEntry)
  pub mention_state : MentionState
  pub wait : ℕ → Waited
  pub has_log_parent : Bool
  pub saved_ok : Bool

abbrev text_or_empty : Option Str → Str
text_or_empty none = []
text_or_empty (some s) = s

abbrev number_or : ℕ → Option ℕ → ℕ
number_or d none = d
number_or d (some n) = n

-- `pick_input_channel`: the user's only if the request says so
pub pick_input_channel : Request → InputSource
pick_input_channel v = elim (v.text_of (str "source")) [
  | none ↦ mcp
  | some source ↦ if str_eq source (str "human") then local else mcp
]

abbrev pub enter : Request → Str → Desk → Desk
enter v line desk = record desk { lines = desk.lines ++ (pick_input_channel v, line) ∷ [] }

pub send_action : Request → Desk → Desk × Answer
unfolding pick_input_channel
send_action v desk = elim (v.text_of (str "body")) [
  | none ↦ (desk, refused missing_body)
  | some body ↦ if is_empty body then (desk, refused missing_body) else (enter v body desk, done)
]

pub at_action : Request → Desk → Desk × Answer
unfolding pick_input_channel
at_action v desk =
    let nick = text_or_empty (v.text_of (str "nick")) in
    let body = text_or_empty (v.text_of (str "body")) in
    if is_empty nick
    then (desk, refused missing_nick_or_body)
    else if is_empty body
    then (desk, refused missing_nick_or_body)
    else (enter v (str "@" ++ (nick ++ (b' ' ∷ body))) desk, done)

pub drop_action : Request → Desk → Desk × Answer
unfolding pick_input_channel
drop_action v desk = elim (v.text_of (str "path")) [
  | none ↦ (desk, refused missing_path)
  | some path ↦
      if is_empty path
      then (desk, refused missing_path)
      else (enter v (str "/drop " ++ path) desk, done)
]

pub save_action : Request → Around → Desk → Desk × Answer
save_action v around desk = elim (v.text_of (str "text")) [
  | none ↦ (desk, refused missing_text)
  | some text ↦
      if not around.has_log_parent
      then (desk, refused no_log_parent)
      else if around.saved_ok
      then (record desk { summary = some (summary_payload text) }, done)
      else (desk, refused unsaved)
]

module _ (from_slice : Str → Option Message) where
  pub recent_action : Request → Around → Answer
  recent_action v around = elim around.log [
    | none ↦ refused unreadable
    | some content ↦
        messages (recent_messages from_slice content (number_or 20 (v.number_of (str "limit"))))
  ]

  pub files_action : Request → Around → Answer
  files_action v around = elim around.files_dir [
    | none ↦ refused unreadable
    | some entries ↦ files (list_files_in entries (number_or 50 (v.number_of (str "limit"))))
  ]

  -- `mention_hit_response`
  pub mention_hit_response : Around → Option Str → MentionEvent → Reason → Answer
  mention_hit_response around since_id ev reason =
      mention ev (context_between from_slice around.log since_id ev.id) reason

  pub wait_action : Request → Around → Answer
  unfolding mention_hit_response
  wait_action v around =
      let since_id = v.text_of (str "since_id") in
      let timeout_ms =
        min (number_or wait_for_mention_default_ms (v.number_of (str "timeout_ms")))
          wait_for_mention_max_ms in
      elim (snapshot_after since_id around.mention_state) [
        | some ev ↦ mention_hit_response around since_id ev buffered
        | none ↦ elim (around.wait timeout_ms) [
          | got ev ↦ mention_hit_response around since_id ev at_last
          | lagged n ↦ skipped n
          | closed ↦ refused broadcast_closed
          | elapsed ↦ timed_out
        ]
      ]

  -- A request that is no JSON is `none`.
  pub dispatch_ipc : Option Request → Around → Desk → Desk × Answer
  unfolding send_action at_action drop_action save_action recent_action files_action wait_action
  dispatch_ipc none around desk = (desk, refused parse_failed)
  dispatch_ipc (some v) around desk =
      let action = text_or_empty (v.text_of (str "action")) in
      if str_eq action (str "send")
      then send_action v desk
      else if str_eq action (str "at")
      then at_action v desk
      else if str_eq action (str "drop")
      then drop_action v desk
      else if str_eq action (str "recent")
      then (desk, recent_action v around)
      else if str_eq action (str "list_files")
      then (desk, files_action v around)
      else if str_eq action (str "save_summary")
      then save_action v around desk
      else if str_eq action (str "wait_for_mention")
      then (desk, wait_action v around)
      else (desk, refused unknown_action)

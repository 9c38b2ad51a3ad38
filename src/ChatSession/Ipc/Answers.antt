-- ===== src/ChatSession/Ipc/Answers.antt =====
-- What a request may put in front of the send loop, and what a waiting caller is told.
use minara_connect.Base.{
  if◌then◌else◌, min, ◌≡◌, ◌≢◌, refl, ap, ◌∙◌, inl, inr, Bool, true, false, Option, some, [], ◌∷◌,
  ◌++◌, All, All-append, Bool-cases, Option-cases, Str, str, str_eq, str_eq_iff, is_empty,
}
use minara_connect.Message.{Message}
use minara_connect.ChatSession.Mentions.{MentionEvent, snapshot_after}
use minara_connect.ChatSession.Sender.{mcp}
use minara_connect.ChatSession.History.Window.{IsWindow, context_between-IsWindow}
use minara_connect.ChatSession.Ipc.{
  Request, Around, Desk, Answer, mention, Reason, buffered, at_last, text_or_empty,
  pick_input_channel, enter, send_action, at_action, drop_action, save_action, mention_hit_response,
  wait_action, dispatch_ipc, Waited, got, lagged, closed, elapsed, skipped, refused, timed_out,
  broadcast_closed, number_or, wait_for_mention_default_ms, wait_for_mention_max_ms,
}

-- No line that waits for the send loop is the user's own.
abbrev pub AreAi : Desk → Type 0
AreAi desk = All (λ line. line.0 ≡ mcp) desk.lines

module _ (v : Request) (not_human : v.text_of (str "source") ≢ some (str "human")) where
  channel_lem : pick_input_channel v ≡ mcp
  unfolding pick_input_channel
  channel_lem = elim (Option-cases (v.text_of (str "source"))) [
    | inl e ↦ rw (e, pick_input_channel) refl
    | inr (source, e) ↦ elim (Bool-cases (str_eq source (str "human"))) [
      | inl human ↦ absurd (not_human (e ∙ ap some ((str_eq_iff source (str "human")).0 human)))
      | inr other ↦ rw (e, pick_input_channel) (rw other refl)
    ]
  ]

  enter-AreAi : (line : Str) (desk : Desk) → AreAi desk → AreAi (enter v line desk)
  enter-AreAi line desk h =
      All-append (λ l. l.0 ≡ mcp) desk.lines ((pick_input_channel v, line) ∷ []) h (channel_lem, tt)

  send_action-AreAi : (desk : Desk) → AreAi desk → AreAi (send_action v desk).0
  unfolding send_action
  send_action-AreAi desk h = elim (Option-cases (v.text_of (str "body"))) [
    | inl e ↦ rw (e, send_action) h
    | inr (body, e) ↦ elim (Bool-cases (is_empty body)) [
      | inl nil ↦ rw (e, send_action) (rw nil h)
      | inr text ↦ rw (e, send_action) (rw text (enter-AreAi body desk h))
    ]
  ]

  at_action-AreAi : (desk : Desk) → AreAi desk → AreAi (at_action v desk).0
  unfolding at_action
  at_action-AreAi desk h =
      let nick = text_or_empty (v.text_of (str "nick")) in
      let body = text_or_empty (v.text_of (str "body")) in
      elim (Bool-cases (is_empty nick)) [
        | inl nil ↦ rw nil h
        | inr named ↦ elim (Bool-cases (is_empty body)) [
          | inl nil ↦ rw (named, nil) h
          | inr text ↦ rw (named, text) (enter-AreAi (str "@" ++ (nick ++ (b' ' ∷ body))) desk h)
        ]
      ]

  drop_action-AreAi : (desk : Desk) → AreAi desk → AreAi (drop_action v desk).0
  unfolding drop_action
  drop_action-AreAi desk h = elim (Option-cases (v.text_of (str "path"))) [
    | inl e ↦ rw (e, drop_action) h
    | inr (path, e) ↦ elim (Bool-cases (is_empty path)) [
      | inl nil ↦ rw (e, drop_action) (rw nil h)
      | inr text ↦ rw (e, drop_action) (rw text (enter-AreAi (str "/drop " ++ path) desk h))
    ]
  ]

  save_action-AreAi :
      (around : Around) (desk : Desk) → AreAi desk → AreAi (save_action v around desk).0
  unfolding save_action
  save_action-AreAi around desk h = elim (Option-cases (v.text_of (str "text"))) [
    | inl e ↦ rw (e, save_action) h
    | inr (text, e) ↦ elim (Bool-cases around.has_log_parent) [
      | inr none_there ↦ rw (e, save_action) (rw none_there h)
      | inl there ↦ elim (Bool-cases around.saved_ok) [
        | inl saved ↦ rw (e, save_action) (rw (there, saved) h)
        | inr failed ↦ rw (e, save_action) (rw (there, failed) h)
      ]
    ]
  ]

  -- A request that does not say that its source is the human puts no line of the user's own in
  -- front of the send loop, whatever its action.
  pub dispatch_ipc-AreAi :
      (from_slice : Str → Option Message) (around : Around) (desk : Desk)
      → AreAi desk
      → AreAi (dispatch_ipc from_slice (some v) around desk).0
  unfolding dispatch_ipc
  dispatch_ipc-AreAi from_slice around desk h =
      let action = text_or_empty (v.text_of (str "action")) in
      chain (str_eq action (str "send")) _ _ (send_action-AreAi desk h) (
        chain (str_eq action (str "at")) _ _ (at_action-AreAi desk h) (
          chain (str_eq action (str "drop")) _ _ (drop_action-AreAi desk h) (
            chain (str_eq action (str "recent")) _ _ h (
              chain (str_eq action (str "list_files")) _ _ h (
                chain (str_eq action (str "save_summary")) _ _ (save_action-AreAi around desk h)
                  (chain (str_eq action (str "wait_for_mention")) _ _ h h))))))
    where
      chain :
          (b : Bool) (x y : Desk × Answer) → AreAi x.0 → AreAi y.0 → AreAi ((if b then x else y).0)
      chain true x y p q = p
      chain false x y p q = q

-- A mention in the answer comes with a context that is a window of the log.
abbrev pub IsInformed : Option Str → Answer → Type 0
IsInformed since_id (mention ev context reason) = IsWindow since_id ev.id context
IsInformed since_id _ = Unit

module _ (from_slice : Str → Option Message) (v : Request) (around : Around) where
  hit-IsInformed :
      (ev : MentionEvent) (reason : Reason)
      → IsInformed
          (v.text_of (str "since_id"))
          (mention_hit_response from_slice around (v.text_of (str "since_id")) ev reason)
  unfolding mention_hit_response
  hit-IsInformed ev reason =
      context_between-IsWindow from_slice around.log (v.text_of (str "since_id")) ev.id

  -- A caller that waits is told of a mention with at most 50 messages of the log, each with an id
  -- strictly between those of its last mention and of this one, and with none if it had none before.
  pub wait_action-IsInformed :
      IsInformed (v.text_of (str "since_id")) (wait_action from_slice v around)
  unfolding wait_action
  wait_action-IsInformed =
      let since_id = v.text_of (str "since_id") in
      let timeout_ms =
        min (number_or wait_for_mention_default_ms (v.number_of (str "timeout_ms")))
          wait_for_mention_max_ms in
      elim (Option-cases (snapshot_after since_id around.mention_state)) [
        | inr (ev, e) ↦ rw (e, wait_action) (hit-IsInformed ev buffered)
        | inl e ↦ rw (e, wait_action) (waited (around.wait timeout_ms))
      ]
    where
      waited :
          (w : Waited)
          → IsInformed (v.text_of (str "since_id")) (elim w as (λ _. Answer) [
            | got ev ↦
                mention_hit_response from_slice around (v.text_of (str "since_id")) ev at_last
            | lagged n ↦ skipped n
            | closed ↦ refused broadcast_closed
            | elapsed ↦ timed_out
          ])
      waited (got ev) = hit-IsInformed ev at_last
      waited (lagged n) = tt
      waited closed = tt
      waited elapsed = tt

-- ===== src/ChatSession/Mentions/Tests.antt =====
-- A buffer of two mentions, and a caller that has seen neither.
use minara_connect.Base.{◌≡◌, refl, [], ◌∷◌, str, str_cmp, pos}
use minara_connect.ChatSession.Mentions.{
  MentionEvent, MentionState, new_mentions, mention_buffer_cap,
}
use minara_connect.ChatSession.Mentions.Ring.{last_of, push_all, push_all_lem}
use minara_connect.ChatSession.Mentions.Replay.{IsOrdered, replay, first_newer, replay_lem}

abbrev first : MentionEvent
first = record { id = str "B"; ts = pos 1; nick = str "bob"; body = str "@me" }

abbrev second : MentionEvent
second = record { id = str "C"; ts = pos 2; nick = str "eve"; body = str "@me" }

abbrev buffered : MentionState
buffered = record { tx = first ∷ second ∷ []; recent = first ∷ second ∷ [] }

buffered-IsOrdered : IsOrdered buffered.recent
unfolding str_cmp
buffered-IsOrdered = ((refl, tt), (tt, tt))

replay_lem_example : replay 2 (str "A") buffered ≡ first_newer (str "A") (first ∷ second ∷ [])
replay_lem_example = replay_lem buffered (str "A") buffered-IsOrdered

push_all_lem_example :
    (push_all (first ∷ second ∷ []) new_mentions).recent
    ≡ last_of mention_buffer_cap (first ∷ second ∷ [])
push_all_lem_example = push_all_lem (first ∷ second ∷ [])

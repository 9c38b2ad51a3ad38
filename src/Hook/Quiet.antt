-- ===== src/Hook/Quiet.antt =====
-- A prompt with nothing unread.
use minara_connect.Base.{
  ◌≡◌, refl, inl, inr, Option, none, some, List, [], ◌∷◌, All, Option-cases, Bool-cases, Str,
  str_eq, is_empty, ok,
}
use minara_connect.Message.{Message}
use minara_connect.HookFormat.Render.Nothing.{HasNone, render_nothing}
use minara_connect.Hook.{
  World, Setting, Reading, read_session_id, unread, last_id, insert_room, read_rooms, advance_all,
  header_of, output_of, inject, topics_of, run, input_of,
}

-- The log cannot be opened, or has nothing behind the cursor.
abbrev pub IsQuiet : Option (List Message) → Type 0
IsQuiet none = Unit
IsQuiet (some ms) = ms ≡ []

insert_room-HasNone :
    (topic : Str) (rooms : List (Str × List Message))
    → All HasNone rooms
    → All HasNone (insert_room topic [] rooms)
unfolding insert_room
insert_room-HasNone topic [] h = (refl, tt)
insert_room-HasNone topic ((t, ms) ∷ rooms) h = elim (Bool-cases (str_eq t topic)) [
  | inl e ↦ rw e (refl, h.1)
  | inr e ↦ rw e (h.0, insert_room-HasNone topic rooms h.1)
]

module _ (setting : Setting) (session_id : Str) where
  record IsBlank (reading : Reading) : Type 0 where
    rooms_lem : All HasNone reading.rooms
    advances_lem : reading.advances ≡ []

  read_rooms-IsBlank :
      (topics : List Str) (world : World) (reading : Reading)
      → All (λ t. IsQuiet (unread setting session_id world t)) topics
      → IsBlank reading
      → IsBlank (read_rooms setting session_id topics world reading)
  unfolding read_rooms last_id
  read_rooms-IsBlank [] world reading q b = b
  read_rooms-IsBlank (topic ∷ topics) world reading q b =
      elim (Option-cases (unread setting session_id world topic)) [
        | inl e ↦ rw (e, read_rooms) (read_rooms-IsBlank topics world reading q.1 b)
        | inr (ms, e) ↦
            let nil : ms ≡ [] = rw e at q.0 in
            rw (e, nil, read_rooms)
              (read_rooms-IsBlank topics world _ q.1 (record {
                rooms_lem = insert_room-HasNone topic reading.rooms b.rooms_lem;
                advances_lem = b.advances_lem;
              }))
      ]

  inject_quiet :
      ((rooms : List (Str × List Message))
        → All HasNone rooms
        → All HasNone (setting.iteration rooms))
      → (topics : List Str) (world : World)
      → All (λ t. IsQuiet (unread setting session_id world t)) topics
      → inject setting session_id topics world ≡ (world, ok tt)
  unfolding inject output_of advance_all
  inject_quiet iterates topics world q =
      let start : Reading = record { rooms = []; advances = [] } in
      let b =
        read_rooms-IsBlank topics world start q (record { rooms_lem = tt; advances_lem = refl }) in
      let rooms = (read_rooms setting session_id topics world start).rooms in
      let silent =
        render_nothing
          (input_of setting session_id rooms (header_of setting session_id topics rooms))
          (iterates rooms b.rooms_lem) in
      rw (silent, b.advances_lem, inject, output_of) refl

-- Where the bound rooms can be listed, the iteration of a map of rooms without messages has no other
-- rooms, and no room that is bound and alive has anything unread: the hook prints nothing, moves no
-- cursor and succeeds.
pub run_quiet :
    (setting : Setting) (world : World) (bound : List Str)
    → setting.bound_topics ≡ ok bound
    → ((rooms : List (Str × List Message))
        → All HasNone rooms
        → All HasNone (setting.iteration rooms))
    → ((session_id : Str)
        → read_session_id setting.parse_session setting.stdin ≡ some session_id
        → All
            (λ t. IsQuiet (unread setting session_id world t))
            (topics_of bound setting.live_topics))
    → run setting world ≡ (world, ok tt)
unfolding run
run_quiet setting world bound b iterates q =
    elim (Option-cases (read_session_id setting.parse_session setting.stdin)) [
      | inl e ↦ rw (e, run) refl
      | inr (session_id, e) ↦ elim (Option-cases setting.claude_pid) [
        | inl none_found ↦ rw (e, none_found, run) refl
        | inr (pid, found) ↦ elim (Bool-cases (is_empty (topics_of bound setting.live_topics))) [
          | inl nil ↦ rw (e, found, b, run) (rw nil refl)
          | inr some_live ↦
              rw (e, found, b, run)
                (rw some_live (
                  inject_quiet setting session_id iterates (topics_of bound setting.live_topics)
                    world (q session_id e)))
        ]
      ]
    ]

-- ===== src/Hook/Rooms.antt =====
-- crates/cc-connect-hook/src/main.rs, the loop over the topics: what the renderer gets of a room.
use minara_connect.Base.{
  ◌≡◌, refl, sym, ap, subst, ◌∙◌, inl, inr, true, false, Option, none, some, List, [], ◌∷◌, ◌++◌,
  if◌then◌else◌, Bool-cases, Option-cases, Str, str_eq, str_eq_iff,
}
use minara_connect.Message.{Message}
use minara_connect.Hook.{World, Setting, Reading, insert_room, unread, read_rooms}

-- `rooms.get(topic)`
abbrev pub room_of : Str → List (Str × List Message) → Option (List Message)
room_of topic [] = none
room_of topic ((t, ms) ∷ rooms) =
    let rest = room_of topic rooms in if str_eq t topic then some ms else rest

str_eq_self : (s : Str) → str_eq s s ≡ true
str_eq_self s = (str_eq_iff s s).1 refl

room_of-insert_self :
    (topic : Str) (ms : List Message) (rooms : List (Str × List Message))
    → room_of topic (insert_room topic ms rooms) ≡ some ms
unfolding insert_room
room_of-insert_self topic ms [] = rw (str_eq_self topic) refl
room_of-insert_self topic ms ((t, old) ∷ rooms) = elim (Bool-cases (str_eq t topic)) [
  | inl e ↦ rw (e, insert_room) (rw (str_eq_self topic) refl)
  | inr e ↦ rw (e, insert_room) (rw e (room_of-insert_self topic ms rooms))
]

room_of-insert_other :
    (topic t : Str) (ms : List Message) (rooms : List (Str × List Message))
    → str_eq t topic ≡ false
    → room_of topic (insert_room t ms rooms) ≡ room_of topic rooms
unfolding insert_room
room_of-insert_other topic t ms [] other = rw other refl
room_of-insert_other topic t ms ((u, old) ∷ rooms) other = elim (Bool-cases (str_eq u t)) [
  | inl e ↦
      let same : u ≡ t = (str_eq_iff u t).0 e in
      rw (e, insert_room) (rw (other, same) (rw other refl))
  | inr e ↦
      rw (e, insert_room)
        (ap (λ rest. if str_eq u topic then some old else rest)
          (room_of-insert_other topic t ms rooms other))
]

module _ (setting : Setting) (session_id : Str) (world : World) (topic : Str) (new : List Message)
    (is_new : unread setting session_id world topic ≡ some new) where
  -- A room that is read keeps what was read of it, also if its topic comes again.
  room_of-read_rooms_later :
      (topics : List Str) (reading : Reading)
      → room_of topic reading.rooms ≡ some new
      → room_of topic (read_rooms setting session_id topics world reading).rooms ≡ some new
  unfolding read_rooms
  room_of-read_rooms_later [] reading h = h
  room_of-read_rooms_later (t ∷ topics) reading h =
      elim (Option-cases (unread setting session_id world t)) [
        | inl e ↦ rw (e, read_rooms) (room_of-read_rooms_later topics reading h)
        | inr (ms, e) ↦
            rw (e, read_rooms)
              (room_of-read_rooms_later topics _ (elim (Bool-cases (str_eq t topic)) [
                | inl same ↦
                    let t_is : t ≡ topic = (str_eq_iff t topic).0 same in
                    let ms_is : some ms ≡ some new =
                      sym e ∙ ap (unread setting session_id world) t_is ∙ is_new in
                    subst (λ u. room_of topic (insert_room u ms reading.rooms) ≡ some new)
                      (sym t_is) (room_of-insert_self topic ms reading.rooms ∙ ms_is)
                | inr other ↦ room_of-insert_other topic t ms reading.rooms other ∙ h
              ]))
      ]

  -- The loop hands the renderer what is unread in each of the topics.
  pub room_of-read_rooms :
      (xs ys : List Str) (reading : Reading)
      → room_of topic (read_rooms setting session_id (xs ++ topic ∷ ys) world reading).rooms
        ≡ some new
  unfolding read_rooms
  room_of-read_rooms [] ys reading =
      rw (is_new, read_rooms)
        (room_of-read_rooms_later ys _ (room_of-insert_self topic new reading.rooms))
  room_of-read_rooms (x ∷ xs) ys reading = elim (Option-cases (unread setting session_id world x)) [
    | inl e ↦ rw (e, read_rooms) (room_of-read_rooms xs ys reading)
    | inr (ms, e) ↦ rw (e, read_rooms) (room_of-read_rooms xs ys _)
  ]

-- ===== src/Hook/Moves.antt =====
-- Where a run moves the cursors.
use minara_connect.Base.{
  ◌≡◌, refl, ap, sym, subst, ◌∙◌, inl, inr, arith, true, Option, none, some, List, [], ◌∷◌, ◌++◌,
  append_assoc, append-nil, Option-cases, Bool-cases, Str, str_eq, str_eq_iff, str_eq_refl,
  is_empty, ok,
}
use minara_connect.Message.{Message}
use minara_connect.Message.Ulid.{IsUlid}
use minara_connect.Cursor.{CursorFs, content_of, read_cursor, race_retry_limit, advance_cursor}
use minara_connect.Cursor.Race.{IsGiven, is_calm, advance_cursor-IsGiven}
use minara_connect.Cursor.ReadBack.{read-advance_cursor}
use minara_connect.Hook.{
  World, Setting, Reading, unread, last_id, cursor_or_none, read_rooms, set_cursor, advance_all,
  output_of, inject,
}

module _ (setting : Setting) (session_id : Str) where
  abbrev pub last_of_room : Option (List Message) → Option Str
  last_of_room none = none
  last_of_room (some ms) = last_id ms

  -- where a room's cursor is to go
  abbrev pub target : World → Str → Option Str
  target world topic = last_of_room (unread setting session_id world topic)

  abbrev entry : Str → Option Str → List (Str × Str)
  entry topic none = []
  entry topic (some id) = (topic, id) ∷ []

  abbrev pub targets : World → List Str → List (Str × Str)
  targets world [] = []
  targets world (topic ∷ topics) = entry topic (target world topic) ++ targets world topics

  read_rooms-advances :
      (topics : List Str) (world : World) (reading : Reading)
      → (read_rooms setting session_id topics world reading).advances
        ≡ reading.advances ++ targets world topics
  unfolding read_rooms
  read_rooms-advances [] world reading = sym (append-nil reading.advances)
  read_rooms-advances (topic ∷ topics) world reading =
      elim (Option-cases (unread setting session_id world topic)) [
        | inl e ↦ rw (e, read_rooms) (read_rooms-advances topics world reading)
        | inr (ms, e) ↦ elim (Option-cases (last_id ms)) [
          | inl f ↦ rw (e, f, read_rooms) (read_rooms-advances topics world _)
          | inr (id, f) ↦
              rw (e, f, read_rooms)
                (read_rooms-advances topics world _
                  ∙ append_assoc reading.advances ((topic, id) ∷ []) (targets world topics))
        ]
      ]

  -- What every advance of a room to where it is to go keeps is kept by them all.
  module _ (G : CursorFs → Type 0) (topic : Str) (before : World)
      (step : (id : Str) (fs : CursorFs)
        → target before topic ≡ some id
        → G fs
        → G ((advance_cursor (setting.others topic) id fs).0)) where
    moved :
        (t id : Str) (world : World)
        → target before t ≡ some id
        → G (world.cursor session_id topic)
        → G (
            (set_cursor setting session_id t
                ((advance_cursor (setting.others t) id (world.cursor session_id t)).0)
                world).cursor
              session_id topic)
    moved t id world e g = elim (Bool-cases (str_eq topic t)) [
      | inr other ↦ rw (str_eq_refl session_id, other) g
      | inl own ↦
          let same : topic ≡ t = (str_eq_iff topic t).0 own in
          rw (str_eq_refl session_id, own)
            (subst (λ u. G ((advance_cursor (setting.others u) id (world.cursor session_id u)).0))
              same (step id (world.cursor session_id topic) (ap (target before) same ∙ e) g))
    ]

    pub advance_all-keeps :
        (topics : List Str) (world : World)
        → G (world.cursor session_id topic)
        → G ((advance_all setting session_id (targets before topics) world).cursor session_id topic)
    unfolding advance_all
    advance_all-keeps [] world g = g
    advance_all-keeps (t ∷ topics) world g = elim (Option-cases (target before t)) [
      | inl e ↦ rw e (advance_all-keeps topics world g)
      | inr (id, e) ↦ rw e (advance_all-keeps topics _ (moved t id world e g))
    ]

  -- Where a run succeeds, the cursors are where the loop moves them.
  pub injected :
      (topics : List Str) (world : World)
      → (inject setting session_id topics world).1 ≡ ok tt
      → (printed : World) × (printed.cursor ≡ world.cursor)
        × ((inject setting session_id topics world).0
            ≡ advance_all setting session_id (targets world topics) printed)
  unfolding inject
  injected topics world h =
      let reading =
        read_rooms setting session_id topics world (record { rooms = []; advances = [] }) in
      let output = output_of setting session_id topics reading.rooms in
      let advances = read_rooms-advances topics world (record { rooms = []; advances = [] }) in
      elim (Bool-cases (is_empty output)) [
        | inl quiet ↦ (world, refl, rw (quiet, inject) (rw advances refl))
        | inr text ↦ elim (Bool-cases setting.stdout_ok) [
          | inl up ↦ (
            record world { stdout = world.stdout ++ output },
            refl,
            rw (text, up, inject) (rw advances refl),
          )
          | inr down ↦ absurd (let h' = rw (text, down, inject) at h in ground arith)
        ]
      ]

  -- Where the output can be written, a run succeeds.
  pub inject-ok :
      (topics : List Str) (world : World)
      → setting.stdout_ok ≡ true
      → (inject setting session_id topics world).1 ≡ ok tt
  unfolding inject
  inject-ok topics world up =
      let reading =
        read_rooms setting session_id topics world (record { rooms = []; advances = [] }) in
      elim (Bool-cases (is_empty (output_of setting session_id topics reading.rooms))) [
        | inl quiet ↦ rw (quiet, inject) refl
        | inr text ↦ rw (text, up, inject) refl
      ]

  -- the cursor of a session in a room, as it is read
  abbrev pub mark_of : World → Str → Option Str
  mark_of world topic =
      cursor_or_none (read_cursor setting.from_str (content_of (world.cursor session_id topic)))

  -- The cursor file is one that was given out, and holds this mark.
  abbrev pub IsAt : Str → CursorFs → Type 0
  IsAt id fs = IsGiven fs × (read_cursor setting.from_str (content_of fs) ≡ ok (some id))

  module _ (topic id : Str) (before : World) (is_target : target before topic ≡ some id)
      (u : IsUlid id) (calm : is_calm race_retry_limit (setting.others topic) ≡ true) where
    advance-IsAt :
        (i : Str) (fs : CursorFs)
        → target before topic ≡ some i
        → IsGiven fs
        → IsAt id ((advance_cursor (setting.others topic) i fs).0)
    advance-IsAt i fs e g =
        let same : id ≡ i = let k = sym is_target ∙ e in ground arith in
        subst (λ j. IsAt id ((advance_cursor (setting.others topic) j fs).0)) same
          (
            advance_cursor-IsGiven (setting.others topic) id fs g,
            read-advance_cursor setting.from_str (setting.others topic) id fs g u calm,
          )

    pub advance_all-reaches :
        (xs ys : List Str) (world : World)
        → IsGiven (world.cursor session_id topic)
        → IsAt id (
            (advance_all setting session_id (targets before (xs ++ topic ∷ ys)) world).cursor
              session_id topic)
    unfolding advance_all
    advance_all-reaches [] ys world g = rw is_target (
        advance_all-keeps (IsAt id) topic before (λ i fs e at_id. advance-IsAt i fs e at_id.0) ys _
          (rw (str_eq_refl session_id, str_eq_refl topic)
            (advance-IsAt id (world.cursor session_id topic) is_target g)))
    advance_all-reaches (x ∷ xs) ys world g = elim (Option-cases (target before x)) [
      | inl e ↦ rw e (advance_all-reaches xs ys world g)
      | inr (i, e) ↦ rw e (
          advance_all-reaches xs ys _ (
            moved IsGiven topic before
              (λ j fs t given. advance_cursor-IsGiven (setting.others topic) j fs given) x i world e
              g))
    ]

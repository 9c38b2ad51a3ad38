-- ===== src/HookFormat/Render/Nothing.antt =====
-- A prompt for which no room has a message.
use minara_connect.Base.{◌≡◌, refl, List, [], ◌∷◌, All, Str}
use minara_connect.Message.{Message}
use minara_connect.HookFormat.Render.{HookInput, entries, flatten_rooms, render, sort_by}

-- a room without messages
abbrev pub HasNone : Str × List Message → Type 0
HasNone room = room.1 ≡ []

flatten_rooms_nil :
    (rooms : List (Str × List Message)) → All HasNone rooms → flatten_rooms rooms ≡ []
flatten_rooms_nil [] h = refl
flatten_rooms_nil ((topic, ms) ∷ rooms) h = rw (h.0, flatten_rooms_nil rooms h.1)

-- Where no room has a message, nothing is rendered, not even the summaries.
pub render_nothing : (input : HookInput) → All HasNone input.rooms → render input ≡ []
unfolding render entries sort_by
render_nothing input h = rw (flatten_rooms_nil input.rooms h, render, entries) refl

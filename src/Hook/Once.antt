-- ===== src/Hook/Once.antt =====
-- Each message of a room is read for a session once.
use minara_connect.Base.{◌≡◌, some, List, [], Str}
use minara_connect.Message.{Message}
use minara_connect.Hook.{World, Setting, Reading, read_rooms}
use minara_connect.Hook.Rooms.{room_of}

abbrev no_rooms : Reading
no_rooms = record { rooms = []; advances = [] }

module _ (setting : Setting) (session_id : Str) where
  -- These messages are what the run over the topics gives to the renderer for the room.
  abbrev pub IsHanded : World → List Str → Str → List Message → Type 0
  IsHanded world topics topic ms =
      room_of topic (read_rooms setting session_id topics world no_rooms).rooms ≡ some ms

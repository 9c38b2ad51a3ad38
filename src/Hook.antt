-- ===== src/Hook.antt =====
-- crates/cc-connect-hook/src/main.rs: what the hook prints before a prompt, and how far it moves the
-- cursors. Header has the text in front, and Active the rooms whose daemon is alive. The files, the
-- process tree and the standard streams are outside.
pub mod Header
pub mod Active
pub mod Marks
pub mod Moves
pub mod Rooms
pub mod Once
pub mod Quiet
pub mod Tests
use minara_connect.Base.{
  ℕ, Bool, true, false, not, Option, none, some, List, [], ◌∷◌, ◌++◌, any, length, if◌then◌else◌,
  Str, str_eq, is_empty, trim, Error, Result, ok, err, io_error,
}
use minara_connect.Message.{Message}
use minara_connect.LogIo.{read_since}
use minara_connect.Cursor.{CursorFs, content_of, read_cursor, advance_cursor}
use minara_connect.HookFormat.Mentions.{is_owner_directive}
use minara_connect.HookFormat.Render.{HookInput, render, sort_by, same_str}
use minara_connect.Hook.Header.{build_orientation_header}

-- `read_session_id`; `parse` reads the field of the JSON.
pub read_session_id : (Str → Option Str) → Str → Option Str
read_session_id parse buf =
    if is_empty (trim buf)
    then none
    else elim (parse buf) [ none ↦ none | some id ↦ if is_empty id then none else some id ]

-- The log of each room, if it can be opened, the cursor of each session in each room, and what has
-- been printed.
pub record World : Type 0 where
  pub log : Str → Option Str
  pub cursor : Str → Str → CursorFs
  pub stdout : Str

-- What the hook meets: the JSON readers, its input, its ancestor, `list_topics` and
-- `enumerate_active_rooms`, the user's files, the order in which a hash map is iterated, the other
-- writers of each cursor, and whether the output can be written.
pub record Setting : Type 0 where
  pub from_slice : Str → Option Message
  pub from_str : Str → Option Str
  pub parse_session : Str → Option Str
  pub stdin : Str
  pub claude_pid : Option ℕ
  pub bound_topics : Result (List Str)
  pub live_topics : Result (List Str)
  pub nicknames : Str → Option Str
  pub rooms_base : Str
  pub self_nick : Option Str
  pub self_pubkey : Option Str
  pub owner_only : Bool
  pub summary_file : Str → Option Str
  pub index_file : Str → Option Str
  pub iteration : List (Str × List Message) → List (Str × List Message)
  pub others : Str → List (List Str)
  pub stdout_ok : Bool

-- `live_topics.iter().any(|live| live == t)`
abbrev pub is_live : List Str → Str → Bool
is_live live topic = any (λ l. str_eq l topic) live

pub keep_live : List Str → List Str → List Str
keep_live live [] = []
keep_live live (topic ∷ topics) =
    let rest = keep_live live topics in if is_live live topic then topic ∷ rest else rest

-- `rooms.insert(topic_id, messages)`
pub insert_room : Str → List Message → List (Str × List Message) → List (Str × List Message)
insert_room topic ms [] = (topic, ms) ∷ []
insert_room topic ms ((t, old) ∷ rooms) =
    let rest = insert_room topic ms rooms in
    if str_eq t topic then (topic, ms) ∷ rooms else (t, old) ∷ rest

-- `messages.last().map(|m| m.id.clone())`
pub last_id : List Message → Option Str
last_id [] = none
last_id (m ∷ []) = some m.id
last_id (m ∷ n ∷ ms) = last_id (n ∷ ms)

-- `read_cursor(..).unwrap_or(None)`
abbrev pub cursor_or_none : Result (Option Str) → Option Str
cursor_or_none (ok cursor) = cursor
cursor_or_none (err e) = none

-- `read_room_summaries` and `read_room_file_indexes`: a file that is blank is none
abbrev unless_blank : (Str → Option Str) → Str → Option Str
unless_blank file topic = elim (file topic) [
  | none ↦ none
  | some text ↦ if is_empty (trim text) then none else some text
]

abbrev has_messages : Str × List Message → Bool
has_messages room = not (is_empty room.1)

pub record Reading : Type 0 where
  pub rooms : List (Str × List Message)
  pub advances : List (Str × Str)

module _ (setting : Setting) (session_id : Str) where
  -- what a room has that the session has not seen
  pub unread : World → Str → Option (List Message)
  unread world topic = elim (world.log topic) [
    | none ↦ none
    | some content ↦ some (
        read_since setting.from_slice content (
          cursor_or_none
            (read_cursor setting.from_str (content_of (world.cursor session_id topic)))))
  ]

  abbrev add_advance : Str → Option Str → List (Str × Str) → List (Str × Str)
  add_advance topic none advances = advances
  add_advance topic (some highest) advances = advances ++ (topic, highest) ∷ []

  -- the loop over the topics
  pub read_rooms : List Str → World → Reading → Reading
  unfolding unread
  read_rooms [] world reading = reading
  read_rooms (topic ∷ topics) world reading = elim (unread world topic) [
    | none ↦ read_rooms topics world reading
    | some ms ↦ read_rooms topics world (record {
      rooms = insert_room topic ms reading.rooms;
      advances = add_advance topic (last_id ms) reading.advances;
    })
  ]

  -- `cursors` with one of this session replaced
  abbrev pub set_cursor : Str → CursorFs → World → World
  set_cursor topic fs world = record world {
    cursor = λ s t.
        if str_eq s session_id
        then (if str_eq t topic then fs else world.cursor s t)
        else world.cursor s t;
  }

  -- the loop over `cursor_advances`; a failed advance is only logged
  pub advance_all : List (Str × Str) → World → World
  advance_all [] world = world
  advance_all ((topic, ulid) ∷ advances) world = advance_all advances (
      set_cursor topic
        ((advance_cursor (setting.others topic) ulid (world.cursor session_id topic)).0) world)

  abbrev directive : Message → Bool
  directive m = is_owner_directive m setting.self_pubkey setting.self_nick setting.owner_only

  -- the header, where there is anything unread
  pub header_of : List Str → List (Str × List Message) → Str
  header_of topic_ids rooms =
      if any has_messages rooms
      then build_orientation_header topic_ids setting.self_nick
          (any (λ room. any directive room.1) rooms)
      else []

  -- the input of the renderer
  abbrev pub input_of : List (Str × List Message) → Str → HookInput
  input_of rooms header = record {
    rooms = setting.iteration rooms;
    nicknames = setting.nicknames;
    rooms_base = setting.rooms_base;
    self_nick = setting.self_nick;
    self_pubkey = setting.self_pubkey;
    owner_only_mentions = setting.owner_only;
    room_summaries = unless_blank setting.summary_file;
    room_file_indexes = unless_blank setting.index_file;
    external_prefix_bytes = length header;
  }

  pub output_of : List Str → List (Str × List Message) → Str
  unfolding header_of
  output_of topic_ids rooms =
      let header = header_of topic_ids rooms in
      let body = render (input_of rooms header) in if is_empty body then [] else header ++ body

  -- steps 4 to 8, on the topics in their order
  pub inject : List Str → World → World × Result (Unit {0})
  unfolding read_rooms output_of advance_all
  inject topic_ids world =
      let reading = read_rooms topic_ids world (record { rooms = []; advances = [] }) in
      let output = output_of topic_ids reading.rooms in
      if is_empty output
      then (advance_all reading.advances world, ok tt)
      else if setting.stdout_ok
      then (advance_all reading.advances (record world { stdout = world.stdout ++ output }), ok tt)
      else (world, err io_error)

abbrev live_or_none : Result (List Str) → List Str
live_or_none (ok live) = live
live_or_none (err e) = []

-- what is left of the bound topics, in their order
pub topics_of : List Str → Result (List Str) → List Str
unfolding keep_live
topics_of bound live = sort_by same_str (keep_live (live_or_none live) bound)

pub run : Setting → World → World × Result (Unit {0})
unfolding read_session_id topics_of inject
run setting world = elim (read_session_id setting.parse_session setting.stdin) [
  | none ↦ (world, ok tt)
  | some session_id ↦ elim setting.claude_pid [
    | none ↦ (world, ok tt)
    | some pid ↦ elim setting.bound_topics [
      | err e ↦ (world, err e)
      | ok bound ↦
          if is_empty (topics_of bound setting.live_topics)
          then (world, ok tt)
          else inject setting session_id (topics_of bound setting.live_topics) world
    ]
  ]
]

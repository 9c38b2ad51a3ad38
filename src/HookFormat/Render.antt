-- ===== src/HookFormat/Render.antt =====
-- `render`: the merged lines of all rooms under the preamble of summaries and file lists.
pub mod Tests
pub mod Order
pub mod Cap
pub mod Full
pub mod Nothing
use minara_connect.Base.{
  ℕ, suc, ◌+◌, ◌-◌, ◌*◌, Bool, true, false, Option, none, some, List, [], ◌∷◌, ◌++◌, map, leb,
  length, Str, str, str_le, is_empty, trim, if◌then◌else◌,
}
use minara_connect.Message.{Message}
use minara_connect.HookFormat.Budget.{concat, fit_to_budget}
use minara_connect.HookFormat.Truncate.{truncate_head, tail_lines_within_budget}
use minara_connect.HookFormat.Line.{topic_tag, format_line}

abbrev pub hook_output_budget : ℕ
hook_output_budget = 8 * 1024

abbrev pub summary_budget : ℕ
summary_budget = 1536

abbrev pub files_index_budget : ℕ
files_index_budget = 1536

-- `rooms` has its entries in the order in which the `HashMap` is iterated, which is not fixed.
pub record HookInput : Type 0 where
  pub rooms : List (Str × List Message)
  pub nicknames : Str → Option Str
  pub rooms_base : Str
  pub self_nick : Option Str
  pub self_pubkey : Option Str
  pub owner_only_mentions : Bool
  pub room_summaries : Str → Option Str
  pub room_file_indexes : Str → Option Str
  pub external_prefix_bytes : ℕ

-- A stable sort by a key: `sort_by` and `sort` of the standard library.
module _ {ℓ} {A : Type ℓ} (key : A → Str) where
  pub insert_by : A → List A → List A
  insert_by x [] = x ∷ []
  insert_by x (y ∷ ys) =
      let behind = y ∷ insert_by x ys in if str_le (key x) (key y) then x ∷ y ∷ ys else behind

  pub sort_by : List A → List A
  unfolding insert_by
  sort_by [] = []
  sort_by (x ∷ xs) = insert_by x (sort_by xs)

-- the messages of all rooms, each with the topic of its room
abbrev pub flatten_rooms : List (Str × List Message) → List (Str × Message)
flatten_rooms [] = []
flatten_rooms ((topic, msgs) ∷ rooms) = map (λ m. (topic, m)) msgs ++ flatten_rooms rooms

abbrev pub entry_id : Str × Message → Str
entry_id e = e.1.id

abbrev pub topic_of : Str × List Message → Str
topic_of room = room.0

abbrev pub same_str : Str → Str
same_str s = s

pub entries : HookInput → List (Str × Message)
unfolding sort_by
entries input = sort_by entry_id (flatten_rooms input.rooms)

abbrev pub multi_room : HookInput → Bool
multi_room input = leb 2 (length input.rooms)

pub line_of : HookInput → Str × Message → Str
line_of input (topic, m) =
    format_line topic m input.nicknames input.rooms_base (multi_room input) input.self_nick
      input.self_pubkey input.owner_only_mentions

-- the header of a section: its name, and the tag of the room if there are several
abbrev pub section_header : Str → Bool → Str → Str
section_header name multi topic =
    if multi
    then str "[cc-connect " ++ (name ++ (b' ' ∷ (topic_tag topic ++ str "]")))
    else str "[cc-connect " ++ (name ++ str "]")

-- one round of either loop over the topics
pub section : Str → (Str → ℕ → Str) → ℕ → Bool → Str → Option Str → Str
section name cut budget multi topic none = []
section name cut budget multi topic (some text) =
    if is_empty (trim text)
    then []
    else section_header name multi topic ++ (b'\n' ∷ (cut (trim text) budget ++ str "\n\n"))

pub topics : HookInput → List Str
unfolding sort_by
topics input = sort_by same_str (map topic_of input.rooms)

abbrev pub summary_section : HookInput → Str → Str
summary_section input topic =
    section (str "summary") truncate_head summary_budget (multi_room input) topic
      (input.room_summaries topic)

abbrev pub files_section : HookInput → Str → Str
files_section input topic =
    section (str "files") tail_lines_within_budget files_index_budget (multi_room input) topic
      (input.room_file_indexes topic)

pub preamble : HookInput → Str
unfolding section topics
preamble input =
    concat (map (summary_section input) (topics input))
    ++ concat (map (files_section input) (topics input))

pub render : HookInput → Str
unfolding line_of
render input =
    if is_empty (entries input)
    then []
    else preamble input
      ++ fit_to_budget (map (line_of input) (entries input))
          (hook_output_budget - (length (preamble input) + input.external_prefix_bytes))

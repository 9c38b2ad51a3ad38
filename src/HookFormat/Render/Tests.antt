-- ===== src/HookFormat/Render/Tests.antt =====
-- One message of one room, rendered.
use minara_connect.Base.{
  ℕ, zero, suc, Str, str_cmp, trim, ◌+◌, ◌≤◌, ◌<◌, ◌≡◌, refl, false, none, some, [], ◌∷◌, length,
  arith, str, to_ascii_lowercase, take_chars,
}
use minara_connect.Message.Samples.{hello}
use minara_connect.HookFormat.Render.{
  HookInput, hook_output_budget, entries, entry_id, flatten_rooms, preamble, render,
}
use mathlib.Core.List.{Perm}
use minara_connect.HookFormat.Render.Order.{IsAscending, entries_are_sorted}
use minara_connect.HookFormat.Render.Full.{IsFull, HasFull, three_rooms_pass_cap}
use minara_connect.HookFormat.Render.Cap.{render_within_cap, two_rooms_within_cap}

abbrev input : ℕ → HookInput
input prefix = record {
  rooms = (str "ab12cd34", hello ∷ []) ∷ [];
  nicknames = λ _. none;
  rooms_base = str "/r";
  self_nick = some (str "bob");
  self_pubkey = some (str "me");
  owner_only_mentions = false;
  room_summaries = λ _. none;
  room_file_indexes = λ _. none;
  external_prefix_bytes = prefix;
}

entries_are_sorted_test :
    IsAscending entry_id (entries (input 0))
    × Perm (entries (input 0)) (flatten_rooms ((input 0).rooms))
entries_are_sorted_test = entries_are_sorted (input 0)

two_rooms_within_cap_example : 100 + length (render (input 100)) ≤ hook_output_budget
unfolding to_ascii_lowercase take_chars
two_rooms_within_cap_example =
    two_rooms_within_cap (input 100) (omega arith) (omega arith, tt) (omega arith)

preamble_is_empty : (n : ℕ) → preamble (input n) ≡ []
unfolding preamble
preamble_is_empty n = refl

render_within_cap_test : 100 + length (render (input 100)) ≤ hook_output_budget
render_within_cap_test = render_within_cap (input 100) (rw preamble_is_empty (omega arith))

-- a summary, or a list of files, of this many bytes
abbrev xs : ℕ → Str
xs zero = []
xs (suc n) = b'x' ∷ xs n

abbrev three_rooms : HookInput
three_rooms = record (input 1500) {
  rooms = (str "ab12cd34", hello ∷ []) ∷ (str "bb12cd34", []) ∷ (str "cb12cd34", hello ∷ []) ∷ [];
  room_summaries = λ _. some (xs 1400);
  room_file_indexes = λ _. some (xs 1500);
}

summary-IsFull : (topic : Str) → IsFull three_rooms.room_summaries topic
unfolding trim
summary-IsFull topic = record {
  text = xs 1400;
  has_text = refl;
  long = omega arith;
  fits = omega arith;
}

index-IsFull : (topic : Str) → IsFull three_rooms.room_file_indexes topic
unfolding trim
index-IsFull topic = record {
  text = xs 1500;
  has_text = refl;
  long = omega arith;
  fits = omega arith;
}

room-HasFull : (topic : Str) → HasFull three_rooms topic
room-HasFull topic = (summary-IsFull topic, index-IsFull topic)

three_rooms_pass_cap_example : hook_output_budget < length (render three_rooms)
unfolding entries str_cmp
three_rooms_pass_cap_example =
    three_rooms_pass_cap three_rooms (omega arith)
      (
        room-HasFull (str "ab12cd34"),
        (room-HasFull (str "bb12cd34"), (room-HasFull (str "cb12cd34"), tt)),
      )
      refl

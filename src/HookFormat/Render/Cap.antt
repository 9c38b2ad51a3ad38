-- ===== src/HookFormat/Render/Cap.antt =====
-- The 8 KiB cap on what the hook prints.
use minara_connect.Base.{
  ℕ, ◌+◌, ◌-◌, ◌*◌, ◌≤◌, ◌≡◌, inl, inr, Bool, true, false, Option, none, some, List, [], ◌∷◌, ◌++◌,
  map, arith, length, length-append, drop, All, All-map, All-mono, length-map, ◌∙◌, Str, str,
  is_empty, trim, Bool-cases,
}
use minara_connect.HookFormat.Budget.{fit_to_budget}
use minara_connect.HookFormat.Budget.Best.{length-fit_to_budget}
use minara_connect.HookFormat.Truncate.{truncate_head, tail_lines_within_budget, older_marker}
use minara_connect.HookFormat.Truncate.Head.{truncate_head_lem}
use minara_connect.HookFormat.Truncate.Tail.{tail_lines-IsLongest}
use minara_connect.HookFormat.Line.{topic_tag}
use minara_connect.HookFormat.Budget.{concat}
use minara_connect.HookFormat.Render.Order.{length-sort_by, All-sort_by}
use minara_connect.HookFormat.Render.{
  section, section_header, multi_room, topics, topic_of, same_str, summary_section, files_section,
  summary_budget, files_index_budget, HookInput, entries, preamble, line_of, render,
  hook_output_budget,
}

-- The caller's prefix and the rendered text stay within the cap whenever the prefix and the
-- preamble do.
pub render_within_cap :
    (input : HookInput)
    → input.external_prefix_bytes + length (preamble input) ≤ hook_output_budget
    → input.external_prefix_bytes + length (render input) ≤ hook_output_budget
unfolding render
render_within_cap input h = elim (Bool-cases (is_empty (entries input))) [
  | inl none_new ↦ rw none_new (omega arith)
  | inr some_new ↦ rw some_new (
      let fits =
        length-fit_to_budget (map (line_of input) (entries input))
          (hook_output_budget - (length (preamble input) + input.external_prefix_bytes)) in
      omega (
        arith,
        length-append (preamble input) (
            fit_to_budget (map (line_of input) (entries input))
              (hook_output_budget - (length (preamble input) + input.external_prefix_bytes))),
      ))
]

length-cut_summary : (s : Str) → length (truncate_head s summary_budget) ≤ 1536
length-cut_summary s = elim (truncate_head_lem s summary_budget (omega arith)) [
  | inl (le, e) ↦ rw e le
  | inr (_, _, _, _, le, _) ↦ le
]

-- The marker of the file list comes on top of its limit.
length-cut_files : (s : Str) → length (tail_lines_within_budget s files_index_budget) ≤ 1536 + 29
length-cut_files s = elim (tail_lines-IsLongest s files_index_budget) [
  | inl (le, e) ↦ rw e (omega arith)
  | inr (_, inl (start, _, e, le, _)) ↦
      rw e (omega (arith, length-append older_marker (drop start s)))
  | inr (_, inr (e, _)) ↦ rw e (omega (arith, length-cut_summary s))
]

-- the tag of a topic is at most six bytes long, as that of a hexadecimal topic is
abbrev pub HasShortTag : Str → Type 0
HasShortTag topic = length (topic_tag topic) ≤ 6

module _ (name : Str) (cut : Str → ℕ → Str) (budget limit : ℕ)
    (cut_le : (s : Str) → length (cut s budget) ≤ limit) where
  length-header :
      (multi : Bool) (topic : Str)
      → HasShortTag topic
      → length (section_header name multi topic) ≤ length name + 20
  length-header true topic short = omega (
    arith,
    length-append name (b' ' ∷ (topic_tag topic ++ str "]")),
    length-append (topic_tag topic) (str "]"),
  )
  length-header false topic short = omega (arith, length-append name (str "]"))

  length-section :
      (multi : Bool) (topic : Str) (text : Option Str)
      → HasShortTag topic
      → length (section name cut budget multi topic text) ≤ length name + 23 + limit
  unfolding section
  length-section multi topic none short = omega arith
  length-section multi topic (some text) short = elim (Bool-cases (is_empty (trim text))) [
    | inl e ↦ rw e (omega arith)
    | inr e ↦ rw e (
        omega (
          arith,
          length-header multi topic short,
          cut_le (trim text),
          length-append (section_header name multi topic)
              (b'\n' ∷ (cut (trim text) budget ++ str "\n\n")),
          length-append (cut (trim text) budget) (str "\n\n"),
        ))
  ]

length-concat-map :
    (f : Str → Str) (limit : ℕ) (ts : List Str)
    → All (λ t. length (f t) ≤ limit) ts
    → length (concat (map f ts)) ≤ limit * length ts
length-concat-map f limit [] h = omega arith
length-concat-map f limit (t ∷ ts) h =
    grind (arith, length-append (f t) (concat (map f ts)), length-concat-map f limit ts h.1)

length-summary_section :
    (input : HookInput) (topic : Str)
    → HasShortTag topic
    → length (summary_section input topic) ≤ 1566
length-summary_section input topic short =
    length-section (str "summary") truncate_head summary_budget 1536 length-cut_summary
      (multi_room input) topic (input.room_summaries topic) short

length-files_section :
    (input : HookInput) (topic : Str)
    → HasShortTag topic
    → length (files_section input topic) ≤ 1593
length-files_section input topic short =
    length-section (str "files") tail_lines_within_budget files_index_budget (1536 + 29)
      length-cut_files (multi_room input) topic (input.room_file_indexes topic) short

pub length-topics : (input : HookInput) → length (topics input) ≡ length input.rooms
unfolding topics
length-topics input =
    length-sort_by same_str (map topic_of input.rooms) ∙ length-map topic_of input.rooms

-- Each room adds at most 3159 bytes of preamble.
pub length-preamble :
    (input : HookInput)
    → All (λ room. HasShortTag room.0) input.rooms
    → length (preamble input) ≤ 3159 * length input.rooms
unfolding preamble topics
length-preamble input short =
    let tags =
      All-sort_by same_str HasShortTag _ (All-map HasShortTag topic_of input.rooms short) in
    let summaries =
      length-concat-map (summary_section input) 1566 (topics input)
        (All-mono HasShortTag _ (topics input) (length-summary_section input) tags) in
    let files =
      length-concat-map (files_section input) 1593 (topics input)
        (All-mono HasShortTag _ (topics input) (length-files_section input) tags) in
    omega (
      arith,
      summaries,
      files,
      length-append (concat (map (summary_section input) (topics input)))
          (concat (map (files_section input) (topics input))),
      length-topics input,
    )

-- With at most two rooms, whose tags are at most 6 bytes long, and a prefix of at most 1874 bytes,
-- the prefix and the rendered text stay within the cap, whatever summaries, file lists and messages
-- there are.
pub two_rooms_within_cap :
    (input : HookInput)
    → length input.rooms ≤ 2
    → All (λ room. HasShortTag room.0) input.rooms
    → input.external_prefix_bytes ≤ 1874
    → input.external_prefix_bytes + length (render input) ≤ hook_output_budget
two_rooms_within_cap input two short prefix =
    render_within_cap input (omega (arith, length-preamble input short))

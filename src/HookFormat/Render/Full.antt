-- ===== src/HookFormat/Render/Full.antt =====
-- Three rooms with full summaries and file lists pass the 8 KiB cap.
use minara_connect.Base.{
  ℕ, ◌+◌, ◌-◌, ◌*◌, ◌≤◌, ◌<◌, ◌≡◌, refl, inl, inr, Bool, true, false, Option, some, List, [], ◌∷◌,
  ◌++◌, map, arith, length, length-append, All, All-map, All-mono, Str, str, is_empty, trim,
}
use minara_connect.HookFormat.Budget.{fit_to_budget, concat}
use minara_connect.HookFormat.Truncate.{truncate_head, tail_lines_within_budget}
use minara_connect.HookFormat.Truncate.Head.{truncate_head_lem}
use minara_connect.HookFormat.Truncate.Tail.{tail_lines-IsLongest}
use minara_connect.HookFormat.Render.Order.{All-sort_by}
use minara_connect.HookFormat.Render.Cap.{length-topics}
use minara_connect.HookFormat.Render.{
  section, section_header, multi_room, topics, topic_of, same_str, summary_section, files_section,
  summary_budget, files_index_budget, HookInput, entries, preamble, line_of, render,
  hook_output_budget,
}

-- The file of the topic has from 1365 bytes to 1.5 KiB, the white space at its ends not counted.
pub record IsFull (file : Str → Option Str) (topic : Str) : Type 0 where
  pub text : Str
  pub has_text : file topic ≡ some text
  pub long : 1365 ≤ length (trim text)
  pub fits : length (trim text) ≤ 1536

is_empty-long : (s : Str) → 1365 ≤ length s → is_empty s ≡ false
is_empty-long [] h = absurd (omega arith)
is_empty-long (b ∷ s) h = refl

uncut_summary : (s : Str) → length s ≤ 1536 → truncate_head s summary_budget ≡ s
uncut_summary s fits = elim (truncate_head_lem s summary_budget (omega arith)) [
  | inl (le, e) ↦ e
  | inr h ↦ absurd (let lt = h.0 in omega arith)
]

uncut_files : (s : Str) → length s ≤ 1536 → tail_lines_within_budget s files_index_budget ≡ s
uncut_files s fits = elim (tail_lines-IsLongest s files_index_budget) [
  | inl (le, e) ↦ e
  | inr h ↦ absurd (let lt = h.0 in omega arith)
]

module _ (name : Str) (cut : Str → ℕ → Str) (budget : ℕ)
    (uncut : (s : Str) → length s ≤ 1536 → cut s budget ≡ s) where
  twelve-header : (multi : Bool) (topic : Str) → 12 ≤ length (section_header name multi topic)
  twelve-header true topic = omega arith
  twelve-header false topic = omega arith

  -- the text, its header and the empty line behind it
  full-section :
      (multi : Bool) (topic : Str) (file : Str → Option Str)
      → IsFull file topic
      → 1380 ≤ length (section name cut budget multi topic (file topic))
  unfolding section
  full-section multi topic file full =
      rw (full.has_text, section)
        (rw (is_empty-long (trim full.text) full.long, uncut (trim full.text) full.fits)
          (let long = full.long in
            omega (
              arith,
              twelve-header multi topic,
              length-append (section_header name multi topic)
                  (b'\n' ∷ (trim full.text ++ str "\n\n")),
              length-append (trim full.text) (str "\n\n"),
            )))

concat-map-length :
    (f : Str → Str) (least : ℕ) (ts : List Str)
    → All (λ t. least ≤ length (f t)) ts
    → least * length ts ≤ length (concat (map f ts))
concat-map-length f least [] h = omega arith
concat-map-length f least (t ∷ ts) h =
    grind (arith, length-append (f t) (concat (map f ts)), concat-map-length f least ts h.1)

-- The room has both files.
abbrev pub HasFull : HookInput → Str → Type 0
HasFull input topic = IsFull input.room_summaries topic × IsFull input.room_file_indexes topic

full-preamble :
    (input : HookInput)
    → All (λ room. HasFull input room.0) input.rooms
    → 2760 * length input.rooms ≤ length (preamble input)
unfolding preamble topics
full-preamble input full =
    let tags =
      All-sort_by same_str (HasFull input) _ (All-map (HasFull input) topic_of input.rooms full) in
    let summaries = concat-map-length (summary_section input) 1380 (topics input) (
      All-mono (HasFull input) _ (topics input)
        (λ t h.
          full-section (str "summary") truncate_head summary_budget uncut_summary (multi_room input)
            t input.room_summaries h.0)
        tags) in
    let files = concat-map-length (files_section input) 1380 (topics input) (
      All-mono (HasFull input) _ (topics input)
        (λ t h.
          full-section (str "files") tail_lines_within_budget files_index_budget uncut_files
            (multi_room input) t input.room_file_indexes h.1)
        tags) in
    omega (
      arith,
      summaries,
      files,
      length-append (concat (map (summary_section input) (topics input)))
          (concat (map (files_section input) (topics input))),
      length-topics input,
    )

-- With three or more rooms, each with a summary and a file list of 1365 bytes to 1.5 KiB, and a
-- message in any of them: the rendered text alone passes the cap of 8 KiB.
pub three_rooms_pass_cap :
    (input : HookInput)
    → 3 ≤ length input.rooms
    → All (λ room. HasFull input room.0) input.rooms
    → is_empty (entries input) ≡ false
    → hook_output_budget < length (render input)
unfolding render
three_rooms_pass_cap input three full some_new = rw some_new (
    omega (
      arith,
      full-preamble input full,
      length-append (preamble input) (
          fit_to_budget (map (line_of input) (entries input))
            (hook_output_budget - (length (preamble input) + input.external_prefix_bytes))),
    ))

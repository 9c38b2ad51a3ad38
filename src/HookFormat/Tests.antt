-- ===== src/HookFormat/Tests.antt =====
-- The parts of the rendered text.
use minara_connect.Base.{
  ℕ, ◌+◌, ◌-◌, ◌/◌, ◌%◌, ◌*◌, ◌≤◌, ◌<◌, ◌≡◌, ◌⊎◌, ◌↔◌, refl, true, false, none, some, List, [], ◌∷◌,
  ◌++◌, map, take, length, arith, All, Str, str, pos, is_utf8, starts_with,
}
use minara_connect.Message.{Message}
use minara_connect.Message.Samples.{hello}
use minara_connect.HookFormat.Budget.{total_len, concat, fit_to_budget}
use minara_connect.HookFormat.Budget.Best.{IsFirstFit, fit_to_budget_best}
use minara_connect.HookFormat.Sanitize.{sanitize_body, sanitize_body_byte}
use minara_connect.HookFormat.Sanitize.Valid.{IsPlain, sanitize_body_never_faults}
use minara_connect.HookFormat.Mentions.{match_at_token, mentions_self, is_owner_directive}
use minara_connect.HookFormat.Mentions.Token.{HasToken, match_at_token_iff}
use minara_connect.HookFormat.Mentions.Directive.{
  Mentions, IsDirective, mentions_self_iff, is_owner_directive_iff,
}
use minara_connect.HookFormat.Truncate.{
  is_char_boundary, summary_marker, truncate_head, tail_lines_within_budget,
}
use minara_connect.HookFormat.Truncate.Head.{truncate_head_lem}
use minara_connect.HookFormat.Truncate.Tail.{IsLongest, tail_lines-IsLongest}
use minara_connect.HookFormat.Line.{day_minute, format_utc_hhmm, format_line}
use minara_connect.HookFormat.Line.OneLine.{format_line_is_one_line}
use minara_connect.HookFormat.Line.Tag.{tag_start, for_you_iff}
use minara_connect.HookFormat.Line.Time.{format_utc_hhmm_lem}

abbrev three_lines : List Str
three_lines =
    str "first line\n"
    ∷ str "second line\n"
    ∷ str "third line which is kept, for it is the last one that was written\n"
    ∷ []

fit_to_budget_best_example :
    ((total_len three_lines ≤ 80) × (fit_to_budget three_lines 80 ≡ concat three_lines))
    ⊎ ((80 < total_len three_lines) × IsFirstFit 80 three_lines 0 (fit_to_budget three_lines 80))
fit_to_budget_best_example = fit_to_budget_best three_lines 80

match_at_token_iff_example :
    (match_at_token (str "hi @bob-cc, @bob!") (str "bob") ≡ true)
    ↔ HasToken (str "hi @bob-cc, @bob!") (str "bob")
match_at_token_iff_example = match_at_token_iff (str "hi @bob-cc, @bob!") (str "bob")

mentions_self_iff_test :
    (mentions_self (str "hi @Bob") (some (str "bob")) ≡ true)
    ↔ Mentions (str "hi @Bob") (some (str "bob"))
mentions_self_iff_test = mentions_self_iff (str "hi @Bob") (some (str "bob"))

is_owner_directive_iff_test :
    (is_owner_directive hello (some (str "me")) (some (str "bob")) false ≡ true)
    ↔ IsDirective hello (some (str "me")) (some (str "bob")) false
is_owner_directive_iff_test =
    is_owner_directive_iff hello (some (str "me")) (some (str "bob")) false

abbrev for_bob : Message
for_bob = record hello { body = str "hi @Bob" }

for_you_iff_example :
    (starts_with
        (format_line
          (str "ab12")
          for_bob
          (λ _. none)
          (str "/r")
          true
          (some (str "bob"))
          (some (str "me"))
          false)
        tag_start
      ≡ true)
    ↔ IsDirective for_bob (some (str "me")) (some (str "bob")) false
for_you_iff_example =
    for_you_iff (str "ab12") for_bob (λ _. none) (str "/r") true (some (str "bob"))
      (some (str "me")) false (refl, (refl, (refl, (refl, tt))))

sanitize_body_never_faults_test :
    (sanitize_body (str "é\n") ≡ map sanitize_body_byte (str "é\n"))
    × (is_utf8 (sanitize_body (str "é\n")) ≡ true)
unfolding is_utf8
sanitize_body_never_faults_test = sanitize_body_never_faults (str "é\n") refl

truncate_head_lem_test :
    ((length (str "a summary that is too long") ≤ 24)
      × (truncate_head (str "a summary that is too long") 24 ≡ str "a summary that is too long"))
    ⊎ ((24 < length (str "a summary that is too long"))
        × (cut : ℕ) × (is_char_boundary (str "a summary that is too long") cut ≡ true)
        × (truncate_head (str "a summary that is too long") 24
            ≡ take cut (str "a summary that is too long") ++ summary_marker)
        × (length (truncate_head (str "a summary that is too long") 24) ≤ 24)
        × ((j : ℕ)
            → cut < j
            → j ≤ 24 - length summary_marker
            → is_char_boundary (str "a summary that is too long") j ≡ false))
truncate_head_lem_test = truncate_head_lem (str "a summary that is too long") 24 (omega arith)

tail_lines-IsLongest_example :
    ((length (str "one\ntwo\n") ≤ 5)
      × (tail_lines_within_budget (str "one\ntwo\n") 5 ≡ str "one\ntwo\n"))
    ⊎ ((5 < length (str "one\ntwo\n"))
        × IsLongest (str "one\ntwo\n") 5 (tail_lines_within_budget (str "one\ntwo\n") 5))
tail_lines-IsLongest_example = tail_lines-IsLongest (str "one\ntwo\n") 5

format_line_is_one_line_example :
    (text : Str) × (format_line
        (str "ab12cd34")
        hello
        (λ _. none)
        (str "/r")
        false
        (some (str "bob"))
        none
        false
      ≡ text ++ b'\n' ∷ [])
    × All IsPlain text
format_line_is_one_line_example =
    format_line_is_one_line (str "ab12cd34") hello (λ _. none) (str "/r") false (some (str "bob"))
      none false (omega arith) (omega arith) (omega arith)

format_utc_hhmm_lem_test :
    (hh : ℕ) × (mm : ℕ) × (hh < 24)
    × (mm < 60)
    × (hh * 60 + mm ≡ day_minute (pos 7_500_000))
    × (format_utc_hhmm (pos 7_500_000)
        ≡ (b'0' + hh / 10) ∷ (b'0' + hh % 10) ∷ b':' ∷ (b'0' + mm / 10) ∷ (b'0' + mm % 10) ∷ [])
format_utc_hhmm_lem_test = format_utc_hhmm_lem (pos 7_500_000)

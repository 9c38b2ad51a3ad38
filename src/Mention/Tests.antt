-- ===== src/Mention/Tests.antt =====
-- Completing `@b` for a user who is called bob.
use minara_connect.Base.{
  ◌≡◌, refl, true, false, some, List, [], ◌∷◌, All, Str, str, starts_with, to_ascii_lowercase,
  str_eq,
}
use minara_connect.Mention.{broadcast_tokens, is_self, mention_candidates}
use minara_connect.Mention.Candidates.{offers, IsDistinct, mention_candidates_lem}

abbrev recent : List Str
recent = str "Bea" ∷ str "bob" ∷ str "carl" ∷ str "bea" ∷ []

abbrev names : List Str
names = mention_candidates recent (str "B") (some (str "bob"))

names_test : names ≡ str "bob-cc" ∷ str "Bea" ∷ []
unfolding mention_candidates to_ascii_lowercase starts_with str_eq
names_test = refl

mention_candidates_lem_example :
    All (λ name. starts_with (to_ascii_lowercase name) (to_ascii_lowercase (str "B")) ≡ true) names
    × IsDistinct names
    × All
        (λ name.
          (is_self (some (str "bob")) name ≡ false)
            × (starts_with (to_ascii_lowercase name) (to_ascii_lowercase (str "B")) ≡ true)
          → offers names name ≡ true)
        recent
    × All
        (λ tok. starts_with tok (to_ascii_lowercase (str "B")) ≡ true → offers names tok ≡ true)
        broadcast_tokens
mention_candidates_lem_example = mention_candidates_lem recent (str "B") (some (str "bob"))

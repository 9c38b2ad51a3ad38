-- ===== src/HookFormat/Budget.antt =====
-- `fit_to_budget` and `marker_line`: drop the oldest lines until the rest and a marker fit.
pub mod Best
use minara_connect.Base.{
  ℕ, suc, ◌+◌, List, [], ◌∷◌, ◌++◌, Str, str, decimal, length, leb, if◌then◌else◌,
}

-- `lines.iter().map(|l| l.len()).sum()`
abbrev pub total_len : List Str → ℕ
total_len [] = 0
total_len (l ∷ lines) = length l + total_len lines

-- `lines.concat()`
abbrev pub concat : List Str → Str
concat [] = []
concat (l ∷ lines) = l ++ concat lines

pub marker_line : ℕ → Str
marker_line dropped =
    str "[chatroom] (" ++ (decimal dropped ++ str " older messages skipped to fit)\n")

-- the `loop`, from a state with `kept` lines left and `dropped` lines gone
pub drop_oldest : ℕ → List Str → ℕ → Str
drop_oldest budget [] dropped =
    let marker = marker_line dropped in if leb (length marker) budget then marker else []
drop_oldest budget (l ∷ kept) dropped =
    let marker = marker_line (dropped + 1) in
    let rest = drop_oldest budget kept (dropped + 1) in
    if leb (length marker + total_len kept) budget then marker ++ concat kept else rest

unfoldable pub fit_to_budget : List Str → ℕ → Str
fit_to_budget lines budget =
    if leb (total_len lines) budget then concat lines else drop_oldest budget lines 0

-- ===== src/ClaudePid/Stat/Tests.antt =====
-- A process that calls itself `a) S 7 (b`.
use minara_connect.Base.{ℕ, ◌<◌, ◌==◌, All, false, ◌≡◌, refl, arith, some, ◌∷◌, ◌++◌, str}
use minara_connect.ClaudePid.Stat.{parse_proc_stat_ppid, parse_u32, is_whitespace}
use minara_connect.ClaudePid.Stat.Parent.{IsLetter, IsInside, parse_proc_stat_ppid_lem}

parse_u32_test : parse_u32 (str "4242") ≡ some 4242
unfolding parse_u32
parse_u32_test = refl

letter : (b : ℕ) → b < 0x80 → (b == b')') ≡ false → is_whitespace b ≡ false → IsLetter b
letter b lt other word = ((lt, λ e. ground arith), word)

state-IsLetter : All IsLetter (str "S")
state-IsLetter = (letter b'S' (omega arith) refl refl, tt)

ppid-IsLetter : All IsLetter (str "4242")
ppid-IsLetter =
    let four = letter b'4' (omega arith) refl refl in
    let two = letter b'2' (omega arith) refl refl in (four, (two, (four, (two, tt))))

rest-IsInside : All IsInside (str "0 0")
rest-IsInside =
    let zero = (letter b'0' (omega arith) refl refl).0 in
    let space : IsInside b' ' = (omega arith, λ e. ground arith) in (zero, (space, (zero, tt)))

parse_proc_stat_ppid_lem_example :
    parse_proc_stat_ppid
      (str "9 (a) S 7 (b" ++ b')' ∷ b' ' ∷ (str "S" ++ b' ' ∷ (str "4242" ++ b' ' ∷ str "0 0")))
    ≡ parse_u32 (str "4242")
parse_proc_stat_ppid_lem_example =
    parse_proc_stat_ppid_lem (str "9 (a) S 7 (b") (str "S") (str "4242") (str "0 0") state-IsLetter
      ppid-IsLetter (λ h. cc) (λ h. cc) rest-IsInside

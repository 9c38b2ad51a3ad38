-- ===== src/Setup/Nick.antt =====
-- The nickname that setup accepts, in the session of its user.
use minara_connect.Base.{
  ◌<◌, ◌≡◌, refl, sym, ap, subst, ◌∙◌, inr, arith, true, false, Option, some, [], ◌∷◌, Str, str,
  ltb, length, length-append, any, trim, chars, is_empty, starts_with, Result, ok, >>=-eq-ok,
  >>-eq-ok, bail_if, nick_too_large, nick_invalid, io_error, not, none, Bool, ◌>>◌, ◌>>=◌,
}
use minara_connect.Message.{Message, nick_max_bytes, is_control, normalize_ulid}
use minara_connect.Message.Accepted.{IsNick, IsNickOption, controls_iff}
use minara_connect.RateLimit.{allow, check_and_record}
use minara_connect.ChatSession.Sender.{
  local, mcp, input, Turn, Sender, Self, trim_newlines, round, nick_for_msg,
}
use minara_connect.ChatSession.Sender.Breaks.{round_breaks_iff}
use minara_connect.ChatSession.Sender.Fatal.{is_broken}
use minara_connect.ChatSession.Sender.Typed.{no_command-no_drop}
use minara_connect.Setup.{sanitize_nick, ensure_self_nick, unless_empty}

sanitize_nick_lem :
    (raw nick : Str) → sanitize_nick raw ≡ ok nick → is_empty nick ≡ false → IsNick nick
unfolding sanitize_nick
sanitize_nick_lem raw nick h text =
    let (len, h1) =
      >>-eq-ok (bail_if (ltb nick_max_bytes (length (trim raw))) nick_too_large) _ h in
    let (ctl, h2) = >>-eq-ok (bail_if (any is_control (chars (trim raw))) nick_invalid) _ h1 in
    let same : trim raw ≡ nick = ground arith in
    let clean : any is_control (chars (trim raw)) ≡ false = ground arith in
    subst IsNick same (
      (λ e. absurd (let k = sym same ∙ e in ground arith)),
      (ground arith),
      (controls_iff (chars (trim raw))).0 clean,
    )

kept_nick :
    (clean nick : Str) (saved' : Option Str)
    → ◌≡◌ {A = Result (Option Str × Option Str)}
        (ok (some clean, unless_empty clean))
        (ok (saved', some nick))
    → (is_empty nick ≡ false) × (clean ≡ nick)
kept_nick [] nick saved' h = absurd (ground arith)
kept_nick (b ∷ clean) nick saved' h =
    let same : b ∷ clean ≡ nick = ground arith in (subst (λ n. is_empty n ≡ false) same refl, same)

-- The nickname is given by `--nick`, or there is none in the settings and it is asked for.
abbrev pub from_user : Option Str → Option Str → Bool
from_user (some raw) saved = true
from_user none none = true
from_user none (some existing) = false

written_nick :
    (write_ok : Bool) (clean nick : Str) (saved' : Option Str)
    → ◌≡◌ {A = Result (Option Str × Option Str)}
        (bail_if (not write_ok) io_error >> ok (some clean, unless_empty clean))
        (ok (saved', some nick))
    → (is_empty nick ≡ false) × (clean ≡ nick)
written_nick write_ok clean nick saved' h =
    let (w, h1) = >>-eq-ok (bail_if (not write_ok) io_error) _ h in kept_nick clean nick saved' h1

sanitized-IsNick :
    (write_ok : Bool) (raw nick : Str) (saved' : Option Str)
    → ◌≡◌ {A = Result (Option Str × Option Str)}
        (sanitize_nick raw
          >>= (λ clean. bail_if (not write_ok) io_error >> ok (some clean, unless_empty clean)))
        (ok (saved', some nick))
    → IsNick nick
sanitized-IsNick write_ok raw nick saved' h =
    let (clean, s, rest) = >>=-eq-ok (sanitize_nick raw) _ h in
    let (text_left, same) = written_nick write_ok clean nick saved' rest in
    sanitize_nick_lem raw nick (s ∙ ap ok same) text_left

ensure_self_nick-IsNick :
    (write_ok : Bool) (cli saved saved' : Option Str) (answer nick : Str)
    → from_user cli saved ≡ true
    → ◌≡◌ {A = Result (Option Str × Option Str)}
        (ensure_self_nick write_ok cli saved answer)
        (ok (saved', some nick))
    → IsNick nick
unfolding ensure_self_nick
ensure_self_nick-IsNick write_ok (some raw) saved saved' answer nick new h =
    sanitized-IsNick write_ok raw nick saved' h
ensure_self_nick-IsNick write_ok none none saved' answer nick new h =
    sanitized-IsNick write_ok answer nick saved' h
ensure_self_nick-IsNick write_ok none (some existing) saved' answer nick new h =
    absurd (ground arith)

-- Setup returns a nickname of more than 61 bytes that was given by `--nick`, or asked for because none
-- was saved. Then it is valid for the user's own lines; but with `-cc` behind it, it is too
-- long, and a line of the user's AI that is not empty, begins with no slash and is within the
-- rate ends the session with an error, where the turn's new id is a ULID.
pub long_nick_ends_session :
    (to_vec : Message → Option Str) (write_ok : Bool) (cli saved saved' : Option Str)
    (answer nick line id : Str) (self : Self) (turn : Turn) (st : Sender)
    → from_user cli saved ≡ true
    → ◌≡◌ {A = Result (Option Str × Option Str)}
        (ensure_self_nick write_ok cli saved answer)
        (ok (saved', some nick))
    → self.self_nick ≡ some nick
    → 61 < length nick
    → turn.event ≡ input (some line) mcp
    → normalize_ulid turn.new_ulid ≡ ok id
    → is_empty (trim_newlines line) ≡ false
    → starts_with (trim_newlines line) (str "/") ≡ false
    → (check_and_record st.send_rate_limiter self.pubkey turn.checked_ms).0 ≡ allow
    → IsNickOption (nick_for_msg self local) × (is_broken (round to_vec self turn st) ≡ true)
long_nick_ends_session to_vec write_ok cli saved saved' answer nick line id self turn st new set has
      long e i plain_text plain within =
    let valid = ensure_self_nick-IsNick write_ok cli saved saved' answer nick new set in
    let too_long : ¬ IsNickOption (nick_for_msg self mcp) =
      rw has
        (λ n. let len = length-append nick (str "-cc") in let fits = n.1 in absurd (omega arith)) in
    (
      rw has valid,
      (round_breaks_iff to_vec self turn st id i).1 (
        line,
        mcp,
        e,
        (
          plain_text,
          within,
          inr (no_command-no_drop (trim_newlines line) plain, plain, inr too_long),
        ),
      ),
    )

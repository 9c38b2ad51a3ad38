-- ===== src/HookFormat/Line.antt =====
-- `nick_for`, `format_utc_hhmm` and `format_line`: one message as one line.
pub mod OneLine
pub mod Tag
pub mod Time
use minara_connect.Base.{
  ℕ, zero, suc, ◌-◌, ◌/◌, ◌%◌, Bool, true, false, ◌||◌, Option, none, some, List, [], ◌∷◌, ◌++◌,
  ltb, length, Str, str, str_eq, starts_with, ends_with, is_empty, to_ascii_lowercase, take_chars,
  decimal, ℤ, pos, negsuc, if◌then◌else◌,
}
use minara_connect.Message.{Message, kind_file_drop}
use minara_connect.HookFormat.Sanitize.{sanitize_nick, sanitize_body}
use minara_connect.HookFormat.Mentions.{is_owner_directive}

-- `i64::div_euclid` and `i64::rem_euclid` by a positive number
abbrev pub div_euclid : ℤ → ℕ → ℤ
div_euclid (pos a) n = pos (a / n)
div_euclid (negsuc a) n = negsuc (a / n)

abbrev pub rem_euclid : ℤ → ℕ → ℕ
rem_euclid (pos a) n = a % n
rem_euclid (negsuc a) n = n - 1 - a % n

-- `{n:02}`
pub pad2 : ℕ → Str
pad2 n = if ltb (length (decimal n)) 2 then b'0' ∷ decimal n else decimal n

abbrev pub day_minute : ℤ → ℕ
day_minute ts = rem_euclid (div_euclid ts 60_000) 1440

pub format_utc_hhmm : ℤ → Str
unfolding pad2
format_utc_hhmm ts = pad2 (day_minute ts / 60) ++ (b':' ∷ pad2 (day_minute ts % 60))

abbrev pub pubkey_prefix : Str → Str
pubkey_prefix author = take_chars 8 author

-- `msg.nick`, or else the receiver's name for the author, or else a prefix of the key
abbrev pub raw_nick : Option Str → Option Str → Str → Str
raw_nick (some own) known author = own
raw_nick none (some name) author = name
raw_nick none none author = pubkey_prefix author

pub nick_for : (Str → Option Str) → Message → Str
nick_for nicknames m = sanitize_nick (raw_nick m.nick (nicknames m.author) m.author)

-- `base.join(part)`: an absolute part replaces the base
abbrev pub join : Str → Str → Str
join base part =
    if starts_with part (str "/")
    then part
    else if is_empty base || ends_with base (str "/")
    then base ++ part
    else base ++ (b'/' ∷ part)

abbrev pub topic_tag : Str → Str
topic_tag topic = to_ascii_lowercase (take_chars 6 topic)

pub line_prefix : Str → Str → Str → Bool → Bool → Str
line_prefix topic nick time mention multi_room =
    let mention_tag = if mention then str "for-you " else [] in
    if multi_room
    then str "[chatroom "
      ++ (mention_tag ++ (topic_tag topic ++ (str " @" ++ (nick ++ (b' ' ∷ (time ++ str "Z]"))))))
    else str "[chatroom " ++ (mention_tag ++ (b'@' ∷ (nick ++ (b' ' ∷ (time ++ str "Z]")))))

-- `<rooms_base>/<topic>/files/<id>-<filename>`
pub local_path : Str → Str → Str → Str → Str
local_path rooms_base topic id filename =
    join (join (join rooms_base topic) (str "files")) (id ++ (b'-' ∷ filename))

-- what stands behind the prefix, without the newline
pub line_text : Message → Str → Str → Str
line_text m topic rooms_base =
    let shown = sanitize_body m.body in
    if str_eq m.kind kind_file_drop
    then str " dropped " ++ (shown ++ (str " @file:" ++ local_path rooms_base topic m.id shown))
    else b' ' ∷ shown

pub format_line :
    Str → Message → (Str → Option Str) → Str → Bool → Option Str → Option Str → Bool → Str
unfolding line_prefix line_text
format_line topic m nicknames rooms_base multi_room self_nick self_pubkey owner_only_mentions =
    let mention = is_owner_directive m self_pubkey self_nick owner_only_mentions in
    line_prefix topic (nick_for nicknames m) (format_utc_hhmm m.ts) mention multi_room
    ++ (line_text m topic rooms_base ++ b'\n' ∷ [])

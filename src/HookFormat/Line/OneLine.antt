-- ===== src/HookFormat/Line/OneLine.antt =====
-- A message is one line: whatever it holds, its text has no control byte but the last newline.
use minara_connect.Base.{
  ℕ, zero, suc, ◌/◌, ◌%◌, ◌≡◌, sym, inl, inr, Bool, true, false, ◌||◌, Option, [], ◌∷◌, ◌++◌,
  append_assoc, arith, ltb, length, Str, str, str_eq, starts_with, ends_with, is_empty, within,
  to_ascii_lowercase, take_chars, decimal, decimal_digits, IsDigit, ℤ, All, All-append, All-mono,
  Bool-cases, if◌then◌else◌,
}
use minara_connect.Message.{Message, kind_file_drop}
use minara_connect.HookFormat.Sanitize.{sanitize_body}
use minara_connect.HookFormat.Sanitize.Valid.{
  IsPlain, IsPrintable, sanitize_body-IsPlain, sanitize_nick-IsPrintable,
}
use minara_connect.HookFormat.Mentions.{is_owner_directive}
use minara_connect.HookFormat.Line.{
  pad2, format_utc_hhmm, day_minute, raw_nick, nick_for, join, topic_tag, line_prefix, local_path,
  line_text, format_line,
}

abbrev pub IsLine : Str → Type 0
IsLine s = All IsPlain s

++_lem : (xs ys : Str) → IsLine xs → IsLine ys → IsLine (xs ++ ys)
++_lem xs ys h k = All-append IsPlain xs ys h k

IsLine-take_chars : (n : ℕ) (s : Str) → IsLine s → IsLine (take_chars n s)
unfolding take_chars
IsLine-take_chars n [] h = tt
IsLine-take_chars zero (b ∷ s) h = elim (Bool-cases (within 0x80 0xBF b)) [
  | inl goes_on ↦ rw (goes_on, take_chars) (h.0, IsLine-take_chars zero s h.1)
  | inr starts ↦ rw (starts, take_chars) tt
]
IsLine-take_chars (suc left) (b ∷ s) h = elim (Bool-cases (within 0x80 0xBF b)) [
  | inl goes_on ↦ rw (goes_on, take_chars) (h.0, IsLine-take_chars (suc left) s h.1)
  | inr starts ↦ rw (starts, take_chars) (h.0, IsLine-take_chars left s h.1)
]

IsLine-lower : (s : Str) → IsLine s → IsLine (to_ascii_lowercase s)
unfolding to_ascii_lowercase
IsLine-lower [] h = tt
IsLine-lower (b ∷ s) h = ((ground arith, ground arith), IsLine-lower s h.1)

IsLine-pad2 : (n : ℕ) → IsLine (pad2 n)
unfolding pad2
IsLine-pad2 n =
    let digits =
      All-mono IsDigit IsPlain (decimal n) (λ b d. (omega arith, omega arith)) (decimal_digits n) in
    elim (Bool-cases (ltb (length (decimal n)) 2)) [
      | inl e ↦ rw e ((omega arith, omega arith), digits)
      | inr e ↦ rw e digits
    ]

IsLine-format_utc_hhmm : (ts : ℤ) → IsLine (format_utc_hhmm ts)
unfolding format_utc_hhmm
IsLine-format_utc_hhmm ts =
    ++_lem _ _ (IsLine-pad2 (day_minute ts / 60))
      ((omega arith, omega arith), IsLine-pad2 (day_minute ts % 60))

IsLine-nick_for : (nicknames : Str → Option Str) (m : Message) → IsLine (nick_for nicknames m)
unfolding nick_for
IsLine-nick_for nicknames m =
    All-mono IsPrintable IsPlain _ (λ b d. (omega arith, omega arith))
      (sanitize_nick-IsPrintable (raw_nick m.nick (nicknames m.author) m.author)).0

IsLine-join : (base part : Str) → IsLine base → IsLine part → IsLine (join base part)
IsLine-join base part h k = elim (Bool-cases (starts_with part (str "/"))) [
  | inl e ↦ rw e k
  | inr e ↦ elim (Bool-cases (is_empty base || ends_with base (str "/"))) [
    | inl e' ↦ rw (e, e') (++_lem base part h k)
    | inr e' ↦ rw (e, e') (++_lem base _ h ((omega arith, omega arith), k))
  ]
]

IsLine-mention : (mention : Bool) → IsLine (if mention then str "for-you " else [])
IsLine-mention true = omega arith
IsLine-mention false = tt

IsLine-chatroom : IsLine (str "[chatroom ")
IsLine-chatroom = omega arith

IsPlain-at : IsPlain b'@'
IsPlain-at = (omega arith, omega arith)

IsPlain-space : IsPlain b' '
IsPlain-space = (omega arith, omega arith)

IsLine-named :
    (nick time : Str) → IsLine nick → IsLine time → IsLine (nick ++ (b' ' ∷ (time ++ str "Z]")))
IsLine-named nick time hn hm =
    ++_lem nick _ hn (IsPlain-space, ++_lem time (str "Z]") hm (omega arith))

IsLine-tagged :
    (topic nick time : Str)
    → IsLine topic
    → IsLine nick
    → IsLine time
    → IsLine (topic_tag topic ++ (str " @" ++ (nick ++ (b' ' ∷ (time ++ str "Z]")))))
IsLine-tagged topic nick time ht hn hm =
    ++_lem (topic_tag topic) _ (IsLine-lower _ (IsLine-take_chars 6 topic ht))
      (IsPlain-space, (IsPlain-at, IsLine-named nick time hn hm))

IsLine-line_prefix :
    (topic nick time : Str) (mention multi_room : Bool)
    → IsLine topic
    → IsLine nick
    → IsLine time
    → IsLine (line_prefix topic nick time mention multi_room)
unfolding line_prefix
IsLine-line_prefix topic nick time mention multi_room ht hn hm = elim (Bool-cases multi_room) [
  | inl e ↦ rw e (
      ++_lem (str "[chatroom ") _ IsLine-chatroom
        (++_lem _ _ (IsLine-mention mention) (IsLine-tagged topic nick time ht hn hm)))
  | inr e ↦ rw e (
      ++_lem (str "[chatroom ") _ IsLine-chatroom
        (++_lem _ _ (IsLine-mention mention) (IsPlain-at, IsLine-named nick time hn hm)))
]

IsLine-line_text :
    (m : Message) (topic rooms_base : Str)
    → IsLine topic
    → IsLine rooms_base
    → IsLine m.id
    → IsLine (line_text m topic rooms_base)
unfolding line_text local_path
IsLine-line_text m topic base ht hb hi =
    let shown = sanitize_body-IsPlain m.body in
    elim (Bool-cases (str_eq m.kind kind_file_drop)) [
      | inl e ↦ rw e (
          ++_lem (str " dropped ") _ (omega arith) (
            ++_lem (sanitize_body m.body) _ shown (
              ++_lem (str " @file:") _ (omega arith) (
                IsLine-join _ _ (IsLine-join _ _ (IsLine-join base topic hb ht) (omega arith))
                  (++_lem m.id _ hi ((omega arith, omega arith), shown))))))
      | inr e ↦ rw e ((omega arith, omega arith), shown)
    ]

-- Whatever the peer puts into a message's body, nickname and author, it is printed as one line:
-- plain bytes and then one newline, if the room's topic, the local path and the id are plain.
pub format_line_is_one_line :
    (topic : Str) (m : Message) (nicknames : Str → Option Str) (rooms_base : Str)
    (multi_room : Bool) (self_nick self_pubkey : Option Str) (owner_only : Bool)
    → All IsPlain topic
    → All IsPlain rooms_base
    → All IsPlain m.id
    → (text : Str) × (format_line topic m nicknames rooms_base multi_room self_nick self_pubkey
          owner_only
        ≡ text ++ b'\n' ∷ [])
      × All IsPlain text
unfolding format_line
format_line_is_one_line topic m nicknames base multi_room self_nick self_pubkey owner_only ht hb
      hi =
    let mention = is_owner_directive m self_pubkey self_nick owner_only in
    let prefix =
      line_prefix topic (nick_for nicknames m) (format_utc_hhmm m.ts) mention multi_room in
    (
      prefix ++ line_text m topic base,
      sym (append_assoc prefix (line_text m topic base) (b'\n' ∷ [])),
      ++_lem prefix _
          (IsLine-line_prefix topic _ _ mention multi_room ht (IsLine-nick_for nicknames m)
            (IsLine-format_utc_hhmm m.ts))
          (IsLine-line_text m topic base ht hb hi),
    )

-- ===== src/HookFormat/Line/Tag.antt =====
-- `format_line`: which lines carry the tag for the user.
use minara_connect.Base.{
  ℕ, zero, suc, ◌≡◌, ◌↔◌, refl, inl, inr, Bool, true, false, Option, [], ◌∷◌, ◌++◌, append_assoc,
  arith, Str, str, starts_with, within, to_ascii_lowercase, take_chars, All, Bool-cases,
}
use minara_connect.Message.{Message}
use minara_connect.Message.Accepted.{IsLowerHex}
use minara_connect.HookFormat.Mentions.{is_owner_directive}
use minara_connect.HookFormat.Mentions.Directive.{IsDirective, is_owner_directive_iff}
use minara_connect.HookFormat.Line.{
  format_utc_hhmm, nick_for, topic_tag, line_prefix, line_text, format_line,
}

abbrev pub tag_start : Str
tag_start = str "[chatroom for-you "

take_chars-hex : (n : ℕ) (s : Str) → All IsLowerHex s → All IsLowerHex (take_chars n s)
unfolding take_chars
take_chars-hex n [] h = tt
take_chars-hex zero (b ∷ s) h = elim (Bool-cases (within 0x80 0xBF b)) [
  | inl goes_on ↦ rw (goes_on, take_chars) (h.0, take_chars-hex zero s h.1)
  | inr starts ↦ rw (starts, take_chars) tt
]
take_chars-hex (suc left) (b ∷ s) h = elim (Bool-cases (within 0x80 0xBF b)) [
  | inl goes_on ↦ rw (goes_on, take_chars) (h.0, take_chars-hex (suc left) s h.1)
  | inr starts ↦ rw (starts, take_chars) (h.0, take_chars-hex left s h.1)
]

lowered-hex : (s : Str) → All IsLowerHex s → All IsLowerHex (to_ascii_lowercase s)
unfolding to_ascii_lowercase
lowered-hex [] h = tt
lowered-hex (b ∷ s) h = (ground arith, lowered-hex s h.1)

-- `for-you ` is not the start of a room's tag with what follows it: no `o` is in the tag.
hex_tag-not_for_you :
    (tag rest : Str)
    → All IsLowerHex tag
    → starts_with (tag ++ (b' ' ∷ rest)) (str "for-you ") ≡ false
unfolding starts_with
hex_tag-not_for_you [] rest h = refl
hex_tag-not_for_you (x ∷ []) rest h = ground arith
hex_tag-not_for_you (x ∷ y ∷ tag) rest h = let digit = h.1.0 in ground arith

-- The prefix alone decides how a line begins.
line_prefix-tag :
    (topic nick time rest : Str) (mention multi_room : Bool)
    → All IsLowerHex topic
    → starts_with (line_prefix topic nick time mention multi_room ++ rest) tag_start ≡ mention
unfolding line_prefix starts_with
line_prefix-tag topic nick time rest true true h = refl
line_prefix-tag topic nick time rest true false h = refl
line_prefix-tag topic nick time rest false false h = refl
line_prefix-tag topic nick time rest false true h =
    rw (append_assoc (topic_tag topic) _ rest)
      (hex_tag-not_for_you (topic_tag topic) _ (lowered-hex _ (take_chars-hex 6 topic h)))

-- In a room whose topic is in lower-case hexadecimal, the line of a message begins with
-- `[chatroom for-you ` exactly if the message is a directive: it mentions the user by a token of
-- their nickname or a broadcast token; it is not by an AI's nickname, in `-cc`, unless under
-- another key than the user's known one; and where only the owner counts and the user's key is
-- known, it is under that key.
pub for_you_iff :
    (topic : Str) (m : Message) (nicknames : Str → Option Str) (rooms_base : Str)
    (multi_room : Bool) (self_nick self_pubkey : Option Str) (owner_only : Bool)
    → All IsLowerHex topic
    → (starts_with
          (format_line topic m nicknames rooms_base multi_room self_nick self_pubkey owner_only)
          tag_start
        ≡ true)
      ↔ IsDirective m self_pubkey self_nick owner_only
unfolding format_line
for_you_iff topic m nicknames base multi_room self_nick self_pubkey owner_only h =
    let tagged =
      line_prefix-tag topic (nick_for nicknames m) (format_utc_hhmm m.ts)
        (line_text m topic base ++ b'\n' ∷ [])
        (is_owner_directive m self_pubkey self_nick owner_only) multi_room h in
    rw tagged (is_owner_directive_iff m self_pubkey self_nick owner_only)

-- ===== src/ChatSession/Mentions/Replay.antt =====
-- `MentionState::snapshot_after` for a caller that asks again, each time with the id that it got.
use minara_connect.Base.{
  ℕ, zero, suc, ◌≤◌, ◌≡◌, refl, sym, ap, ◌∙◌, inl, inr, true, false, Bool-cases, none, some, List,
  [], ◌∷◌, ◌++◌, append_assoc, length, All, All-append, arith, if◌then◌else◌, Str, str_le,
}
use minara_connect.HookFormat.Render.Order.{str_le_total}
use minara_connect.ChatSession.Mentions.{
  MentionEvent, MentionState, is_newer, find_newer, snapshot_after,
}

-- what so many calls return, from a watermark on, while nothing new is pushed
pub replay : ℕ → Str → MentionState → List MentionEvent
replay zero cutoff st = []
replay (suc calls) cutoff st = elim (snapshot_after (some cutoff) st) [
  | none ↦ []
  | some ev ↦ ev ∷ replay calls ev.id st
]

-- the buffer from the first mention on that is newer than the watermark
pub first_newer : Str → List MentionEvent → List MentionEvent
first_newer cutoff [] = []
first_newer cutoff (e ∷ buf) =
    let rest = first_newer cutoff buf in if is_newer cutoff e then e ∷ buf else rest

abbrev NewerThan : MentionEvent → MentionEvent → Type 0
NewerThan e f = is_newer e.id f ≡ true

-- Each mention is newer than every one before it.
abbrev pub IsOrdered : List MentionEvent → Type 0
IsOrdered [] = Unit
IsOrdered (e ∷ buf) = All (NewerThan e) buf × IsOrdered buf

abbrev NotNewer : Str → MentionEvent → Type 0
NotNewer cutoff p = is_newer cutoff p ≡ false

newer→NotNewer : (e f : MentionEvent) → NewerThan e f → NotNewer f.id e
newer→NotNewer e f h = ground (arith, str_le_total f.id e.id)

self-NotNewer : (e : MentionEvent) → NotNewer e.id e
self-NotNewer e = elim (Bool-cases (str_le e.id e.id)) [
  | inl h ↦ rw h refl
  | inr h ↦ ground (arith, str_le_total e.id e.id)
]

find_newer-skip :
    (cutoff : Str) (pre buf : List MentionEvent)
    → All (NotNewer cutoff) pre
    → find_newer cutoff (pre ++ buf) ≡ find_newer cutoff buf
unfolding find_newer
find_newer-skip cutoff [] buf h = refl
find_newer-skip cutoff (p ∷ pre) buf h = rw h.0 (find_newer-skip cutoff pre buf h.1)

first_newer-ordered :
    (e : MentionEvent) (buf : List MentionEvent)
    → All (NewerThan e) buf
    → first_newer e.id buf ≡ buf
unfolding first_newer
first_newer-ordered e [] h = refl
first_newer-ordered e (f ∷ buf) h = rw h.0 refl

-- The mentions of `pre` are not newer than any of `buf`.
abbrev Behind : List MentionEvent → List MentionEvent → Type 0
Behind pre buf = All (λ f. All (NotNewer f.id) pre) buf

Behind-snoc :
    (pre : List MentionEvent) (e : MentionEvent) (buf : List MentionEvent)
    → Behind pre buf
    → All (NewerThan e) buf
    → Behind (pre ++ e ∷ []) buf
Behind-snoc pre e [] b n = tt
Behind-snoc pre e (f ∷ buf) b n = (
  All-append (NotNewer f.id) pre (e ∷ []) b.0 (newer→NotNewer e f n.0, tt),
  Behind-snoc pre e buf b.1 n.1,
)

replay-none :
    (calls : ℕ) (cutoff : Str) (st : MentionState)
    → find_newer cutoff st.recent ≡ none
    → replay calls cutoff st ≡ []
unfolding replay snapshot_after
replay-none zero cutoff st h = refl
replay-none (suc calls) cutoff st h = rw (h, replay) refl

replay-some :
    (calls : ℕ) (cutoff : Str) (st : MentionState) (e : MentionEvent)
    → find_newer cutoff st.recent ≡ some e
    → replay (suc calls) cutoff st ≡ e ∷ replay calls e.id st
unfolding replay snapshot_after
replay-some calls cutoff st e h = rw (h, replay) refl

replay_from :
    (calls : ℕ) (cutoff : Str) (st : MentionState) (pre buf : List MentionEvent)
    → st.recent ≡ pre ++ buf
    → length buf ≤ calls
    → All (NotNewer cutoff) pre
    → Behind pre buf
    → IsOrdered buf
    → replay calls cutoff st ≡ first_newer cutoff buf
unfolding first_newer
replay_from calls cutoff st pre [] e le skip b o =
    replay-none calls cutoff st
      (ap (find_newer cutoff) e ∙ find_newer-skip cutoff pre [] skip ∙ unfold find_newer in refl)
replay_from zero cutoff st pre (f ∷ buf) e le skip b o = absurd (omega arith)
replay_from (suc calls) cutoff st pre (f ∷ buf) e le skip b o =
    let found = ap (find_newer cutoff) e ∙ find_newer-skip cutoff pre (f ∷ buf) skip in
    let regrouped : st.recent ≡ (pre ++ f ∷ []) ++ buf = e ∙ sym (append_assoc pre (f ∷ []) buf) in
    elim (Bool-cases (is_newer cutoff f)) [
      | inl newer ↦
          let here : find_newer cutoff (f ∷ buf) ≡ some f = unfold find_newer in rw newer refl in
          let later =
            replay_from calls f.id st (pre ++ f ∷ []) buf regrouped (omega arith)
              (All-append (NotNewer f.id) pre (f ∷ []) b.0 (self-NotNewer f, tt))
              (Behind-snoc pre f buf b.1 o.0) o.1 in
          rw newer (
            replay-some calls cutoff st f (found ∙ here)
            ∙ ap (◌∷◌ f) (later ∙ first_newer-ordered f buf o.0))
      | inr old ↦ rw old (
          replay_from (suc calls) cutoff st (pre ++ f ∷ []) buf regrouped (omega arith)
            (All-append (NotNewer cutoff) pre (f ∷ []) skip (old, tt))
            (Behind-snoc pre f buf b.1 o.0) o.1)
    ]

-- If the ids of the buffered mentions rise, a caller that comes back with the id of what it got
-- last gets every one that is newer than its watermark, in their order, and each once.
pub replay_lem :
    (st : MentionState) (cutoff : Str)
    → IsOrdered st.recent
    → replay (length st.recent) cutoff st ≡ first_newer cutoff st.recent
replay_lem st cutoff o =
    replay_from (length st.recent) cutoff st [] st.recent refl (omega arith) tt
      (behind_nothing st.recent) o
  where
    behind_nothing : (buf : List MentionEvent) → Behind [] buf
    behind_nothing [] = tt
    behind_nothing (f ∷ buf) = (tt, behind_nothing buf)

find_newer-is_newer :
    (cutoff : Str) (buf : List MentionEvent) (e : MentionEvent)
    → find_newer cutoff buf ≡ some e
    → is_newer cutoff e ≡ true
unfolding find_newer
find_newer-is_newer cutoff [] e h = absurd (ground arith)
find_newer-is_newer cutoff (f ∷ buf) e h = elim (Bool-cases (is_newer cutoff f)) [
  | inl newer ↦
      let same : f ≡ e = let h' = rw newer at h in ground arith in
      ap (is_newer cutoff) (sym same) ∙ newer
  | inr old ↦ find_newer-is_newer cutoff buf e (rw old at h)
]

-- What is returned is newer than the watermark: a mention that arrives with an id at or before it,
-- such as that of a sender whose clock is behind, is passed over.
pub snapshot_after_newer :
    (cutoff : Str) (st : MentionState) (e : MentionEvent)
    → snapshot_after (some cutoff) st ≡ some e
    → is_newer cutoff e ≡ true
unfolding snapshot_after
snapshot_after_newer cutoff st e h = find_newer-is_newer cutoff st.recent e h

-- ===== src/ChatSession/Mentions/Ring.antt =====
-- `MentionState::push` against the list of all mentions: the buffer is its end.
use minara_connect.Base.{
  ℕ, zero, suc, ◌-◌, ◌≤◌, ◌≡◌, refl, sym, ap, ◌∙◌, inl, inr, Bool-cases, List, [], ◌∷◌, ◌++◌,
  append_assoc, append-nil, length, length-append, drop, arith, leb,
}
use minara_connect.ChatSession.Mentions.{
  MentionEvent, MentionState, mention_buffer_cap, new_mentions, pop_front, push,
}

-- the end of a list, at most so long
abbrev pub last_of : {A : Type 0} → ℕ → List A → List A
last_of n xs = drop (length xs - n) xs

-- The buffer is the end of what has been sent.
abbrev pub IsRecent : MentionState → Type 0
IsRecent st = st.recent ≡ last_of mention_buffer_cap st.tx

drop-append_le :
    (n : ℕ) (xs : List MentionEvent) (e : MentionEvent)
    → n ≤ length xs
    → drop n (xs ++ e ∷ []) ≡ drop n xs ++ e ∷ []
drop-append_le zero xs e h = refl
drop-append_le (suc n) [] e h = absurd (omega arith)
drop-append_le (suc n) (x ∷ xs) e h = drop-append_le n xs e (omega arith)

pop_front-drop : (n : ℕ) (xs : List MentionEvent) → pop_front (drop n xs) ≡ drop (suc n) xs
pop_front-drop zero [] = refl
pop_front-drop zero (x ∷ xs) = refl
pop_front-drop (suc n) [] = refl
pop_front-drop (suc n) (x ∷ xs) = pop_front-drop n xs

length-drop_le : (n : ℕ) (xs : List MentionEvent) → length (drop n xs) ≡ length xs - n
length-drop_le zero xs = omega arith
length-drop_le (suc n) [] = omega arith
length-drop_le (suc n) (x ∷ xs) = omega (arith, length-drop_le n xs)

pub tx-push : (ev : MentionEvent) (st : MentionState) → (push ev st).tx ≡ st.tx ++ ev ∷ []
unfolding push
tx-push ev st = refl

pub push-IsRecent : (ev : MentionEvent) (st : MentionState) → IsRecent st → IsRecent (push ev st)
unfolding push
push-IsRecent ev st h =
    let n = length st.tx in
    let len = length-drop_le (n - 32) st.tx in
    elim (Bool-cases (leb mention_buffer_cap (length (drop (n - 32) st.tx)))) [
      | inl full ↦
          let next : length (st.tx ++ ev ∷ []) - 32 ≡ suc (n - 32) =
            ground (arith, length-append st.tx (ev ∷ [])) in
          rw (h, full, next)
            (ap (λ x. x ++ ev ∷ []) (pop_front-drop (n - 32) st.tx)
              ∙ sym (drop-append_le (suc (n - 32)) st.tx ev (ground arith)))
      | inr room ↦
          let now : n - 32 ≡ 0 = ground arith in
          let next : length (st.tx ++ ev ∷ []) - 32 ≡ 0 =
            ground (arith, length-append st.tx (ev ∷ [])) in
          rw (h, room, next, now) refl
    ]

pub push_all : List MentionEvent → MentionState → MentionState
push_all [] st = st
push_all (ev ∷ evs) st = push_all evs (push ev st)

push_all-IsRecent :
    (evs : List MentionEvent) (st : MentionState)
    → IsRecent st
    → IsRecent (push_all evs st) × ((push_all evs st).tx ≡ st.tx ++ evs)
unfolding push_all push
push_all-IsRecent [] st h = (h, sym (append-nil st.tx))
push_all-IsRecent (ev ∷ evs) st h =
    let (r, e) = push_all-IsRecent evs (push ev st) (push-IsRecent ev st h) in
    (r, e ∙ append_assoc st.tx (ev ∷ []) evs)

-- Of whatever mentions have been pushed, the buffer holds the last 32, in their order.
pub push_all_lem :
    (evs : List MentionEvent) → (push_all evs new_mentions).recent ≡ last_of mention_buffer_cap evs
push_all_lem evs =
    let (r, e) = push_all-IsRecent evs new_mentions refl in r ∙ ap (last_of mention_buffer_cap) e

-- ===== src/ChatSession/Sender/Fatal.antt =====
-- The lines that cannot be made into a message.
use minara_connect.Base.{
  ◌<◌, ◌≡◌, ◌⊎◌, ◌↔◌, inl, inr, refl, sym, subst, ◌∙◌, arith, Bool, true, false, Option, none, some,
  Bool-cases, Option-cases, Result-cases, Str, str, starts_with, length, ltb, Error, ok, err, ℤ,
  trim,
}
use minara_connect.Message.{Message, body_max_bytes, normalize_ulid, new, with_nick}
use minara_connect.Message.Accepted.{IsNickOption}
use minara_connect.Message.New.{new-IsNew, new-ok, with_nick_lem, with_nick-ok}
use minara_connect.ChatSession.Drops.{build_file_drop}
use minara_connect.ChatSession.Sender.{
  InputSource, Turn, Sender, Self, Flow, go, next_round, broken, nick_for_msg, strip_drop,
  compose_drop, compose_chat, compose,
}

abbrev pub is_broken : {A : Type 0} → Flow A → Bool
is_broken (broken e st) = true
is_broken (go a st) = false
is_broken (next_round st) = false

-- A plain line over the cap, or a line to be sent under a nickname that is not valid.
abbrev pub IsFatalChat : Self → InputSource → Str → Type 0
IsFatalChat self source body =
    (body_max_bytes < length body) ⊎ (¬ IsNickOption (nick_for_msg self source))

-- A drop that is built, under a nickname that is not valid.
abbrev pub IsFatalDrop : Self → InputSource → Turn → Str → Type 0
IsFatalDrop self source turn path_str =
    (m : Message) × (build_file_drop turn.outside (trim path_str) self.pubkey turn.new_ulid
        turn.now_ms
      ≡ ok m)
    × (¬ IsNickOption (nick_for_msg self source))

abbrev pub IsFatal : Self → InputSource → Turn → Str → Type 0
IsFatal self source turn body =
    ((path_str : Str) × (strip_drop body ≡ some path_str) × IsFatalDrop self source turn path_str)
    ⊎ ((strip_drop body ≡ none)
        × (starts_with body (str "/") ≡ false)
        × IsFatalChat self source body)

with_nick-fails :
    (m : Message) (nick : Option Str) (e : Error) → with_nick m nick ≡ err e → ¬ IsNickOption nick
with_nick-fails m nick e h n = let k = sym h ∙ with_nick-ok m nick n in ground arith

compose_drop_breaks_iff :
    (self : Self) (source : InputSource) (turn : Turn) (path_str : Str) (st : Sender)
    → (is_broken (compose_drop self source turn path_str st) ≡ true)
      ↔ IsFatalDrop self source turn path_str
unfolding compose_drop
compose_drop_breaks_iff self source turn path_str st =
    elim (Result-cases
      (build_file_drop turn.outside (trim path_str) self.pubkey turn.new_ulid turn.now_ms)) [
        | inr (e, b) ↦ rw b (λ h. absurd (ground arith), λ h. absurd (ground (arith, h.1)))
        | inl (m, b) ↦ elim (Result-cases (with_nick m (nick_for_msg self source))) [
          | inl (m', n) ↦
              rw (b, n, compose_drop)
                (λ h. absurd (ground arith), λ h. absurd (h.2 (with_nick_lem m m' _ n).1))
          | inr (e, n) ↦
              rw (b, n, compose_drop) (λ h. (m, refl, with_nick-fails m _ e n), λ h. refl)
        ]
      ]

new_fails :
    (id id' author : Str) (ts : ℤ) (body : Str) (e : Error)
    → normalize_ulid id ≡ ok id'
    → new id author ts body ≡ err e
    → body_max_bytes < length body
new_fails id id' author ts body e i h = elim (Bool-cases (ltb body_max_bytes (length body))) [
  | inl long ↦ ground arith
  | inr short ↦
      let made = new-ok id id' author ts body i (ground arith) in
      absurd (let k = sym made ∙ h in ground arith)
]

compose_chat_breaks_iff :
    (self : Self) (source : InputSource) (turn : Turn) (body : Str) (st : Sender) (id : Str)
    → normalize_ulid turn.new_ulid ≡ ok id
    → (is_broken (compose_chat self source turn body st) ≡ true) ↔ IsFatalChat self source body
unfolding compose_chat
compose_chat_breaks_iff self source turn body st id i =
    elim (Result-cases (new turn.new_ulid self.pubkey turn.now_ms body)) [
      | inr (e, b) ↦
          rw (b, compose_chat)
            (λ h. inl (new_fails turn.new_ulid id self.pubkey turn.now_ms body e i b), λ h. refl)
      | inl (m, b) ↦
          let made = new-IsNew turn.new_ulid self.pubkey turn.now_ms body m b in
          elim (Result-cases (with_nick m (nick_for_msg self source))) [
            | inl (m', n) ↦
                rw (b, n, compose_chat)
                  (
                    λ h. absurd (ground arith),
                    λ h. absurd (elim h [
                      | inl long ↦ (let le = made.length_le in omega arith)
                      | inr bad ↦ bad (with_nick_lem m m' _ n).1
                    ]),
                  )
            | inr (e, n) ↦ rw (b, n, compose_chat) (λ h. inr (with_nick-fails m _ e n), λ h. refl)
          ]
    ]

pub compose_breaks_iff :
    (self : Self) (source : InputSource) (turn : Turn) (body : Str) (st : Sender) (id : Str)
    → normalize_ulid turn.new_ulid ≡ ok id
    → (is_broken (compose self source turn body st) ≡ true) ↔ IsFatal self source turn body
unfolding compose
compose_breaks_iff self source turn body st id i = elim (Option-cases (strip_drop body)) [
  | inr (path_str, e) ↦
      let (to, from) = compose_drop_breaks_iff self source turn path_str st in
      rw (e, compose)
        (
          λ h. inl (path_str, refl, to h),
          λ h. elim h [
            | inl (p, same, f) ↦
                from (
                  subst (IsFatalDrop self source turn) (let q : p ≡ path_str = ground arith in q) f)
            | inr (n, plain, f) ↦ absurd (ground arith)
          ],
        )
  | inl e ↦ elim (Bool-cases (starts_with body (str "/"))) [
    | inl slash ↦
        rw (e, slash, compose)
          (
            λ h. absurd (ground arith),
            λ h. elim h [
              | inl (p, same, f) ↦ absurd (ground arith)
              | inr (n, plain, f) ↦ absurd (ground arith)
            ],
          )
    | inr plain ↦
        let (to, from) = compose_chat_breaks_iff self source turn body st id i in
        rw (e, plain, compose)
          (
            λ h. inr (refl, refl, to h),
            λ h. elim h [ inl (p, same, f) ↦ absurd (ground arith) | inr (n, q, f) ↦ from f ],
          )
  ]
]

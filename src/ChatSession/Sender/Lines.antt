-- ===== src/ChatSession/Sender/Lines.antt =====
-- What a line is made into: a message of one's own, with nothing else touched but the display.
use minara_connect.Base.{
  ◌≡◌, refl, sym, ap, ◌∙◌, inl, inr, not, ◌&&◌, Bool-cases, Option-cases, Result-cases, Str, str,
  starts_with, trim, ok,
}
use minara_connect.Message.{Message, new, with_nick}
use minara_connect.Message.Sent.{Built, chat, nicked}
use minara_connect.Message.New.{new-IsNew, with_nick_lem}
use minara_connect.ChatSession.{is_file_drop, line_mentions_me}
use minara_connect.ChatSession.Drops.{build_file_drop}
use minara_connect.ChatSession.Drops.Announced.{build_file_drop-IsAnnounced}
use minara_connect.ChatSession.Sender.{
  InputSource, Turn, Sender, Self, Flow, go, next_round, broken, nick_for_msg, strip_drop,
  compose_drop, compose_chat, compose, is_local, wake_own, index_own,
}

abbrev pub state_of : {A : Type 0} → Flow A → Sender
state_of (go a st) = st
state_of (next_round st) = st
state_of (broken e st) = st

-- Log, INDEX.md, mentions and what has been sent are the same.
pub record IsSame (st st' : Sender) : Type 0 where
  pub log_lem : st'.log ≡ st.log
  pub mentions_lem : st'.mentions ≡ st.mentions
  pub sent_lem : st'.sent ≡ st.sent

IsSame-refl :
    (st st' : Sender)
    → st'.log ≡ st.log
    → st'.mentions ≡ st.mentions
    → st'.sent ≡ st.sent
    → IsSame st st'
IsSame-refl st st' a b c = record { log_lem = a; mentions_lem = b; sent_lem = c }

-- Built by a constructor, with one's own key as the author, and the nickname of the source.
pub record IsOwn (self : Self) (source : InputSource) (m : Message) : Type 0 where
  pub built : Built m
  pub by_self : m.author ≡ self.pubkey
  pub nick_lem : m.nick ≡ nick_for_msg self source

abbrev IsOwnFlow : Self → InputSource → Flow Message → Type 0
IsOwnFlow self source (go m st) = IsOwn self source m
IsOwnFlow self source (next_round st) = Unit
IsOwnFlow self source (broken e st) = Unit

IsOwn-with_nick :
    (self : Self) (source : InputSource) (m m' : Message)
    → Built m
    → m.author ≡ self.pubkey
    → with_nick m (nick_for_msg self source) ≡ ok m'
    → IsOwn self source m'
IsOwn-with_nick self source m m' b a n =
    let (same, valid) = with_nick_lem m m' (nick_for_msg self source) n in
    record {
      built = nicked (nick_for_msg self source) b n;
      by_self = ap (λ x. x.author) (sym same) ∙ a;
      nick_lem = ap (λ x. x.nick) (sym same);
    }

compose_drop_lem :
    (self : Self) (source : InputSource) (turn : Turn) (path_str : Str) (st : Sender)
    → IsSame st (state_of (compose_drop self source turn path_str st))
      × IsOwnFlow self source (compose_drop self source turn path_str st)
unfolding compose_drop
compose_drop_lem self source turn path_str st =
    elim (Result-cases
      (build_file_drop turn.outside (trim path_str) self.pubkey turn.new_ulid turn.now_ms)) [
        | inr (e, b) ↦ rw (b, compose_drop) (IsSame-refl st _ refl refl refl, tt)
        | inl (m, b) ↦
            let made =
              build_file_drop-IsAnnounced turn.outside (trim path_str) self.pubkey turn.new_ulid
                turn.now_ms m b in
            elim (Result-cases (with_nick m (nick_for_msg self source))) [
              | inr (e, n) ↦ rw (b, n, compose_drop) (IsSame-refl st _ refl refl refl, tt)
              | inl (m', n) ↦
                  rw (b, n, compose_drop)
                    (
                      IsSame-refl st _ refl refl refl,
                      IsOwn-with_nick self source m m' made.built made.by_author n,
                    )
            ]
      ]

compose_chat_lem :
    (self : Self) (source : InputSource) (turn : Turn) (body : Str) (st : Sender)
    → IsSame st (state_of (compose_chat self source turn body st))
      × IsOwnFlow self source (compose_chat self source turn body st)
unfolding compose_chat
compose_chat_lem self source turn body st =
    elim (Result-cases (new turn.new_ulid self.pubkey turn.now_ms body)) [
      | inr (e, b) ↦ rw (b, compose_chat) (IsSame-refl st _ refl refl refl, tt)
      | inl (m, b) ↦ elim (Result-cases (with_nick m (nick_for_msg self source))) [
        | inr (e, n) ↦ rw (b, n, compose_chat) (IsSame-refl st _ refl refl refl, tt)
        | inl (m', n) ↦
            let made = new-IsNew turn.new_ulid self.pubkey turn.now_ms body m b in
            rw (b, n, compose_chat)
              (
                IsSame-refl st _ refl refl refl,
                IsOwn-with_nick self source m m' (chat turn.new_ulid self.pubkey turn.now_ms body b)
                    made.author_lem n,
              )
      ]
    ]

pub compose_lem :
    (self : Self) (source : InputSource) (turn : Turn) (body : Str) (st : Sender)
    → IsSame st (state_of (compose self source turn body st))
      × IsOwnFlow self source (compose self source turn body st)
unfolding compose
compose_lem self source turn body st = elim (Option-cases (strip_drop body)) [
  | inr (path_str, e) ↦ rw (e, compose) (compose_drop_lem self source turn path_str st)
  | inl e ↦ elim (Bool-cases (starts_with body (str "/"))) [
    | inl slash ↦ rw (e, slash, compose) (IsSame-refl st _ refl refl refl, tt)
    | inr plain ↦ rw (e, plain, compose) (compose_chat_lem self source turn body st)
  ]
]

pub index_own-same :
    (self : Self) (turn : Turn) (m : Message) (st : Sender)
    → ((index_own self turn m st).log ≡ st.log)
      × ((index_own self turn m st).sent ≡ st.sent)
      × ((index_own self turn m st).mentions ≡ st.mentions)
unfolding index_own
index_own-same self turn m st = elim (Bool-cases (is_file_drop m)) [
  | inr e ↦ rw e (refl, refl, refl)
  | inl e ↦ elim (Bool-cases turn.index_ok) [
    | inl f ↦ rw (e, f) (refl, refl, refl)
    | inr f ↦ rw (e, f) (refl, refl, refl)
  ]
]

pub wake_own-same :
    (self : Self) (source : InputSource) (m : Message) (st : Sender)
    → ((wake_own self source m st).log ≡ st.log) × ((wake_own self source m st).sent ≡ st.sent)
unfolding wake_own
wake_own-same self source m st =
    elim (Bool-cases
      (is_local source && not (is_file_drop m) && line_mentions_me m.body self.self_nick)) [
        | inl e ↦ rw e (refl, refl)
        | inr e ↦ rw e (refl, refl)
      ]

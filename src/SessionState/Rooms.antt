-- ===== src/SessionState/Rooms.antt =====
-- The rooms file as the list of the topics that the session has joined.
use minara_connect.Base.{
  ◌≤◌, ◌≡◌, ◌⊎◌, refl, ap, ◌∙◌, inl, inr, Bool, true, false, not, ◌||◌, ◌&&◌, Option, none, some,
  List, [], ◌∷◌, ◌++◌, arith, ◌==◌, if◌then◌else◌, any, length, Str, str_eq, str_eq_iff, Result, ok,
  err, Error, not_found, Bool-cases, Result-cases,
}
use minara_connect.SessionState.{
  RoomsFile, state_version, is_not_found, retain_ne, read_rooms_file, list_topics, add_topic,
  remove_topic,
}

-- `topics.iter().any(|t| t == topic)`
abbrev pub has : List Str → Str → Bool
has topics topic = any (λ t. str_eq t topic) topics

has-append : (ts : List Str) (a b : Str) → has (ts ++ a ∷ []) b ≡ (has ts b || str_eq a b)
has-append [] a b = ground arith
has-append (t ∷ ts) a b = ground (arith, has-append ts a b)

has-retain_ne :
    (ts : List Str) (a b : Str) → has (retain_ne a ts) b ≡ (not (str_eq a b) && has ts b)
unfolding retain_ne
has-retain_ne [] a b = ground arith
has-retain_ne (t ∷ ts) a b =
    ground (arith, has-retain_ne ts a b, str_eq_iff t a, str_eq_iff t b, str_eq_iff a b)

length-retain_ne : (a : Str) (ts : List Str) → length (retain_ne a ts) ≤ length ts
unfolding retain_ne
length-retain_ne a [] = omega arith
length-retain_ne a (t ∷ ts) = ground (arith, length-retain_ne a ts)

-- Removing shortens the list exactly if the topic was there.
length-retain_ne_iff :
    (a : Str) (ts : List Str) → (length (retain_ne a ts) == length ts) ≡ not (has ts a)
unfolding retain_ne
length-retain_ne_iff a [] = refl
length-retain_ne_iff a (t ∷ ts) = ground (arith, length-retain_ne_iff a ts, length-retain_ne a ts)

retain_ne_absent : (a : Str) (ts : List Str) → has ts a ≡ false → retain_ne a ts ≡ ts
unfolding retain_ne
retain_ne_absent a [] h = refl
retain_ne_absent a (t ∷ ts) h = ground (arith, retain_ne_absent a ts)

-- no topic twice
abbrev pub IsSetOfTopics : List Str → Type 0
IsSetOfTopics [] = Unit
IsSetOfTopics (t ∷ ts) = (has ts t ≡ false) × IsSetOfTopics ts

IsSetOfTopics-append :
    (ts : List Str) (a : Str) → has ts a ≡ false → IsSetOfTopics ts → IsSetOfTopics (ts ++ a ∷ [])
IsSetOfTopics-append [] a h k = (refl, tt)
IsSetOfTopics-append (t ∷ ts) a h k = (
  ground (arith, has-append ts a t, str_eq_iff t a, str_eq_iff a t),
  IsSetOfTopics-append ts a (ground arith) k.1,
)

IsSetOfTopics-retain_ne :
    (a : Str) (ts : List Str) → IsSetOfTopics ts → IsSetOfTopics (retain_ne a ts)
unfolding retain_ne
IsSetOfTopics-retain_ne a [] k = tt
IsSetOfTopics-retain_ne a (t ∷ ts) k = elim (Bool-cases (str_eq t a)) [
  | inl e ↦ rw e (IsSetOfTopics-retain_ne a ts k.1)
  | inr e ↦ rw e (ground (arith, has-retain_ne ts a t), IsSetOfTopics-retain_ne a ts k.1)
]

-- Of the errors of a read, only the missing file is listed as no topics.
err_listed :
    (x : Error) (ts : List Str)
    → (if is_not_found x then ok [] else err x) ≡ ok ts
    → (x ≡ not_found) × (ts ≡ [])
err_listed not_found ts h = (refl, ground arith)
err_listed _ ts h = cc

err_not_found :
    (file : Option Str) (x e : Error)
    → ◌≡◌ {A = Result (List Str)} (if is_not_found x then ok [] else err x) (err e)
    → ◌≡◌ {A = Result (Option Str)} (if is_not_found x then ok file else err x) (err e)
err_not_found file not_found e h = cc
err_not_found file _ e h = ground arith

has_old : (ts : List Str) (a b : Str) → has ts a ≡ true → has ts b ≡ (str_eq a b || has ts b)
has_old ts a b h = elim (Bool-cases (str_eq a b)) [
  | inl e ↦ let same : a ≡ b = (str_eq_iff a b).0 e in rw e (rw same at h)
  | inr e ↦ rw e
]

has-add :
    (ts : List Str) (a b : Str)
    → has (if has ts a then ts else ts ++ a ∷ []) b ≡ (str_eq a b || has ts b)
has-add ts a b = elim (Bool-cases (has ts a)) [
  | inl old ↦ rw old (has_old ts a b old)
  | inr new ↦ rw new (has-append ts a b ∙ ground arith)
]

module _ (parse : Str → Option RoomsFile) (print : RoomsFile → Str)
    (parse-print : (r : RoomsFile) → parse (print r) ≡ some r) where
  -- The file has these topics: it is missing and there are none, or it is of this version.
  pub record Holds (file : Option Str) (ts : List Str) : Type 0 where
    pub listed : list_topics parse print file ≡ ok ts
    pub unique : IsSetOfTopics ts

  read_print :
      (r : RoomsFile) → r.v ≡ state_version → read_rooms_file parse print (some (print r)) ≡ ok r
  unfolding read_rooms_file
  read_print r v = rw parse-print (let e : (r.v == state_version) ≡ true = ground arith in rw e)

  list_print :
      (r : RoomsFile) (ts : List Str)
      → r.v ≡ state_version
      → r.topics ≡ ts
      → list_topics parse print (some (print r)) ≡ ok ts
  unfolding list_topics
  list_print r ts v e = rw (read_print r v, list_topics) (ap ok e)

  read-version :
      (file : Option Str) (r : RoomsFile)
      → read_rooms_file parse print file ≡ ok r
      → r.v ≡ state_version
  unfolding read_rooms_file
  read-version none r h = absurd (ground arith)
  read-version (some raw) r h = ground arith

  -- A file whose topics are listed has been read, or is not there.
  listed-cases :
      (file : Option Str) (ts : List Str)
      → list_topics parse print file ≡ ok ts
      → ((r : RoomsFile) × (read_rooms_file parse print file ≡ ok r)
          × (r.v ≡ state_version)
          × (r.topics ≡ ts))
        ⊎ ((read_rooms_file parse print file ≡ err not_found) × (ts ≡ []))
  unfolding list_topics
  listed-cases file ts h = elim (Result-cases (read_rooms_file parse print file)) [
    | inl (r, e) ↦
        inl (r, e, read-version file r e, let h' = rw (e, list_topics) at h in ground arith)
    | inr (x, e) ↦
        let (is_x, none_there) = err_listed x ts (rw (e, list_topics) at h) in
        inr (e ∙ ap err is_x, none_there)
  ]

  -- `add_topic` puts a topic behind the others, unless it is there already.
  add_topic-Holds :
      (file : Option Str) (ts : List Str) (a : Str)
      → Holds file ts
      → Holds (add_topic parse print file a) (if has ts a then ts else ts ++ a ∷ [])
  unfolding add_topic
  add_topic-Holds file ts a h = elim (listed-cases file ts h.listed) [
    | inl (r, e, v, t) ↦ elim (Bool-cases (has ts a)) [
      | inl old ↦ record {
        listed = rw (e, t, old) (list_print (record { v = r.v; topics = ts }) ts v refl);
        unique = rw old h.unique;
      }
      | inr new ↦ record {
        listed = rw (e, t, new) (list_print (record { v = r.v; topics = ts ++ a ∷ [] }) _ v refl);
        unique = rw new (IsSetOfTopics-append ts a new h.unique);
      }
    ]
    | inr (e, n) ↦ record {
      listed = rw (e, n) (list_print _ _ refl refl);
      unique = rw n (refl, tt);
    }
  ]

  remove_topic-Holds :
      (file : Option Str) (ts : List Str) (a : Str)
      → Holds file ts
      → (file' : Option Str) × (remove_topic parse print file a ≡ ok file')
        × Holds file' (retain_ne a ts)
  unfolding remove_topic
  remove_topic-Holds file ts a h = elim (listed-cases file ts h.listed) [
    | inl (r, e, v, t) ↦ elim (Bool-cases (has ts a)) [
      | inl there ↦ (
        some (print (record { v = r.v; topics = retain_ne a ts })),
        rw (e, remove_topic) (rw (t, length-retain_ne_iff a ts, there)),
        record {
          listed = list_print (record { v = r.v; topics = retain_ne a ts }) _ v refl;
          unique = IsSetOfTopics-retain_ne a ts h.unique;
        },
      )
      | inr absent ↦ (
        file,
        rw (e, remove_topic) (rw (t, length-retain_ne_iff a ts, absent)),
        rw (retain_ne_absent a ts absent) h,
      )
    ]
    | inr (e, n) ↦ (file, rw (e, remove_topic), rw n (unfold retain_ne in rw n at h))
  ]

  -- What the session has joined, as a set of topics, if the file holds a list without repetitions and
  -- what is printed parses back: after `add_topic` the topic and all that was
  -- there, after `remove_topic` all that was there but the topic.
  pub rooms_are_a_set :
      (file : Option Str) (ts : List Str) (a : Str)
      → Holds file ts
      → ((us : List Str) × Holds (add_topic parse print file a) us
          × ((b : Str) → has us b ≡ (str_eq a b || has ts b)))
        × ((file' : Option Str) × (us : List Str) × (remove_topic parse print file a ≡ ok file')
            × Holds file' us
            × ((b : Str) → has us b ≡ (not (str_eq a b) && has ts b)))
  rooms_are_a_set file ts a h =
      let (file', e, h') = remove_topic-Holds file ts a h in
      (
        (_, add_topic-Holds file ts a h, λ b. has-add ts a b),
        (file', retain_ne a ts, e, h', λ b. has-retain_ne ts a b),
      )

  -- If what is printed parses back: a file that cannot be read, such as one of a newer version, stops `remove_topic` with its
  -- error; but `add_topic` writes a new file over it, with the one topic.
  pub add_topic_overwrites_unreadable :
      (file : Option Str) (a : Str) (e : Error)
      → list_topics parse print file ≡ err e
      → (remove_topic parse print file a ≡ err e)
        × (list_topics parse print (add_topic parse print file a) ≡ ok (a ∷ []))
  unfolding remove_topic add_topic list_topics
  add_topic_overwrites_unreadable file a e h =
      elim (Result-cases (read_rooms_file parse print file)) [
        | inl (r, p) ↦ absurd (let h' = rw (p, list_topics) at h in ground arith)
        | inr (x, p) ↦ (
          rw (p, remove_topic) (err_not_found file x e (rw (p, list_topics) at h)),
          rw p (list_print (record { v = state_version; topics = a ∷ [] }) _ refl refl),
        )
      ]

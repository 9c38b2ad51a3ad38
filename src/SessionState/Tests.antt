-- ===== src/SessionState/Tests.antt =====
-- A concrete text form of the two files, and runs on them. A number is one byte, and a list of
-- strings has a zero behind each string and every byte of a string one higher.
use minara_connect.Base.{
  ℕ, zero, suc, ◌≡◌, ◌≢◌, refl, ap, not, ◌||◌, ◌&&◌, Option, none, some, List, [], ◌∷◌, Str, str,
  str_eq, contains_byte, ok, err, not_found, rooms_version_mismatch,
}
use minara_connect.SessionState.{
  RoomsFile, PendingJoin, read_rooms_file, list_topics, add_topic, remove_topic, check_token,
  create_pending_join, consume_pending_join, put, PendingDir,
}
use minara_connect.SessionState.Rooms.{has, Holds, rooms_are_a_set, add_topic_overwrites_unreadable}
use minara_connect.SessionState.Pending.{create-consume}

print_str : Str → Str → Str
print_str [] rest = zero ∷ rest
print_str (b ∷ s) rest = suc b ∷ print_str s rest

print_strs : List Str → Str
unfolding print_str
print_strs [] = []
print_strs (s ∷ ss) = print_str s (print_strs ss)

push : ℕ → List Str → List Str
push b [] = (b ∷ []) ∷ []
push b (s ∷ ss) = (b ∷ s) ∷ ss

parse_strs : Str → List Str
unfolding push
parse_strs [] = []
parse_strs (zero ∷ rest) = [] ∷ parse_strs rest
parse_strs (suc b ∷ rest) = push b (parse_strs rest)

parse_print_str : (s rest : Str) → parse_strs (print_str s rest) ≡ s ∷ parse_strs rest
unfolding parse_strs print_str push
parse_print_str [] rest = refl
parse_print_str (b ∷ s) rest = ap (push b) (parse_print_str s rest)

parse_print_strs : (ss : List Str) → parse_strs (print_strs ss) ≡ ss
unfolding print_strs parse_strs
parse_print_strs [] = refl
parse_print_strs (s ∷ ss) = rw (parse_print_str s (print_strs ss), parse_print_strs ss) refl

print_rooms : RoomsFile → Str
unfolding print_strs
print_rooms r = r.v ∷ print_strs r.topics

parse_rooms : Str → Option RoomsFile
unfolding parse_strs
parse_rooms [] = none
parse_rooms (v ∷ rest) = some (record { v = v; topics = parse_strs rest })

parse-print_rooms : (r : RoomsFile) → parse_rooms (print_rooms r) ≡ some r
unfolding parse_rooms print_rooms
parse-print_rooms r = rw (parse_print_strs r.topics) refl

abbrev join_of : ℕ → ℕ → ℕ → List Str → Option PendingJoin
join_of v pid at (token ∷ topic ∷ ticket ∷ []) = some (record {
  v = v;
  token = token;
  claude_pid = pid;
  topic = topic;
  ticket = ticket;
  requested_at_ms = at;
})
join_of v pid at _ = none

print_join : PendingJoin → Str
unfolding print_strs
print_join p =
    p.v ∷ p.claude_pid ∷ p.requested_at_ms ∷ print_strs (p.token ∷ p.topic ∷ p.ticket ∷ [])

parse_join : Str → Option PendingJoin
unfolding parse_strs
parse_join (v ∷ pid ∷ at ∷ rest) = join_of v pid at (parse_strs rest)
parse_join _ = none

parse-print_join : (p : PendingJoin) → parse_join (print_join p) ≡ some p
unfolding parse_join print_join
parse-print_join p = rw (parse_print_strs (p.token ∷ p.topic ∷ p.ticket ∷ [])) refl

abbrev ab : Str
ab = str "ab"

abbrev cd : Str
cd = str "cd"

abbrev file : Option Str
file = some (1 ∷ 98 ∷ 99 ∷ 0 ∷ [])

file-Holds : Holds parse_rooms print_rooms parse-print_rooms file (ab ∷ [])
unfolding list_topics read_rooms_file parse_rooms parse_strs push
file-Holds = record { listed = refl; unique = (refl, tt) }

rooms_are_a_set_example :
    ((us : List Str) × Holds parse_rooms print_rooms parse-print_rooms
        (add_topic parse_rooms print_rooms file cd)
        us
      × ((b : Str) → has us b ≡ (str_eq cd b || has (ab ∷ []) b)))
    × ((file' : Option Str) × (us : List Str) × (remove_topic parse_rooms print_rooms file cd
          ≡ ok file')
        × Holds parse_rooms print_rooms parse-print_rooms file' us
        × ((b : Str) → has us b ≡ (not (str_eq cd b) && has (ab ∷ []) b)))
rooms_are_a_set_example =
    rooms_are_a_set parse_rooms print_rooms parse-print_rooms file (ab ∷ []) cd file-Holds

-- a file of version 2
abbrev newer : Option Str
newer = some (2 ∷ 98 ∷ 0 ∷ [])

newer_is_refused : list_topics parse_rooms print_rooms newer ≡ err rooms_version_mismatch
unfolding list_topics read_rooms_file parse_rooms
newer_is_refused = refl

add_topic_overwrites_unreadable_example :
    (remove_topic parse_rooms print_rooms newer cd ≡ err rooms_version_mismatch)
    × (list_topics parse_rooms print_rooms (add_topic parse_rooms print_rooms newer cd)
        ≡ ok (cd ∷ []))
add_topic_overwrites_unreadable_example =
    add_topic_overwrites_unreadable parse_rooms print_rooms parse-print_rooms newer cd
      rooms_version_mismatch newer_is_refused

abbrev no_joins : PendingDir
no_joins t = none

abbrev requested : PendingDir
requested = put no_joins ab (some (1 ∷ 7 ∷ 5 ∷ 98 ∷ 99 ∷ 0 ∷ 100 ∷ 101 ∷ 0 ∷ 100 ∷ 0 ∷ []))

requested_test :
    create_pending_join parse_join print_join no_joins ab 5 7 cd (str "c") ≡ ok (ab, requested)
unfolding create_pending_join check_token print_join print_strs print_str contains_byte
requested_test = refl

create-consume_example :
    (pj : PendingJoin) × (dir'' : PendingDir) × (ab ≡ ab)
    × (consume_pending_join parse_join print_join requested ab ≡ ok (pj, dir''))
    × (pj.claude_pid ≡ 7)
    × (pj.topic ≡ cd)
    × (pj.ticket ≡ str "c")
    × (consume_pending_join parse_join print_join dir'' ab ≡ err not_found)
    × ((t : Str) → t ≢ ab → dir'' t ≡ no_joins t)
create-consume_example =
    create-consume parse_join print_join parse-print_join no_joins requested ab ab 5 7 cd (str "c")
      requested_test

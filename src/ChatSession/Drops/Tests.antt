-- ===== src/ChatSession/Drops/Tests.antt =====
-- p1 drops a file of three bytes.
use minara_connect.Base.{◌≡◌, refl, str, ok, some, pos, is_utf8}
use minara_connect.Message.Samples.{id, notes_drop, new_file_drop-notes}
use minara_connect.DropSafety.Samples.{notes, evaluate-notes, file_name-notes}
use minara_connect.ChatSession.Samples.{outside}
use minara_connect.ChatSession.Drops.{build_file_drop, check_safety, drop_name}
use minara_connect.ChatSession.Drops.Announced.{IsAnnounced, build_file_drop-IsAnnounced}

check_safety-notes : check_safety outside notes ≡ ok tt
unfolding check_safety
check_safety-notes = rw evaluate-notes refl

drop_name-notes : drop_name notes ≡ some (str "a.txt")
unfolding drop_name is_utf8
drop_name-notes = rw (file_name-notes, drop_name) refl

build_file_drop_test : build_file_drop outside notes (str "p1") id (pos 1000) ≡ ok notes_drop
unfolding build_file_drop
build_file_drop_test =
    rw (check_safety-notes, drop_name-notes, build_file_drop) (rw new_file_drop-notes refl)

build_file_drop-IsAnnounced_example : IsAnnounced outside notes (str "p1") notes_drop
build_file_drop-IsAnnounced_example =
    build_file_drop-IsAnnounced outside notes (str "p1") id (pos 1000) notes_drop
      build_file_drop_test

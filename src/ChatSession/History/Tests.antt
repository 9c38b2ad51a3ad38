-- ===== src/ChatSession/History/Tests.antt =====
-- The newest of three files.
use minara_connect.Base.{◌≡◌, refl, true, false, [], ◌∷◌, str}
use minara_connect.Message.Samples.{from_slice}
use minara_connect.ChatSession.History.{
  FileEntry, list_files_in, newest_first, insert_recent, context_between, mention_context_max,
}
use minara_connect.ChatSession.History.Window.{keep_between, context_between_lem}
use minara_connect.Base.{drop, length, ◌-◌, some, none}
use minara_connect.LogIo.{read_since}

abbrev old_file : FileEntry
old_file = record { path = str "a"; is_file = true; mtime = 1; size = 3 }

abbrev new_file : FileEntry
new_file = record { path = str "b"; is_file = true; mtime = 9; size = 3 }

abbrev a_dir : FileEntry
a_dir = record { path = str "c"; is_file = false; mtime = 20; size = 0 }

newest_test : list_files_in (old_file ∷ a_dir ∷ new_file ∷ []) 1 ≡ new_file ∷ []
unfolding list_files_in newest_first insert_recent
newest_test = refl

context_between_lem_example :
    let between = keep_between (str "00") (str "0Z") (read_since from_slice (str "{m}\n") none) in
    context_between from_slice (some (str "{m}\n")) (some (str "00")) (str "0Z")
    ≡ drop (length between - mention_context_max) between
context_between_lem_example = context_between_lem from_slice (str "{m}\n") (str "00") (str "0Z")

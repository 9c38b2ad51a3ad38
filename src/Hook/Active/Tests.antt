-- ===== src/Hook/Active/Tests.antt =====
-- A directory with the file of a running process, one of a process that is gone, and another file.
use minara_connect.Base.{
  AnyOf, ◌≡◌, ◌↔◌, refl, true, false, none, some, List, [], ◌∷◌, Str, str, if◌then◌else◌, ◌==◌, ℕ,
  ok,
}
use minara_connect.Hook.Active.{
  Signalled, delivered, no_such_process, ActiveDir, enumerate_active_rooms,
}
use minara_connect.Hook.Active.Alive.{IsRoom, enumerate_active_rooms_lem}

abbrev kill : ℕ → Signalled
kill pid = if pid == 4242 then delivered else no_such_process

abbrev dir : ActiveDir
dir = record {
  is_symlink = false;
  is_dir = true;
  mode = 448;
  entries =
      record { name = str "aa.active"; content = some (str "4242\n") }
      ∷ record { name = str "bb.active"; content = some (str "77\n") }
      ∷ record { name = str "notes"; content = none }
      ∷ [];
}

enumerate_active_rooms_lem_example :
    (topics : List Str) × (left : ActiveDir) × (enumerate_active_rooms kill (some dir)
      ≡ (ok topics, some left))
    × (AnyOf (λ t. t ≡ str "aa") topics ↔ AnyOf (IsRoom kill (str "aa")) dir.entries)
    × (enumerate_active_rooms kill (some left) ≡ (ok topics, some left))
enumerate_active_rooms_lem_example = enumerate_active_rooms_lem kill dir (str "aa") refl refl refl

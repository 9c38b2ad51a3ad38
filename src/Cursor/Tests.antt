-- ===== src/Cursor/Tests.antt =====
-- A cursor that two writers advance at the same time.
use minara_connect.Base.{
  Option, ◌≡◌, refl, true, false, none, some, List, [], ◌∷◌, arith, Str, str, ok, err,
  cursor_race_retry_exhausted,
}
use minara_connect.Cursor.{CursorFs, race_retry_limit, advance_cursor, content_of, read_cursor}
use minara_connect.Message.Samples.{id}
use minara_connect.Message.Ulid.{IsUlid}
use minara_connect.Cursor.ReadBack.{read-advance_cursor}
use minara_connect.Cursor.Race.{is_calm, left_by, advance_cursor_lem}

abbrev fs : CursorFs
fs = record { path = some (3, str "old"); next_ino = 4 }

-- The other writer comes between in the first attempt only.
abbrev others : List (List Str)
others = (str "theirs" ∷ []) ∷ []

advance_cursor_lem_example :
    (is_calm race_retry_limit others ≡ true
      → ((advance_cursor others (str "ours") fs).1 ≡ ok tt)
        × (content_of ((advance_cursor others (str "ours") fs).0) ≡ some (str "ours")))
    × (is_calm race_retry_limit others ≡ false
        → ((advance_cursor others (str "ours") fs).1 ≡ err cursor_race_retry_exhausted)
          × (content_of ((advance_cursor others (str "ours") fs).0)
              ≡ left_by race_retry_limit others (some (str "old"))))
advance_cursor_lem_example = advance_cursor_lem others (str "ours") fs (omega arith)

race_test : content_of ((advance_cursor others (str "ours") fs).0) ≡ some (str "ours")
unfolding advance_cursor
race_test = refl

abbrev no_json : Str → Option Str
no_json s = none

id-IsUlid : IsUlid id
id-IsUlid = record {
  has_len = refl;
  in_alphabet = (
    refl,
    (
      refl,
      (
        refl,
        (
          refl,
          (
            refl,
            (
              refl,
              (
                refl,
                (
                  refl,
                  (
                    refl,
                    (
                      refl,
                      (
                        refl,
                        (
                          refl,
                          (
                            refl,
                            (
                              refl,
                              (
                                refl,
                                (
                                  refl,
                                  (
                                    refl,
                                    (
                                      refl,
                                      (
                                        refl,
                                        (refl, (refl, (refl, (refl, (refl, (refl, (refl, tt))))))),
                                      ),
                                    ),
                                  ),
                                ),
                              ),
                            ),
                          ),
                        ),
                      ),
                    ),
                  ),
                ),
              ),
            ),
          ),
        ),
      ),
    ),
  );
}

others_are_calm : is_calm race_retry_limit others ≡ true
unfolding is_calm
others_are_calm = refl

read-advance_cursor_test :
    read_cursor no_json (content_of ((advance_cursor others id fs).0)) ≡ ok (some id)
read-advance_cursor_test =
    read-advance_cursor no_json others id fs (omega arith) id-IsUlid others_are_calm

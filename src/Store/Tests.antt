-- ===== src/Store/Tests.antt =====
-- Edits of a small schedule.
use fast_tv_playout_core.Base.{
  ℕ, ◌≡◌, String, insert_by, refl, true, inl, ◌⊎◌, none, some, [], ◌∷◌, arith, str_eq,
  if◌then◌else◌, pos,
}
use fast_tv_playout_core.Clock.{Instant}
use fast_tv_playout_core.Schedule.{Entry}
use fast_tv_playout_core.Store.{
  Db, Change, Reader, gives, fails, idempotency_conflict, bad_json, edit_schedule, edit_channel,
  not_found, version_mismatch, find_answer, response_of, replace_in_tx, row_fault, has_start,
  remember,
}
use fast_tv_playout_core.Store.Edits.{Leaves, edit_schedule-Leaves}
use fast_tv_playout_core.Store.Repeats.{is_new, version_of, edit_schedule_repeats}

abbrev slate : Instant → Entry
slate t = record {
  type = "slate";
  asset_id = "";
  uri = "";
  start = t;
  duration_s = pos 10;
  offset_s = pos 0;
  category = "";
  scte35 = "";
}

abbrev two_slates : Db
two_slates = record {
  version = 7;
  rows = slate 100 ∷ slate 200 ∷ [];
  assets = [];
  answers = [];
  jsonb = λ text. some text;
}

-- The second slate is moved.
abbrev moving : Change
moving = record { from = 150; to = 300; entries = slate 250 ∷ []; response = none }

abbrev to_move : Reader → Change ⊎ ℕ
to_move r = inl moving

edit_schedule_moves :
    (edit_schedule (some 7) "key" "hash" 1000 to_move two_slates).1.rows
    ≡ slate 100 ∷ slate 250 ∷ []
unfolding edit_schedule find_answer replace_in_tx row_fault has_start remember insert_by
edit_schedule_moves = refl

edit_schedule_late :
    edit_schedule (some 6) "key" "hash" 1000 to_move two_slates
    ≡ (fails (version_mismatch 7), two_slates)
unfolding edit_schedule find_answer
edit_schedule_late = refl

edit_channel_missing : edit_channel none "key" "hash" 1000 to_move none ≡ (fails not_found, none)
unfolding edit_channel
edit_channel_missing = refl

edit_schedule-Leaves_example :
    Leaves ℕ two_slates (edit_schedule (some 7) "key" "hash" 1000 to_move two_slates)
edit_schedule-Leaves_example =
    edit_schedule-Leaves ℕ (some 7) "key" "hash" 1000 to_move two_slates
      (omega arith, (omega arith, tt))

moves_new : is_new (edit_schedule (some 7) "key" "hash" 1000 to_move two_slates).0 ≡ true
unfolding edit_schedule find_answer replace_in_tx row_fault has_start remember
moves_new = refl

edit_schedule_repeats_example :
    let (answer, db') = edit_schedule (some 7) "key" "hash" 1000 to_move two_slates in
    (text : String) × (two_slates.jsonb (response_of moving (version_of answer)) ≡ some text)
    × (edit_schedule none "key" "other" 2000 to_move db' ≡ (
        if str_eq "hash" "other"
        then (gives (record { version = version_of answer; replayed = true; response = text }), db')
        else (fails idempotency_conflict, db')))
edit_schedule_repeats_example =
    edit_schedule_repeats (some 7) none "key" "hash" "other" 1000 2000 to_move to_move two_slates
      moving refl refl moves_new

-- A database that takes no text as jsonb refuses an edit with a key, and stays as it is.
abbrev no_json : Db
no_json = record two_slates { jsonb = λ text. none }

edit_schedule_unkept :
    edit_schedule (some 7) "key" "hash" 1000 to_move no_json ≡ (fails bad_json, no_json)
unfolding edit_schedule find_answer replace_in_tx row_fault has_start remember
edit_schedule_unkept = refl

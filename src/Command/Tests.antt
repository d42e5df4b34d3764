-- ===== src/Command/Tests.antt =====
-- A break that is ordered on an empty schedule.
use fast_tv_playout_core.Base.{◌+◌, ◌*◌, ◌≡◌, refl, false, some, [], pos}
use fast_tv_playout_core.Clock.{second}
use fast_tv_playout_core.Store.{Db, stopped}
use fast_tv_playout_core.Command.{
  Server, Asked, run_command, moment, inserted, unknown_type, bad_length, too_soon,
}
use fast_tv_playout_core.Command.Applies.{Applies, run_command-Applies}

abbrev at_ten : Server
at_ten = record {
  now = 10 * second + 5;
  cue_lead = pos (2 * second);
  parse_time = λ t. some (11 * second);
  trim = λ t. t;
  marshal = λ r. r.type;
}

abbrev a_break : Asked
a_break = record {
  type = "ad_break";
  at = "now";
  duration = pos 30;
  asset_id = "";
  uri = "";
  category = "";
  scte35 = "";
  only_break = false;
}

abbrev nothing_planned : Db
nothing_planned = record {
  version = 3;
  rows = [];
  assets = [];
  answers = [];
  jsonb = λ text. some text;
}

run_command_early :
    run_command at_ten (record a_break { at = "11" }) "key" "hash" nothing_planned
    ≡ (stopped too_soon, nothing_planned)
unfolding run_command moment
run_command_early = refl

run_command_unknown :
    run_command at_ten (record a_break { type = "pause" }) "key" "hash" nothing_planned
    ≡ (stopped unknown_type, nothing_planned)
unfolding run_command
run_command_unknown = refl

run_command_endless :
    run_command at_ten (record a_break { duration = pos 14401 }) "key" "hash" nothing_planned
    ≡ (stopped bad_length, nothing_planned)
unfolding run_command moment inserted
run_command_endless = refl

run_command-Applies_example :
    Applies at_ten nothing_planned (run_command at_ten a_break "key" "hash" nothing_planned)
run_command-Applies_example = run_command-Applies at_ten a_break "key" "hash" nothing_planned tt

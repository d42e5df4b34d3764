-- ===== src/Command.antt =====
-- services/control-api/commands.go: a command becomes an edit of the schedule. What the handler takes from Go's
-- library (reading a time, trimming spaces, printing JSON) is a field of `Server`.
pub mod Applies
mod Tests
use fast_tv_playout_core.Base.{
  ℕ, ◌+◌, ◌-◌, ◌*◌, ◌%◌, ◌==◌, Bool, true, false, not, ◌&&◌, ◌||◌, Option, none, some, List, [],
  ◌∷◌, ltb, if◌then◌else◌, length, String, str_eq, ℤ, pos, ltb_ℤ, ◌⊎◌, inl, inr,
}
use fast_tv_playout_core.Clock.{Instant, Duration, second, has_fraction, before, add}
use fast_tv_playout_core.Schedule.{Entry, Edit, Failure, Result, ok, err}
use fast_tv_playout_core.Schedule.Check.{max_entries, check_entries}
use fast_tv_playout_core.Schedule.Insert.{break_airs, insert_shift}
use fast_tv_playout_core.Schedule.Skip.{skip}
use fast_tv_playout_core.Store.{
  Asset, Db, Change, Reader, ApplyResult, Outcome, gives, fails, stopped, StoreFault, find_asset,
  edit_schedule, reader,
}

-- commandIn
pub record Asked : Type 0 where
  pub type : String
  pub at : String
  pub duration : ℤ
  pub asset_id : String
  pub uri : String
  pub category : String
  pub scte35 : String
  pub only_break : Bool

-- The Problems of a command, and what the schedule's own operations say.
pub data Misuse : Type 0 where
  unknown_type unreadable_time time_fraction too_soon break_with_asset nothing_to_insert
        unknown_asset bad_length spaced_category :
      Misuse
  too_long no_break : Misuse
  in_schedule : Failure → Misuse

pub record CommandResult : Type 0 where
  pub type : String
  pub effective_at : Instant
  pub version : ℕ
  pub entries : ℕ
  pub replayed : Bool
  pub stored : String

-- The server's clock and cueLead, and time.Parse, strings.TrimSpace and json.Marshal.
pub record Server : Type 0 where
  pub now : Instant
  pub cue_lead : Duration
  pub parse_time : String → Option Instant
  pub trim : String → String
  pub marshal : CommandResult → String

abbrev pub max_command_seconds : ℕ
max_command_seconds = 4 * 3600

unfoldable pub earliest : Server → Instant
earliest s = let t = add s.now s.cue_lead in if has_fraction t then t - t % second + second else t

abbrev pub known_type : String → Bool
known_type t = str_eq t "ad_break" || str_eq t "slate" || str_eq t "insert" || str_eq t "skip"

-- The tests on a time that could be read, or not.
pub given_moment : Instant → Option Instant → Misuse ⊎ Instant
given_moment soonest none = inl unreadable_time
given_moment soonest (some t) =
    if has_fraction t then inl time_fraction else if before t soonest then inl too_soon else inr t

unfoldable pub moment : Server → Asked → Misuse ⊎ Instant
unfolding given_moment earliest
moment s c =
    if str_eq c.at "" || str_eq c.at "now"
    then inr (earliest s)
    else given_moment (earliest s) (s.parse_time c.at)

-- A TimelineEntry with the zero values of Go.
abbrev pub blank_entry : Entry
blank_entry = record {
  type = "";
  asset_id = "";
  uri = "";
  start = 0;
  duration_s = pos 0;
  offset_s = pos 0;
  category = "";
  scte35 = "";
}

-- The tests on the length and the category.
unfoldable pub fitting : Server → Entry → Misuse ⊎ Entry
fitting s e =
    if ltb_ℤ e.duration_s (pos 1) || ltb_ℤ (pos max_command_seconds) e.duration_s
    then inl bad_length
    else if not (str_eq (s.trim e.category) e.category)
    then inl spaced_category
    else inr e

-- The asset of an insert gives the length, if the command does not.
pub with_length : Entry → Option Asset → Misuse ⊎ Entry
with_length e none = inl unknown_asset
with_length e (some a) = inr (
    if ltb_ℤ e.duration_s (pos 0) || ltb_ℤ (pos 0) e.duration_s
    then e
    else record e { duration_s = a.duration_s })

-- The cases of the switch, before the tests that they share.
unfoldable pub drafted : List (String × Asset) → Asked → Misuse ⊎ Entry
unfolding with_length
drafted assets c =
    if str_eq c.type "ad_break"
    then (if not (str_eq c.asset_id "") || not (str_eq c.uri "")
        then inl break_with_asset
        else inr (record blank_entry {
          type = "ad_break";
          duration_s = c.duration;
          category = if str_eq c.category "" then "midroll" else c.category;
          scte35 = c.scte35;
        }))
    else if str_eq c.type "slate"
    then inr (record blank_entry { type = "slate"; duration_s = c.duration })
    else if str_eq c.type "insert"
    then (let e : Entry = record blank_entry {
      type = "content";
      asset_id = c.asset_id;
      uri = c.uri;
      duration_s = c.duration;
    } in
        if str_eq c.asset_id "" && str_eq c.uri ""
        then inl nothing_to_insert
        else if str_eq c.asset_id ""
        then inr e
        else with_length e (find_asset c.asset_id assets))
    else inr blank_entry

pub then_fitting : Server → Misuse ⊎ Entry → Misuse ⊎ Entry
unfolding fitting
then_fitting s (inl m) = inl m
then_fitting s (inr e) = fitting s e

-- inserted; the assets are those of the database when the command comes in.
unfoldable pub inserted : Server → List (String × Asset) → Asked → Misuse ⊎ Entry
unfolding drafted then_fitting
inserted s assets c =
    if str_eq c.type "skip" then inr blank_entry else then_fitting s (drafted assets c)

-- The answer before its version is known.
abbrev pub draft_result : Asked → Instant → Edit → ℕ → CommandResult
draft_result c at ed v = record {
  type = c.type;
  effective_at = at;
  version = v;
  entries = length ed.entries;
  replayed = false;
  stored = "";
}

-- The change that an edit is, if its entries pass CheckEntries.
pub checked : Server → Asked → Instant → Edit → Result (List Entry) → Change ⊎ Misuse
checked s c at ed (err f) = inr (in_schedule f)
checked s c at ed (ok out) = inl (record {
  from = ed.from;
  to = ed.to;
  entries = ed.entries;
  response = some (λ v. s.marshal (draft_result c at ed v));
})

pub to_change : Server → Asked → Instant → Result Edit → Change ⊎ Misuse
unfolding checked
to_change s c at (err f) = inr (in_schedule f)
to_change s c at (ok ed) = checked s c at ed (check_entries ed.entries ed.from ed.to)

-- The entries from the moment on that the edit is made of.
unfoldable pub upcoming : Instant → Reader → List Entry
upcoming at rd = rd.range at ((if before rd.horizon at then at else rd.horizon) + second)

-- The function that EditSchedule calls.
unfoldable pub decide : Server → Asked → Instant → Entry → Reader → Change ⊎ Misuse
unfolding upcoming to_change
decide s c at ins rd =
    let existing = upcoming at rd in
    if ltb max_entries (length existing)
    then inr too_long
    else if str_eq c.type "skip"
    then (if c.only_break && not (break_airs at existing)
        then inr no_break
        else to_change s c at (skip existing at))
    else to_change s c at (insert_shift existing at ins)

-- What the function left in `out`.
pub left : Asked → Instant → Change ⊎ Misuse → CommandResult
left c at (inr m) = record {
  type = "";
  effective_at = 0;
  version = 0;
  entries = 0;
  replayed = false;
  stored = "";
}
left c at (inl ch) = record {
  type = c.type;
  effective_at = at;
  version = 0;
  entries = length ch.entries;
  replayed = false;
  stored = "";
}

-- A request that is repeated has left nothing in `out`.
pub out_of : Asked → Instant → Change ⊎ Misuse → Bool → CommandResult
unfolding left
out_of c at made true = left c at (inr too_long)
out_of c at made false = left c at made

-- The result of EditSchedule as the result of the command.
pub answer :
    Asked
    → Instant
    → Change ⊎ Misuse
    → Outcome Misuse ApplyResult × Db
    → Outcome Misuse CommandResult × Db
unfolding out_of
answer c at made (fails f, db) = (fails f, db)
answer c at made (stopped m, db) = (stopped m, db)
answer c at made (gives r, db) = (
  gives (record (out_of c at made r.replayed) {
    version = r.version;
    replayed = r.replayed;
    stored = r.response;
  }),
  db,
)

pub run_with :
    Server
    → Asked
    → String
    → String
    → Db
    → Instant
    → Misuse ⊎ Entry
    → Outcome Misuse CommandResult × Db
unfolding answer decide
run_with s c key hash db at (inl m) = (stopped m, db)
run_with s c key hash db at (inr ins) =
    answer c at (decide s c at ins (reader db))
      (edit_schedule none key hash s.now (decide s c at ins) db)

pub run_at :
    Server → Asked → String → String → Db → Misuse ⊎ Instant → Outcome Misuse CommandResult × Db
unfolding run_with
run_at s c key hash db (inl m) = (stopped m, db)
run_at s c key hash db (inr at) = run_with s c key hash db at (inserted s db.assets c)

-- runCommand
unfoldable pub run_command :
    Server → Asked → String → String → Db → Outcome Misuse CommandResult × Db
unfolding run_at
run_command s c key hash db =
    if not (known_type c.type)
    then (stopped unknown_type, db)
    else run_at s c key hash db (moment s c)

-- ===== src/Schedule.antt =====
-- pkg/schedule/schedule.go: the types of an edit and what its three operations share. A Problem and an
-- ErrNothing are constructors of `Failure`, one for each message; the text of a message is not modelled.
pub mod Check
pub mod Insert
pub mod Skip
pub mod Air
pub mod Split
mod Tests
use fast_tv_playout_core.Base.{
  ℕ, suc, ◌+◌, ◌*◌, ◌≡◌, Bool, true, false, not, ◌&&◌, ◌||◌, Option, none, some, List, [], ◌∷◌,
  ◌++◌, ltb, leb, ◌==◌, ◌-ℤ◌, if◌then◌else◌, length, sort_stable, String, str_eq, ℤ, pos, ltb_ℤ,
  quot, wrap64, ◌+ℤ◌,
}
use fast_tv_playout_core.Clock.{
  Instant, Duration, second, is_zero, has_fraction, before, after, add, seconds, sub,
}
use fast_tv_playout_core.Model.{TimelineEntry}

abbrev pub Entry : Type 0
Entry = TimelineEntry

-- What can be wrong with the entry at an index.
pub data Fault : Type 0 where
  bad_type no_asset break_with_asset bad_duration bad_offset fractional_start outside overlap :
      Fault

pub data Failure : Type 0 where
  window_order window_too_long window_fraction too_many at_fraction no_duration : Failure
  in_entry : ℕ → Fault → Failure
  break_on_air nothing_scheduled : Failure

pub data Result {ℓ} (A : Type ℓ) : Type ℓ where
  ok : A → Result A
  err : Failure → Result A

-- endOf
unfoldable pub end_of : Entry → Instant
end_of e = add e.start (seconds e.duration_s)

-- Replace everything that starts in [from, to) with the entries.
pub record Edit : Type 0 where
  pub from : Instant
  pub to : Instant
  pub entries : List Entry

-- An entry is on the air at a moment.
abbrev pub on_air : Instant → Entry → Bool
on_air at e = not (after e.start at) && after (end_of e) at

-- int(d / time.Second)
abbrev pub whole_seconds : Duration → ℤ
whole_seconds d = quot d second

-- The part of an entry before the moment that cuts it.
unfoldable pub first_part : Instant → Entry → Entry
first_part at e = record e { duration_s = whole_seconds (sub at e.start) }

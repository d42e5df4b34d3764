-- ===== src/Schedule/Check.antt =====
-- Validate and CheckEntries of pkg/schedule/schedule.go.
pub mod Accepts
use fast_tv_playout_core.Base.{
  ℕ, suc, ◌+◌, ◌*◌, ◌≡◌, Bool, true, false, not, ◌&&◌, ◌||◌, Option, none, some, List, [], ◌∷◌,
  ◌++◌, ltb, leb, ◌==◌, ◌-ℤ◌, if◌then◌else◌, length, sort_stable, String, str_eq, ℤ, pos, ltb_ℤ,
  quot, wrap64, ◌+ℤ◌,
}
use fast_tv_playout_core.Clock.{
  Instant, Duration, second, is_zero, has_fraction, before, after, add, seconds, sub,
}
use fast_tv_playout_core.Schedule.{
  Entry, Fault, Failure, Result, ok, err, Edit, end_of, on_air, whole_seconds, first_part, bad_type,
  no_asset, break_with_asset, bad_duration, bad_offset, fractional_start, outside, overlap,
  window_order, window_too_long, window_fraction, too_many, at_fraction, no_duration, in_entry,
  break_on_air, nothing_scheduled,
}

abbrev pub max_window : ℕ
max_window = 12 * 3600 * second

abbrev pub max_entries : ℕ
max_entries = 20000

abbrev pub valid_type : String → Bool
valid_type s = str_eq s "content" || str_eq s "bumper" || str_eq s "slate" || str_eq s "ad_break"

abbrev pub starts_before : Entry → Entry → Bool
starts_before a b = before a.start b.start

-- The switch on the type of an entry.
asset_fault : Entry → Option Fault
asset_fault e =
    if str_eq e.type "content" || str_eq e.type "bumper"
    then (if str_eq e.asset_id "" && str_eq e.uri "" then some no_asset else none)
    else if str_eq e.type "ad_break"
    then (if not (str_eq e.asset_id "") || not (str_eq e.uri "")
        then some break_with_asset
        else none)
    else none

-- The tests on what an entry says by itself, after the one on its type.
value_fault : Instant → Instant → Entry → Option Fault
value_fault from to e =
    if not (ltb_ℤ (pos 0) e.duration_s)
    then some bad_duration
    else if ltb_ℤ e.offset_s (pos 0)
    then some bad_offset
    else if has_fraction e.start
    then some fractional_start
    else if before e.start from || not (before e.start to)
    then some outside
    else none

overlap_fault : Option Entry → Entry → Option Fault
overlap_fault none e = none
overlap_fault (some prev) e = if before e.start (end_of prev) then some overlap else none

-- The first of the results that is a fault.
infixr 20 ◌or_else◌
abbrev pub ◌or_else◌ : Option Fault → Option Fault → Option Fault
none or_else g = g
some f or_else g = some f

pub entry_fault : Instant → Instant → Option Entry → Entry → Option Fault
unfolding asset_fault value_fault overlap_fault
entry_fault from to prev e =
    if not (valid_type e.type)
    then some bad_type
    else asset_fault e or_else value_fault from to e or_else overlap_fault prev e

-- The loop over the sorted entries: `i` is the index, `prev` the entry before.
pub check_loop : Instant → Instant → ℕ → Option Entry → List Entry → Option Failure
check_loop from to i prev [] = none
check_loop from to i prev (e ∷ es) =
    let rest = check_loop from to (suc i) (some e) es in
    elim (entry_fault from to prev e) [ none ↦ rest | some f ↦ some (in_entry i f) ]

unfoldable pub check_entries : List Entry → Instant → Instant → Result (List Entry)
check_entries entries from to =
    if ltb max_entries (length entries)
    then err too_many
    else let out = sort_stable starts_before entries in
      elim (check_loop from to 0 none out) [ none ↦ ok out | some f ↦ err f ]

unfoldable pub validate : List Entry → Instant → Instant → Result (List Entry)
validate entries from to =
    if is_zero from || is_zero to || not (after to from)
    then err window_order
    else if ltb_ℤ (pos max_window) (sub to from)
    then err window_too_long
    else if has_fraction from || has_fraction to
    then err window_fraction
    else check_entries entries from to

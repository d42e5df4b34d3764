-- ===== src/Schedule/Skip.antt =====
-- Skip of pkg/schedule/schedule.go.
pub mod Run
pub mod Correct
use fast_tv_playout_core.Base.{
  ℕ, suc, ◌+◌, ◌*◌, ◌≡◌, Bool, true, false, not, ◌&&◌, ◌||◌, Option, none, some, List, [], ◌∷◌,
  ◌++◌, ltb, leb, ◌==◌, ◌-ℤ◌, if◌then◌else◌, length, sort_stable, String, str_eq, ℤ, pos, ltb_ℤ,
  quot, wrap64, ◌+ℤ◌,
}
use fast_tv_playout_core.Clock.{
  Instant, Duration, second, is_zero, has_fraction, before, after, add, seconds, sub,
}
use fast_tv_playout_core.Schedule.{
  Entry, Fault, Failure, Result, ok, err, Edit, end_of, on_air, whole_seconds, first_part, bad_type,
  no_asset, break_with_asset, bad_duration, bad_offset, fractional_start, outside, overlap,
  window_order, window_too_long, window_fraction, too_many, at_fraction, no_duration, in_entry,
  break_on_air, nothing_scheduled,
}

-- The entry that is on the air at a moment, and those behind it: existing[idx] and existing[idx+1:].
pub find_on_air : Instant → List Entry → Option (Entry × List Entry)
find_on_air at [] = none
find_on_air at (e ∷ es) = if on_air at e then some (e, es) else find_on_air at es

-- The variables of the loop of Skip: prevEnd, chain, ed.To and ed.Entries.
pub record Pull : Type 0 where
  pub prev_end : Instant
  pub chain : Bool
  pub to : Instant
  pub entries : List Entry

-- e.Start.Add(-pulled)
pub earlier : Duration → Entry → Entry
earlier pulled e = record e { start = add e.start (wrap64 (pos 0 -ℤ pulled)) }

later_of : Instant → Instant → Instant
later_of a b = if after a b then a else b

pub pull_step : Duration → Pull → Entry → Pull
unfolding earlier later_of
pull_step pulled p e =
    if p.chain && e.start == p.prev_end
    then record {
      prev_end = end_of e;
      chain = true;
      to = later_of (end_of e) p.to;
      entries = p.entries ++ earlier pulled e ∷ [];
    }
    else record p { chain = false; to = later_of (end_of e) p.to; entries = p.entries ++ e ∷ [] }

pub pull_loop : Duration → Pull → List Entry → Pull
pull_loop pulled p [] = p
pull_loop pulled p (e ∷ es) = pull_loop pulled (pull_step pulled p e) es

pub is_empty : List Entry → Bool
is_empty [] = true
is_empty (e ∷ es) = false

pub finish_skip : Instant → Entry → List Entry → Edit
unfolding pull_loop pull_step first_part is_empty
finish_skip at cur rest =
    let kept : List Entry = if after at cur.start then first_part at cur ∷ [] else [] in
    let p : Pull =
      pull_loop (sub (end_of cur) at)
        (record { prev_end = end_of cur; chain = true; to = end_of cur; entries = kept }) rest in
    record {
      from = cur.start;
      to = if is_empty p.entries then end_of cur else p.to;
      entries = p.entries;
    }

unfoldable pub skip : List Entry → Instant → Result Edit
unfolding find_on_air finish_skip
skip existing at = if has_fraction at then err at_fraction else elim (find_on_air at existing) [
  | none ↦ err nothing_scheduled
  | some (cur, rest) ↦ ok (finish_skip at cur rest)
]

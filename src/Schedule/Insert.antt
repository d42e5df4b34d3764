-- ===== src/Schedule/Insert.antt =====
-- InsertShift of pkg/schedule/schedule.go.
pub mod Parts
pub mod Late
pub mod Resume
pub mod Correct
pub mod Passes
use fast_tv_playout_core.Base.{
  ℕ, suc, ◌+◌, ◌*◌, ◌≡◌, Bool, true, false, not, ◌&&◌, ◌||◌, Option, none, some, List, [], ◌∷◌,
  ◌++◌, ltb, leb, ◌==◌, ◌-ℤ◌, if◌then◌else◌, length, sort_stable, String, str_eq, ℤ, pos, ltb_ℤ,
  quot, wrap64, ◌+ℤ◌,
}
use fast_tv_playout_core.Clock.{
  Instant, Duration, second, is_zero, has_fraction, before, after, add, seconds, sub,
}
use fast_tv_playout_core.Schedule.{
  Entry, Fault, Failure, Result, ok, err, Edit, end_of, on_air, whole_seconds, first_part, bad_type,
  no_asset, break_with_asset, bad_duration, bad_offset, fractional_start, outside, overlap,
  window_order, window_too_long, window_fraction, too_many, at_fraction, no_duration, in_entry,
  break_on_air, nothing_scheduled,
}

unfoldable pub break_airs : Instant → List Entry → Bool
break_airs at [] = false
break_airs at (e ∷ es) = str_eq e.type "ad_break" && on_air at e || break_airs at es

-- The variables of the loop of InsertShift: ed.From, ed.Entries and after.
pub record Cut : Type 0 where
  pub from : Instant
  pub entries : List Entry
  pub later : List Entry

pub second_part : Instant → Duration → Entry → Entry
unfolding first_part
second_part at d e = record e {
  start = add at d;
  duration_s = whole_seconds (sub (end_of e) at);
  offset_s = wrap64 (e.offset_s +ℤ (first_part at e).duration_s);
}

pub delayed : Duration → Entry → Entry
delayed d e = record e { start = add e.start d }

pub cut_step : Instant → Duration → Cut → Entry → Cut
unfolding first_part second_part delayed
cut_step at d c e =
    if not (after (end_of e) at)
    then c
    else if before e.start at
    then record c {
      from = e.start;
      entries = c.entries ++ first_part at e ∷ [];
      later = c.later ++ second_part at d e ∷ [];
    }
    else record c { later = c.later ++ delayed d e ∷ [] }

pub cut_loop : Instant → Duration → Cut → List Entry → Cut
cut_loop at d c [] = c
cut_loop at d c (e ∷ es) = cut_loop at d (cut_step at d c e) es

-- endOf of the last of some entries, of which there is one at least.
pub last_end : Entry → List Entry → Instant
last_end e [] = end_of e
last_end e (f ∷ es) = last_end f es

abbrev pub end_of_all : List Entry → Instant
end_of_all [] = 0
end_of_all (e ∷ es) = last_end e es

pub finish_cut : Entry → Cut → Edit
finish_cut ins c =
    let all = c.entries ++ ins ∷ c.later in
    record { from = c.from; to = end_of_all all; entries = all }

unfoldable pub insert_shift : List Entry → Instant → Entry → Result Edit
unfolding break_airs cut_loop cut_step finish_cut last_end
insert_shift existing at ins =
    if has_fraction at
    then err at_fraction
    else if not (ltb_ℤ (pos 0) ins.duration_s)
    then err no_duration
    else let d = seconds ins.duration_s in
      let placed = record ins { start = at } in
      if str_eq ins.type "ad_break" && break_airs at existing
      then err break_on_air
      else ok (
          finish_cut placed
            (cut_loop at d (record { from = at; entries = []; later = [] }) existing))

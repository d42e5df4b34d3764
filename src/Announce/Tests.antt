-- ===== src/Announce/Tests.antt =====
-- A window with a program, a break of two segments, and a slate.
use fast_tv_playout_core.Base.{◌≡◌, refl, some, List, [], ◌∷◌, String, pos, arith}
use fast_tv_playout_core.Clock.{Instant}
use fast_tv_playout_core.Announce.{
  Segment, Announcer, program_started, break_started, break_ended, slate_started, announce,
  announce_item, transition, goes_on, ended, started,
}
use fast_tv_playout_core.Announce.Ticks.{announce-announce, both_calls}
use fast_tv_playout_core.Announce.Brackets.{hear_all, stage, announce_heard}

abbrev shown : Instant → String → Instant → Segment
shown at kind brk = record {
  program_date_time = at;
  kind = kind;
  title = "";
  entry_start = 0;
  break_start = brk;
  break_dur_s = pos 2;
}

abbrev window : List Segment
window = shown 1 "content" 0 ∷ shown 2 "ad" 2 ∷ shown 3 "ad" 2 ∷ shown 4 "slate" 0 ∷ []

abbrev at_start : Announcer
at_start = record {
  announced_to = 0;
  on_air = record { kind = ""; title = ""; entry = 0; brk = 0 };
}

announce_heard_example :
    hear_all (stage at_start.on_air) (announce 3 window at_start).1
    ≡ some (stage (announce 3 window at_start).0.on_air)
announce_heard_example = announce_heard 3 window at_start

announce-announce_example : announce 4 window at_start ≡ both_calls 2 4 window at_start
announce-announce_example = announce-announce 2 4 window at_start (omega arith)

-- The events of the window, in order.
announced_window :
    (announce 4 window at_start).1
    ≡ program_started 1 "content" "" 0
      ∷ break_started 2 2 (pos 2)
      ∷ break_ended 4 2
      ∷ slate_started 4
      ∷ []
unfolding announce announce_item transition goes_on ended started
announced_window = refl

-- ===== src/Announce.antt =====
-- services/engine/events.go: what the engine tells its listeners when segments go on the air.
pub mod Brackets
pub mod Ticks
mod Tests
use fast_tv_playout_core.Base.{
  ◌≡◌, ◌==◌, Bool, not, ◌&&◌, ◌||◌, List, [], ◌∷◌, ◌++◌, String, str_eq, if◌then◌else◌, ℤ,
}
use fast_tv_playout_core.Clock.{Instant, after}

-- The fields of SegmentMeta that an announcement reads.
pub record Segment : Type 0 where
  pub program_date_time : Instant
  pub kind : String
  pub title : String
  pub entry_start : Instant
  pub break_start : Instant
  pub break_dur_s : ℤ

-- onAir: what the last announced segment was.
pub record OnAir : Type 0 where
  pub kind : String
  pub title : String
  pub entry : Instant
  pub brk : Instant

-- The events of a transition, each with its data.
pub data Notice : Type 0 where
  program_started : Instant → String → String → Instant → Notice
  break_started : Instant → Instant → ℤ → Notice
  break_ended : Instant → Instant → Notice
  slate_started : Instant → Notice
  slate_ended : Instant → Notice

abbrev pub same_program : OnAir → OnAir → Bool
same_program a b = str_eq a.kind b.kind && str_eq a.title b.title && a.entry == b.entry

abbrev pub on_air_of : Segment → OnAir
on_air_of it = record {
  kind = it.kind;
  title = it.title;
  entry = it.entry_start;
  brk = it.break_start;
}

-- The two ways in which transition returns at once: the same break, or the same program, goes on.
unfoldable pub goes_on : OnAir → OnAir → Bool
goes_on prev cur =
    if str_eq cur.kind "ad"
    then str_eq prev.kind "ad" && prev.brk == cur.brk
    else same_program cur prev

unfoldable pub ended : OnAir → OnAir → Instant → List Notice
ended prev cur at =
    (if str_eq prev.kind "ad" && (not (str_eq cur.kind "ad") || not (prev.brk == cur.brk))
      then break_ended at prev.brk ∷ []
      else [])
    ++ (if str_eq prev.kind "slate" && not (str_eq cur.kind "slate")
        then slate_ended at ∷ []
        else [])

unfoldable pub started : OnAir → OnAir → Instant → ℤ → List Notice
started prev cur at lasting =
    if str_eq cur.kind "ad"
    then break_started at cur.brk lasting ∷ []
    else if str_eq cur.kind "slate"
    then (if not (str_eq prev.kind "slate") then slate_started at ∷ [] else [])
    else program_started at cur.kind cur.title cur.entry ∷ []

-- transition: the new value of onAir, and the events in the order in which they are published.
unfoldable pub transition : OnAir → Segment → OnAir × List Notice
transition prev it =
    let cur = on_air_of it in
    if goes_on prev cur then (prev, []) else (
      cur,
      ended prev cur it.program_date_time ++ started prev cur it.program_date_time it.break_dur_s,
    )

-- The part of the engine that announce reads and writes.
pub record Announcer : Type 0 where
  pub announced_to : Instant
  pub on_air : OnAir

-- One item of the window that is not in the future.
unfoldable pub announce_item : Announcer → Segment → Announcer × List Notice
announce_item a it =
    if not (after it.program_date_time a.announced_to)
    then (a, [])
    else if str_eq it.kind ""
    then (record a { announced_to = it.program_date_time }, [])
    else (
      record { announced_to = it.program_date_time; on_air = (transition a.on_air it).0 },
      (transition a.on_air it).1,
    )

-- announce, over the items of the window.
unfoldable pub announce : Instant → List Segment → Announcer → Announcer × List Notice
announce now [] a = (a, [])
announce now (it ∷ items) a =
    let step = announce_item a it in
    let rest = announce now items step.0 in
    if after it.program_date_time now then (a, []) else (rest.0, step.1 ++ rest.1)

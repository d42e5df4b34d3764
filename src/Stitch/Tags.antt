-- ===== src/Stitch/Tags.antt =====
-- services/engine/stitch.go: the markers of ad breaks. Reading a message from its text is a parameter.
use fast_tv_playout_core.Base.{
  ℕ, suc, ◌-◌, ◌%◌, ◌^◌, ◌==◌, not, ◌&&◌, ◌||◌, Option, none, some, List, [], ◌∷◌, ◌++◌,
  if◌then◌else◌, String, str_eq, ℤ, pos, negsuc, is_nil,
}
use fast_tv_playout_core.Clock.{Instant, is_zero, unix}
use fast_tv_playout_core.Config.{Config}
use fast_tv_playout_core.Model.{ClipItem}
use fast_tv_playout_core.Scte35.{Answer, done, refused, Section, decode, out_message, in_message}
use fast_tv_playout_core.Stitch.{Tag, date_range_out, date_range_in, cue_out, cue_in, Stitcher}

-- uint32(n) and uint64(n), for the width w
abbrev pub unsigned : ℕ → ℤ → ℕ
unsigned w (pos n) = n % 2 ^ w
unsigned w (negsuc n) = (2 ^ w - suc n % 2 ^ w) % 2 ^ w

unfoldable pub event_id : Instant → ℕ
event_id start = unsigned 32 (unix start)

-- The bytes of a message that could be made.
abbrev pub bytes_or_none : Answer (List ℕ) → List ℕ
bytes_or_none (done b) = b
bytes_or_none (refused r) = []

abbrev pub valid_bytes : List ℕ → Answer Section → List ℕ
valid_bytes raw (done s) = raw
valid_bytes raw (refused r) = []

-- The message of the schedule, if it is one.
unfoldable pub given_payload : (String → Option (List ℕ)) → String → List ℕ
given_payload parse given =
    if str_eq given ""
    then []
    else elim (parse given) [ none ↦ [] | some raw ↦ valid_bytes raw (decode raw) ]

unfoldable pub start_payload : (String → Option (List ℕ)) → Instant → ℤ → String → List ℕ
unfolding given_payload
start_payload parse start secs given =
    let own = given_payload parse given in
    if is_nil own then bytes_or_none (out_message (event_id start) (unsigned 64 secs)) else own

unfoldable pub start_markers : (String → Option (List ℕ)) → String → Instant → ℤ → String → List Tag
unfolding start_payload
start_markers parse mode start secs given =
    (if str_eq mode "daterange" || str_eq mode "both"
      then date_range_out (event_id start) start secs (start_payload parse start secs given) ∷ []
      else [])
    ++ (if str_eq mode "cue" || str_eq mode "both" then cue_out secs ∷ [] else [])

unfoldable pub end_markers : String → Instant → ℤ → List Tag
end_markers mode start secs =
    (if str_eq mode "daterange" || str_eq mode "both"
      then date_range_in (event_id start) start secs (bytes_or_none (in_message (event_id start)))
        ∷ []
      else [])
    ++ (if str_eq mode "cue" || str_eq mode "both" then cue_in ∷ [] else [])

-- breakTags
unfoldable pub break_tags : (String → Option (List ℕ)) → Config → Stitcher → ClipItem → List Tag
unfolding start_markers end_markers
break_tags parse cfg s c =
    if str_eq cfg.scte35_tags "" || str_eq cfg.scte35_tags "off"
    then []
    else (if not (is_zero s.prev_avail) && not (s.prev_avail == c.break_start)
        then end_markers cfg.scte35_tags s.prev_avail s.prev_avail_dur
        else [])
      ++ (if not (is_zero c.break_start) && c.start_at == c.break_start
          then start_markers parse cfg.scte35_tags c.break_start c.break_dur_s c.scte35
          else [])

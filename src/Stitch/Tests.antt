-- ===== src/Stitch/Tests.antt =====
-- A break of two seconds between two programs, in a window of two segments.
use Prim.Native.Nat.{min}
use fast_tv_playout_core.Base.{
  ℕ, suc, ◌+◌, ◌*◌, ◌≡◌, refl, true, false, Option, none, List, [], ◌∷◌, ◌++◌, length,
  if◌then◌else◌, String, ℤ, pos, negsuc, inr, arith, ◌==◌,
}
use fast_tv_playout_core.Clock.{Instant, second}
use fast_tv_playout_core.Config.{Config}
use fast_tv_playout_core.Model.{ClipItem}
use fast_tv_playout_core.Stitch.{SegmentMeta, append, trim_items, trimmed, new_stitcher}
use fast_tv_playout_core.Stitch.Files.{all_names, cleanup, cleanup_loop, write_files, has_file}
use fast_tv_playout_core.Stitch.Tags.{break_tags}
use fast_tv_playout_core.Stitch.Add.{
  Prepare, Handed, add_clip, add_all, resolve, resolved, described, breaks_off, segment_of,
  write_and_place, place_segment, last_map,
}
use fast_tv_playout_core.Stitch.Served.{add_all-serves}
use fast_tv_playout_core.Stitch.Live.{IsLive, append_newest, discontinuities, new_stitcher-IsLive}

abbrev channel : Config
channel = record {
  segment_sec = 1;
  channel_id = "c1";
  variant_id = "v1";
  slate_uri = "slate.mp4";
  publish_ahead_s = pos 5;
  preload_window_s = pos 60;
  live_lead_s = pos 2;
  playlist_window_max = pos 2;
  retain_s = pos 30;
  scte35_tags = "daterange";
  source_timeout_ms = pos 1000;
}

abbrev no_message : String → Option (List ℕ)
no_message text = none

-- The names of three segments.
abbrev number_name : ℕ → String
number_name n = if n == 7 then "seg_7.m4s" else if n == 8 then "seg_8.m4s" else "seg_9.m4s"

abbrev seg_name : ℤ → String
seg_name (pos n) = number_name n
seg_name (negsuc n) = ""

abbrev clip : String → ℕ → Instant → ClipItem
clip kind at brk = record {
  seq = pos 7;
  uri = "a.m3u8";
  start_at = at * second;
  duration_s = pos 1;
  offset_s = pos at;
  discontinuity = false;
  type = kind;
  title = "";
  entry_start = 1000 * second;
  break_start = brk;
  break_dur_s = pos 2;
  scte35 = "";
}

abbrev segment_of_second : ℤ → SegmentMeta
segment_of_second at = record {
  seq = pos 0;
  duration = 0;
  program_date_time = 0;
  discontinuity = false;
  tags = [];
  avail_start = 0;
  avail_dur = pos 0;
  kind = "";
  title = "";
  entry_start = 0;
  break_start = 0;
  break_dur_s = pos 0;
  uri = record { variant = ""; name = "" };
  map_uri = record { variant = ""; name = "" };
  src = "a.m3u8";
  idx = at;
}

abbrev reads : Prepare
reads uri at loop now = inr (record {
  meta = segment_of_second at;
  seg = 1 ∷ [];
  init = 2 ∷ [];
  init_name = "init_a.mp4";
  slate = false;
})

abbrev handed : String → ℕ → Instant → Handed
handed kind at brk = record {
  clip = clip kind at brk;
  prepare = reads;
  disk = record { directory = true; init = true; segment = true };
}

abbrev first_two : List Handed
first_two = handed "content" 1000 0 ∷ handed "ad" 1001 (1001 * second) ∷ []

abbrev last_two : List Handed
last_two = handed "ad" 1002 (1001 * second) ∷ handed "content" 1003 0 ∷ []

abbrev all_four : List Handed
all_four = first_two ++ last_two

append_newest_example :
    let (w', removed) = append (new_stitcher channel []).win (segment_of_second (pos 5)) in
    (removed ++ w'.items ≡ (new_stitcher channel []).win.items ++ (segment_of_second (pos 5) ∷ []))
    × (length w'.items
        ≡ min
            (new_stitcher channel []).win.max_size
            (suc (length (new_stitcher channel []).win.items)))
    × (w'.disc_seq ≡ (new_stitcher channel []).win.disc_seq + discontinuities removed)
append_newest_example = append_newest (new_stitcher channel []).win (segment_of_second (pos 5))

new_stitcher-IsLive_example :
    IsLive channel (add_all no_message seg_name channel (new_stitcher channel []) all_four)
new_stitcher-IsLive_example =
    new_stitcher-IsLive no_message seg_name channel [] all_four
      (omega arith, (omega arith, (omega arith, (omega arith, tt))))

after_two :
    has_file "seg_7.m4s" (
      all_names (add_all no_message seg_name channel (new_stitcher channel []) first_two).win.items)
    ≡ true
unfolding add_all add_clip resolve resolved write_and_place write_files segment_of described
    break_tags breaks_off place_segment last_map append trimmed trim_items cleanup cleanup_loop
    has_file all_names new_stitcher
after_two = refl

at_two :
    (add_all no_message seg_name channel (new_stitcher channel []) first_two).last_start
    ≡ 1001 * second
unfolding add_all add_clip resolve resolved write_and_place write_files segment_of described
    break_tags breaks_off place_segment last_map append trimmed trim_items cleanup cleanup_loop
    has_file all_names new_stitcher
at_two = refl

add_all-serves_example :
    has_file "seg_7.m4s"
      (add_all no_message seg_name channel
        (add_all no_message seg_name channel (new_stitcher channel []) first_two)
        last_two).files
    ≡ true
add_all-serves_example =
    add_all-serves no_message seg_name channel 30 [] first_two last_two "seg_7.m4s" refl
      (omega arith) after_two (omega (arith, at_two), (omega (arith, at_two), tt))

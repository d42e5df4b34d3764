-- ===== src/Stitch/Add.antt =====
-- services/engine/stitch.go: a clip becomes the next segment of the window. The resolver is an argument.
use fast_tv_playout_core.Base.{
  ℕ, suc, ◌==◌, Bool, true, false, not, ◌&&◌, ◌||◌, Option, none, some, List, [], ◌∷◌, ltb,
  if◌then◌else◌, is_nil, String, str_eq, ℤ, pos, negsuc, ltb_ℤ, wrap64, ◌+ℤ◌, ◌⊎◌, inl, inr,
}
use Prim.Native.String.{◌++◌ as ◌<>◌}
use fast_tv_playout_core.Clock.{Instant, Duration, is_zero, after, add, seconds, sub, unix}
use fast_tv_playout_core.Config.{Config}
use fast_tv_playout_core.Model.{ClipItem}
use fast_tv_playout_core.Failures.{SourceFailure}
use fast_tv_playout_core.Stitch.{SegmentMeta, Retimed, append, Stitcher}
use fast_tv_playout_core.Stitch.Tags.{break_tags}
use fast_tv_playout_core.Stitch.Files.{Disk, write_files, cleanup}

-- prepare of the resolver, by the source, the offset, whether it is played in a loop, and the moment: the reason of a
-- failure, or a segment.
abbrev pub Prepare : Type 0
Prepare = String → ℤ → Bool → Instant → String ⊎ Retimed

-- What resolve gives: the calls of onFail, and the segment if there is one.
pub record Resolved : Type 0 where
  pub failures : List SourceFailure
  pub found : Option Retimed

abbrev pub failure : String → String → ClipItem → SourceFailure
failure reason uri c = record { reason = reason; uri = uri; start_at = c.start_at }

-- The slate in place of a clip.
unfoldable pub fall_back : Config → ClipItem → String → String ⊎ Retimed → Resolved
fall_back cfg c reason (inl reason2) = record {
  failures = failure reason c.uri c ∷ failure ("slate_" <> reason2) cfg.slate_uri c ∷ [];
  found = none;
}
fall_back cfg c reason (inr rt) = record {
  failures = failure reason c.uri c ∷ [];
  found = some (record rt { slate = true });
}

unfoldable pub resolved : Prepare → Config → ClipItem → String ⊎ Retimed → Resolved
unfolding fall_back
resolved prepare cfg c (inr rt) = record { failures = []; found = some rt }
resolved prepare cfg c (inl reason) =
    if str_eq c.type "slate" || str_eq cfg.slate_uri "" || str_eq c.uri cfg.slate_uri
    then record { failures = failure reason c.uri c ∷ []; found = none }
    else fall_back cfg c reason (prepare cfg.slate_uri (unix c.start_at) true c.start_at)

-- resolve
unfoldable pub resolve : Prepare → Config → ClipItem → Resolved
unfolding resolved
resolve prepare cfg c =
    resolved prepare cfg c (prepare c.uri c.offset_s (str_eq c.type "slate") c.start_at)

-- What is told of a segment before it is placed: from the clip, or of the slate that airs in its place.
unfoldable pub described : ClipItem → Retimed → SegmentMeta
described c rt =
    if rt.slate
    then record rt.meta {
      kind = "slate";
      title = "slate";
      entry_start = 0;
      break_start = 0;
      break_dur_s = pos 0;
      avail_start = c.break_start;
      avail_dur = c.break_dur_s;
    }
    else record rt.meta {
      kind = c.type;
      title = c.title;
      entry_start = c.entry_start;
      break_start = c.break_start;
      break_dur_s = c.break_dur_s;
      avail_start = c.break_start;
      avail_dur = c.break_dur_s;
    }

-- d.Abs() > 500*time.Millisecond
abbrev pub is_hole : Duration → Bool
is_hole (pos n) = ltb 500000000 n
is_hole (negsuc n) = ltb 500000000 (suc n)

-- Whether a segment is a discontinuity.
unfoldable pub breaks_off : Stitcher → ClipItem → SegmentMeta → Bool
breaks_off s c m =
    let jump =
      (if is_nil s.win.items
        then false
        else if str_eq s.prev_src ""
        then true
        else not (str_eq m.src s.prev_src)
          || ltb_ℤ m.idx (wrap64 (s.prev_idx +ℤ pos 1))
          || ltb_ℤ (wrap64 (s.prev_idx +ℤ pos 1)) m.idx
          || c.discontinuity) in
    jump || not (is_zero s.prev_end) && is_hole (sub c.start_at s.prev_end)

abbrev pub is_zero_ℤ : ℤ → Bool
is_zero_ℤ (pos n) = n == 0
is_zero_ℤ (negsuc n) = false

abbrev pub number_for : Stitcher → ClipItem → ℤ
number_for s c = if is_zero_ℤ s.next_seq then c.seq else s.next_seq

unfoldable pub last_map : String → List SegmentMeta → String
last_map n [] = n
last_map n (it ∷ items) = last_map it.map_uri.name items

abbrev pub changes_init : List SegmentMeta → String → Bool
changes_init [] init_name = false
changes_init (it ∷ items) init_name = not (str_eq (last_map it.map_uri.name items) init_name)

-- The rest of add, when the files are written.
unfoldable pub place_segment : Config → ClipItem → SegmentMeta → String → Stitcher → Stitcher
unfolding last_map
place_segment cfg c m init_name s =
    let w = append s.win m in
    record (cleanup cfg w.1 c.start_at (record s { win = w.0 })) {
      init_changes =
          if changes_init s.win.items init_name then suc s.init_changes else s.init_changes;
      next_seq = wrap64 (m.seq +ℤ pos 1);
      last_start = c.start_at;
      prev_avail = m.avail_start;
      prev_avail_dur = m.avail_dur;
      prev_src = m.src;
      prev_idx = m.idx;
      prev_end = add c.start_at (seconds c.duration_s);
    }

-- A clip with what the resolver and the file system answer to it.
pub record Handed : Type 0 where
  pub clip : ClipItem
  pub prepare : Prepare
  pub disk : Disk

-- Parameters: reading a message from text, and fmt.Sprintf("seg_%d.m4s").
module _ (parse : String → Option (List ℕ)) (seg_name : ℤ → String) where
  -- The segment of a clip as it stands in the window.
  unfoldable pub segment_of : Config → Stitcher → ClipItem → Retimed → SegmentMeta
  segment_of cfg s c rt =
      let m = described c rt in
      record m {
        tags = break_tags parse cfg s c;
        discontinuity = breaks_off s c m;
        program_date_time = c.start_at;
        seq = number_for s c;
        uri = record { variant = cfg.variant_id; name = seg_name (number_for s c) };
        map_uri = record { variant = cfg.variant_id; name = rt.init_name };
      }

  unfoldable pub write_and_place :
      Config → Disk → Stitcher → ClipItem → Option Retimed → Bool × Stitcher
  write_and_place cfg disk s c none = (false, s)
  write_and_place cfg disk s c (some rt) =
      let m = segment_of cfg s c rt in
      let w = write_files disk m.uri.name rt.init_name s.files in
      let written : Stitcher = record s { files = w.1 } in
      if w.0 then (true, place_segment cfg c m rt.init_name written) else (false, written)

  -- add: whether the clip was added, the failures that were told, and the stitcher.
  unfoldable pub add_clip :
      Prepare → Config → Disk → Stitcher → ClipItem → Bool × List SourceFailure × Stitcher
  unfolding write_and_place
  add_clip prepare cfg disk s c =
      if not (is_zero s.last_start) && not (after c.start_at s.last_start)
      then (false, [], s)
      else let r = resolve prepare cfg c in
        let w = write_and_place cfg disk s c r.found in (w.0, r.failures, w.1)

  -- Clips that are handed over one after the other.
  unfoldable pub add_all : Config → Stitcher → List Handed → Stitcher
  unfolding add_clip
  add_all cfg s [] = s
  add_all cfg s (h ∷ hs) = add_all cfg (add_clip h.prepare cfg h.disk s h.clip).2 hs

-- ===== src/Source/Prepared.antt =====
-- services/engine/stitch.go: lookup and prepare, from a clip to a segment of its source. The downloads and the tests in
-- floating-point numbers are arguments; a number of type float64 is its 64 bits.
use fast_tv_playout_core.Base.{
  ℕ, suc, ◌-◌, ◌%◌, ◌<◌, Bool, false, Option, none, some, List, [], if◌then◌else◌, length,
  get_elem?, String, str_eq, ℤ, pos, negsuc, quot, wrap64, ◌-ℤ◌, ◌*ℤ◌, ◌⊎◌, inl, inr, arith,
}
use fast_tv_playout_core.Clock.{Instant, unix}
use fast_tv_playout_core.Config.{Config}
use fast_tv_playout_core.Fmp4.{Damage, off_grid}
use fast_tv_playout_core.Fmp4.Init.{Tracks}
use fast_tv_playout_core.Fmp4.Segment.{retime}
use fast_tv_playout_core.Stitch.{SegmentMeta, Retimed}
use fast_tv_playout_core.Stitch.Add.{Prepare}
use fast_tv_playout_core.Hls.{HlsPlaylist}

-- The index modulo a length above zero, for an index of any sign.
unfoldable pub turned_index : ℤ → ℕ → ℕ
turned_index (pos i) n = i % n
turned_index (negsuc i) n = (n - suc i % n) % n

abbrev pub index_of : Bool → ℤ → ℕ → ℤ
index_of loop idx n = if loop then pos (turned_index idx n) else idx

-- What lookup gives: the segment, its place in the source, and the init section.
pub record FoundSegment : Type 0 where
  pub uri : String
  pub duration : ℕ
  pub map_uri : String
  pub idx : ℤ

unfoldable pub found_at : (ℕ → Bool) → HlsPlaylist → ℤ → String ⊎ FoundSegment
found_at is_long pl (negsuc i) = inl "offset"
found_at is_long pl (pos i) = elim (get_elem? pl.segments i) [
  | none ↦ inl "offset"
  | some seg ↦
      if is_long seg.duration
      then inl "duration"
      else inr
          (record { uri = seg.uri; duration = seg.duration; map_uri = pl.map_uri; idx = pos i })
]

-- lookup, with the answer of playlist. The parameter tells a duration that is off.
unfoldable pub lookup_segment :
    (ℕ → Bool) → ℕ → Option HlsPlaylist → ℤ → Bool → String ⊎ FoundSegment
unfolding found_at turned_index
lookup_segment is_long seg_sec none offset_s loop = inl "fetch"
lookup_segment is_long seg_sec (some pl) offset_s loop =
    found_at is_long pl (index_of loop (quot offset_s seg_sec) (length pl.segments))

-- initEntry
pub record InitEntry : Type 0 where
  pub bytes : List ℕ
  pub parsed : Tracks
  pub name : String

-- timelineEpoch
abbrev pub timeline_epoch : ℤ
timeline_epoch = pos 1577836800

unfoldable pub reason_of : Damage → String
reason_of d = elim d [ off_grid ↦ "timeline" | _ ↦ "retime" ]

-- What lookup puts into the segment; its paths are those of the source, and add replaces them.
abbrev pub meta_of : String → FoundSegment → SegmentMeta
meta_of uri f = record {
  seq = pos 0;
  duration = f.duration;
  program_date_time = 0;
  discontinuity = false;
  tags = [];
  avail_start = 0;
  avail_dur = pos 0;
  kind = "";
  title = "";
  entry_start = 0;
  break_start = 0;
  break_dur_s = pos 0;
  uri = record { variant = ""; name = f.uri };
  map_uri = record { variant = ""; name = f.map_uri };
  src = uri;
  idx = f.idx;
}

unfoldable pub retimed_of : String → FoundSegment → InitEntry → Damage ⊎ List ℕ → String ⊎ Retimed
unfolding reason_of
retimed_of uri f i (inl d) = inl (reason_of d)
retimed_of uri f i (inr out) =
    inr (record {
      meta = meta_of uri f;
      seg = out;
      init = i.bytes;
      init_name = i.name;
      slate = false;
    })

-- Parameters: the test of Retime, that of lookup, and what playlist, initSection and getCached answer.
module _ (is_off : ℤ → ℕ → Bool) (is_long : ℕ → Bool) (playlist : String → Option HlsPlaylist)
    (init_section : String → Option InitEntry) (get_cached : String → Option (List ℕ)) where
  unfoldable pub with_bytes :
      Config
      → String
      → Instant
      → FoundSegment
      → Option InitEntry
      → Option (List ℕ)
      → String ⊎ Retimed
  unfolding retimed_of
  with_bytes cfg uri start_at f none raw = inl "fetch"
  with_bytes cfg uri start_at f (some i) none = inl "fetch"
  with_bytes cfg uri start_at f (some i) (some raw) = retimed_of uri f i (
      retime is_off raw i.parsed (wrap64 (unix start_at -ℤ timeline_epoch))
        (wrap64 (f.idx *ℤ pos cfg.segment_sec)))

  unfoldable pub with_found : Config → String → Instant → String ⊎ FoundSegment → String ⊎ Retimed
  unfolding with_bytes
  with_found cfg uri start_at (inl reason) = inl reason
  with_found cfg uri start_at (inr f) =
      if str_eq f.map_uri ""
      then inl "format"
      else with_bytes cfg uri start_at f (init_section f.map_uri) (get_cached f.uri)

  -- prepare
  unfoldable pub prepare_segment : Config → Prepare
  unfolding lookup_segment with_found
  prepare_segment cfg uri offset_s loop start_at =
      with_found cfg uri start_at
        (lookup_segment is_long cfg.segment_sec (playlist uri) offset_s loop)

-- The index of a source that is played in a loop is one of its segments.
turned_index-within : (z : ℤ) (n : ℕ) → 0 < n → turned_index z n < n
unfolding turned_index
turned_index-within (pos i) n h = omega (arith, h)
turned_index-within (negsuc i) n h = omega (arith, h)

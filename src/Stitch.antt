-- ===== src/Stitch.antt =====
-- services/engine/stitch.go: the live window of the stitcher and what it keeps between clips.
pub mod Tags
pub mod Files
pub mod Add
pub mod Retain
pub mod Served
pub mod Live
pub mod Brackets
mod Tests
use fast_tv_playout_core.Base.{
  ℕ, zero, suc, ◌+◌, Bool, true, false, List, [], ◌∷◌, ◌++◌, ltb, if◌then◌else◌, length, String, ℤ,
  pos, wrap64, ◌+ℤ◌, pos_part,
}
use fast_tv_playout_core.Clock.{Instant}
use fast_tv_playout_core.Config.{Config}

-- A line before a segment that marks an ad break; its text is not modelled. The identifier is that of the event, and a
-- message is its bytes, none where there is no message.
pub data Tag : Type 0 where
  date_range_out : ℕ → Instant → ℤ → List ℕ → Tag
  date_range_in : ℕ → Instant → ℤ → List ℕ → Tag
  cue_out : ℤ → Tag
  cue_in : Tag

-- A path relative to the playlist: the directory of the variant and the name of a file in it.
pub record FilePath : Type 0 where
  pub variant : String
  pub name : String

-- SegmentMeta. A number of type float64 is its 64 bits; an empty name is no path.
pub record SegmentMeta : Type 0 where
  pub seq : ℤ
  pub duration : ℕ
  pub program_date_time : Instant
  pub discontinuity : Bool
  pub tags : List Tag
  pub avail_start : Instant
  pub avail_dur : ℤ
  pub kind : String
  pub title : String
  pub entry_start : Instant
  pub break_start : Instant
  pub break_dur_s : ℤ
  pub uri : FilePath
  pub map_uri : FilePath
  pub src : String
  pub idx : ℤ

-- retimed
pub record Retimed : Type 0 where
  pub meta : SegmentMeta
  pub seg : List ℕ
  pub init : List ℕ
  pub init_name : String
  pub slate : Bool

-- Window; MaxSize is not negative.
pub record Window : Type 0 where
  pub items : List SegmentMeta
  pub max_size : ℕ
  pub disc_seq : ℕ

-- The loop of append on the items: those that stay, those that leave and the counter.
pub record Trimmed : Type 0 where
  pub kept : List SegmentMeta
  pub removed : List SegmentMeta
  pub disc_seq : ℕ

unfoldable pub trim_items : ℕ → List SegmentMeta → ℕ → Trimmed
trim_items max_size [] disc_seq = record { kept = []; removed = []; disc_seq = disc_seq }
trim_items max_size (it ∷ items) disc_seq =
    let rest = trim_items max_size items (if it.discontinuity then suc disc_seq else disc_seq) in
    if ltb max_size (length (it ∷ items))
    then record rest { removed = it ∷ rest.removed }
    else record { kept = it ∷ items; removed = []; disc_seq = disc_seq }

unfoldable pub trimmed : Window → SegmentMeta → Trimmed
unfolding trim_items
trimmed w m = trim_items w.max_size (w.items ++ (m ∷ [])) w.disc_seq

-- Window.append: the window, and the segments that left it.
unfoldable pub append : Window → SegmentMeta → Window × List SegmentMeta
unfolding trimmed
append w m = let t = trimmed w m in (record w { items = t.kept; disc_seq = t.disc_seq }, t.removed)

-- retiredFiles
pub record RetiredFiles : Type 0 where
  pub names : List String
  pub at : Instant

-- stitcher, without the resolver and onFail; `files` are the names in its directory.
pub record Stitcher : Type 0 where
  pub win : Window
  pub next_seq : ℤ
  pub last_start : Instant
  pub prev_src : String
  pub prev_idx : ℤ
  pub prev_end : Instant
  pub init_changes : ℕ
  pub prev_avail : Instant
  pub prev_avail_dur : ℤ
  pub retired : List RetiredFiles
  pub files : List String

-- newStitcher, on a directory with some files
pub new_stitcher : Config → List String → Stitcher
new_stitcher cfg files = record {
  win = record { items = []; max_size = pos_part cfg.playlist_window_max; disc_seq = 0 };
  next_seq = pos 0;
  last_start = 0;
  prev_src = "";
  prev_idx = pos 0;
  prev_end = 0;
  init_changes = 0;
  prev_avail = 0;
  prev_avail_dur = pos 0;
  retired = [];
  files = files;
}

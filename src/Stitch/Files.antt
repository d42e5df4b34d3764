-- ===== src/Stitch/Files.antt =====
-- services/engine/stitch.go: the files of the window. What the file system answers is an argument; removing a file
-- succeeds.
use fast_tv_playout_core.Base.{
  Bool, true, false, not, ◌&&◌, ◌||◌, List, [], ◌∷◌, ◌++◌, if◌then◌else◌, is_nil, String, str_eq,
  ltb_ℤ,
}
use fast_tv_playout_core.Clock.{Instant, Duration, seconds, sub}
use fast_tv_playout_core.Config.{Config}
use fast_tv_playout_core.Stitch.{SegmentMeta, RetiredFiles, Stitcher}

-- Whether a name is among some names.
unfoldable pub has_file : String → List String → Bool
has_file n [] = false
has_file n (x ∷ xs) = str_eq x n || has_file n xs

-- The answers of the file system: the directory could be made, and each of the two files could be written.
pub record Disk : Type 0 where
  pub directory : Bool
  pub init : Bool
  pub segment : Bool

abbrev pub with_file : String → List String → List String
with_file n files = if has_file n files then files else n ∷ files

-- writeFiles: whether it succeeds, and the files that are there then.
unfoldable pub write_files : Disk → String → String → List String → Bool × List String
write_files disk seg_name init_name files =
    if not disk.directory
    then (false, files)
    else if not (has_file init_name files) && not disk.init
    then (false, files)
    else if not disk.segment
    then (false, with_file init_name files)
    else (true, with_file seg_name (with_file init_name files))

-- os.Remove
unfoldable pub remove_file : String → List String → List String
remove_file n [] = []
remove_file n (x ∷ xs) = let rest = remove_file n xs in if str_eq x n then rest else x ∷ rest

-- The names of the files of a segment.
abbrev pub names_of : SegmentMeta → List String
names_of it =
    if str_eq it.map_uri.name "" then it.uri.name ∷ [] else it.uri.name ∷ it.map_uri.name ∷ []

unfoldable pub all_names : List SegmentMeta → List String
all_names [] = []
all_names (it ∷ items) = names_of it ++ all_names items

-- The names that inUse holds of the window; a segment without an init section gives the name of an empty path.
unfoldable pub window_names : List SegmentMeta → List String
window_names [] = []
window_names (it ∷ items) = it.uri.name ∷ it.map_uri.name ∷ window_names items

unfoldable pub retired_names : List RetiredFiles → List String
retired_names [] = []
retired_names (r ∷ rs) = r.names ++ retired_names rs

-- Remove the names that are not in use.
unfoldable pub remove_unused : List String → List String → List String → List String
unfolding remove_file
remove_unused in_use [] files = files
remove_unused in_use (n ∷ names) files =
    remove_unused in_use names (if has_file n in_use then files else remove_file n files)

-- deleteRetired, for the first retirement and those behind it
unfoldable pub delete_retired :
    List SegmentMeta → RetiredFiles → List RetiredFiles → List String → List String
unfolding window_names retired_names remove_unused
delete_retired items r others files =
    remove_unused (window_names items ++ retired_names others) r.names files

-- The loop of cleanup: the retirements that stay, and the files.
unfoldable pub cleanup_loop :
    Duration
    → Instant
    → List SegmentMeta
    → List RetiredFiles
    → List String
    → List RetiredFiles × List String
unfolding delete_retired
cleanup_loop keep now items [] files = ([], files)
cleanup_loop keep now items (r ∷ rs) files =
    let rest = cleanup_loop keep now items rs (delete_retired items r rs files) in
    if not (ltb_ℤ (sub now r.at) keep) then rest else (r ∷ rs, files)

abbrev pub retire : List SegmentMeta → Instant → List RetiredFiles → List RetiredFiles
retire removed now retired =
    if is_nil removed
    then retired
    else retired ++ (record { names = all_names removed; at = now } ∷ [])

-- cleanup
unfoldable pub cleanup : Config → List SegmentMeta → Instant → Stitcher → Stitcher
unfolding all_names cleanup_loop
cleanup cfg removed now s =
    let r =
      cleanup_loop (seconds cfg.retain_s) now s.win.items (retire removed now s.retired) s.files in
    record s { retired = r.0; files = r.1 }

-- removeOrphans, over a directory without directories in it. The parameter tells the names that begin with "seg_" or
-- "init_".
unfoldable pub remove_orphans : (String → Bool) → List SegmentMeta → List String → List String
unfolding window_names
remove_orphans is_ours items [] = []
remove_orphans is_ours items (n ∷ names) =
    let rest = remove_orphans is_ours items names in
    if has_file n (window_names items) || not (is_ours n) then n ∷ rest else rest

-- ===== src/Source/Blobs.antt =====
-- services/engine/stitch.go: storeBlob, the downloaded files that are kept. The map is a list in which the first pair
-- with a key counts; where several files are equally old, the first one goes.
use fast_tv_playout_core.Base.{
  ℕ, zero, suc, ◌+◌, ◌-◌, ◌*◌, ◌^◌, not, ◌&&◌, Option, none, some, List, [], ◌∷◌, if◌then◌else◌,
  length, ltb, String, str_eq,
}
use fast_tv_playout_core.Clock.{Instant, second, before}

-- blob
pub record Blob : Type 0 where
  pub bytes : List ℕ
  pub at : Instant

abbrev pub BlobMap : Type 0
BlobMap = List (String × Blob)

-- The fields segs and segBytes of resolver.
pub record Blobs : Type 0 where
  pub segs : BlobMap
  pub seg_bytes : ℕ

-- maxSegCacheBytes
unfoldable pub max_cache_bytes : ℕ
max_cache_bytes = 64 * 2 ^ 20

unfoldable pub find_blob : String → BlobMap → Option Blob
find_blob src [] = none
find_blob src ((k, v) ∷ m) = if str_eq k src then some v else find_blob src m

unfoldable pub put_blob : String → Blob → BlobMap → BlobMap
put_blob src b [] = (src, b) ∷ []
put_blob src b ((k, v) ∷ m) =
    let rest = put_blob src b m in if str_eq k src then (k, b) ∷ m else (k, v) ∷ rest

unfoldable pub drop_blob : String → BlobMap → BlobMap
drop_blob src [] = []
drop_blob src ((k, v) ∷ m) = let rest = drop_blob src m in if str_eq k src then m else (k, v) ∷ rest

abbrev pub size_of : Option Blob → ℕ
size_of none = 0
size_of (some b) = length b.bytes

-- The loop for the oldest file but that of a source: its key, empty if there is none.
unfoldable pub oldest_of : String → BlobMap → String → Instant → String
oldest_of src [] oldest oldest_at = oldest
oldest_of src ((k, v) ∷ m) oldest oldest_at =
    let older = not (str_eq k src) && before v.at oldest_at in
    oldest_of src m (if older then k else oldest) (if older then v.at else oldest_at)

-- The loop that makes room, on fuel.
unfoldable pub make_room : ℕ → Instant → String → Blobs → Blobs
unfolding oldest_of drop_blob find_blob
make_room zero now src b = b
make_room (suc fuel) now src b =
    let oldest = oldest_of src b.segs "" (now + 3600 * second) in
    let smaller = make_room fuel now src (record {
      segs = drop_blob oldest b.segs;
      seg_bytes = b.seg_bytes - size_of (find_blob oldest b.segs);
    }) in
    if ltb max_cache_bytes b.seg_bytes && ltb 1 (length b.segs) && not (str_eq oldest "")
    then smaller
    else b

-- storeBlob
unfoldable pub store_blob : Instant → String → List ℕ → Blobs → Blobs
unfolding make_room put_blob
store_blob now src bytes b =
    let segs = put_blob src (record { bytes = bytes; at = now }) b.segs in
    make_room (length segs) now src (record {
      segs = segs;
      seg_bytes = b.seg_bytes - size_of (find_blob src b.segs) + length bytes;
    })

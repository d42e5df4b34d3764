-- ===== src/Source/Tests.antt =====
-- A file that is kept, and one that comes later.
use mathlib.Core.Bool.{false≢true}
use fast_tv_playout_core.Base.{◌≡◌, ◌≤◌, ◌⊎◌, refl, some, [], ◌∷◌, All, eq_iff, arith}
use fast_tv_playout_core.Source.Blobs.{Blobs, max_cache_bytes, find_blob, store_blob}
use fast_tv_playout_core.Source.Bounded.{IsKeeping, bytes_of, store_blob-IsKeeping}

abbrev first_file : Blobs
first_file = record { segs = ("a.m4s", record { bytes = 1 ∷ 2 ∷ []; at = 5 }) ∷ []; seg_bytes = 2 }

first_file-IsKeeping : IsKeeping 5 first_file
unfolding bytes_of
first_file-IsKeeping = record {
  counted = refl;
  dated = ((λ e. false≢true ((eq_iff "a.m4s" "").1 e), omega arith), tt);
}

store_blob-IsKeeping_example :
    let b' = store_blob 7 "b.m4s" (3 ∷ []) first_file in
    IsKeeping 7 b'
    × (find_blob "b.m4s" b'.segs ≡ some (record { bytes = 3 ∷ []; at = 7 }))
    × ((b'.seg_bytes ≤ max_cache_bytes) ⊎ All (λ p. p.0 ≡ "b.m4s") b'.segs)
store_blob-IsKeeping_example =
    store_blob-IsKeeping 5 7 "b.m4s" (3 ∷ []) first_file first_file-IsKeeping (omega arith)
      (λ e. false≢true ((eq_iff "b.m4s" "").1 e))

-- ===== src/Source/Bounded.antt =====
-- services/engine/stitch.go: the files that are kept stay below their bound.
use mathlib.Core.Option.{none-ne-some}
use mathlib.Core.Bool.{false≢true}
use fast_tv_playout_core.Base.{
  ℕ, zero, suc, ◌+◌, ◌-◌, ◌*◌, ◌≤◌, ◌<◌, ◌≡◌, ◌≢◌, refl, sym, ap, subst, ◌∙◌, true, false, not,
  ◌&&◌, Bool-cases, inl, inr, ◌⊎◌, Option, none, some, List, [], ◌∷◌, if◌then◌else◌, length, ltb,
  String, str_eq, eq_iff, All, arith,
}
use fast_tv_playout_core.Clock.{Instant, second, before}
use fast_tv_playout_core.Source.Blobs.{
  Blob, BlobMap, Blobs, max_cache_bytes, find_blob, put_blob, drop_blob, size_of, oldest_of,
  make_room, store_blob,
}

unfoldable pub bytes_of : BlobMap → ℕ
bytes_of [] = 0
bytes_of ((k, v) ∷ m) = length v.bytes + bytes_of m

-- Files with a name, stored up to some moment.
abbrev pub IsDated : Instant → (String × Blob) → Type 0
IsDated now p = (p.0 ≢ "") × (p.1.at ≤ now)

-- What holds of the files that are kept.
pub record IsKeeping (now : Instant) (b : Blobs) : Type 0 where
  pub counted : b.seg_bytes ≡ bytes_of b.segs
  pub dated : All (IsDated now) b.segs

bytes_of-put :
    (src : String) (b : Blob) (m : BlobMap)
    → bytes_of (put_blob src b m) + size_of (find_blob src m) ≡ bytes_of m + length b.bytes
unfolding bytes_of put_blob find_blob
bytes_of-put src b [] = omega arith
bytes_of-put src b ((k, v) ∷ m) = elim (Bool-cases (str_eq k src)) [
  | inl e ↦ rw e (omega arith)
  | inr e ↦ rw e (omega (arith, bytes_of-put src b m))
]

bytes_of-drop :
    (src : String) (m : BlobMap)
    → bytes_of (drop_blob src m) + size_of (find_blob src m) ≡ bytes_of m
unfolding bytes_of drop_blob find_blob
bytes_of-drop src [] = omega arith
bytes_of-drop src ((k, v) ∷ m) = elim (Bool-cases (str_eq k src)) [
  | inl e ↦ rw e (omega arith)
  | inr e ↦ rw e (omega (arith, bytes_of-drop src m))
]

length-drop_blob :
    (src : String) (m : BlobMap) (v : Blob)
    → find_blob src m ≡ some v
    → suc (length (drop_blob src m)) ≡ length m
unfolding drop_blob find_blob
length-drop_blob src [] v h = absurd (none-ne-some v h)
length-drop_blob src ((k, w) ∷ m) v h = elim (Bool-cases (str_eq k src)) [
  | inl e ↦ rw e refl
  | inr e ↦ rw e (
      ap suc
        (length-drop_blob src m v (sym (ap (λ c. if c then some w else find_blob src m) e) ∙ h)))
]

All-put :
    (P : String × Blob → Type 0) (src : String) (b : Blob) (m : BlobMap)
    → P (src, b)
    → All P m
    → All P (put_blob src b m)
unfolding put_blob
All-put P src b [] h a = (h, tt)
All-put P src b ((k, v) ∷ m) h a = elim (Bool-cases (str_eq k src)) [
  | inl e ↦ rw e (subst (λ x. P (x, b)) (sym ((eq_iff k src).0 e)) h, a.1)
  | inr e ↦ rw e (a.0, All-put P src b m h a.1)
]

All-drop_blob :
    (P : String × Blob → Type 0) (src : String) (m : BlobMap) → All P m → All P (drop_blob src m)
unfolding drop_blob
All-drop_blob P src [] a = tt
All-drop_blob P src ((k, v) ∷ m) a = elim (Bool-cases (str_eq k src)) [
  | inl e ↦ rw e a.1
  | inr e ↦ rw e (a.0, All-drop_blob P src m a.1)
]

find_blob-put : (src : String) (b : Blob) (m : BlobMap) → find_blob src (put_blob src b m) ≡ some b
unfolding find_blob put_blob
find_blob-put src b [] = rw ((eq_iff src src).1 refl) refl
find_blob-put src b ((k, v) ∷ m) = elim (Bool-cases (str_eq k src)) [
  | inl e ↦ rw (e, e) refl
  | inr e ↦ rw (e, e) (find_blob-put src b m)
]

find_blob-drop :
    (src k : String) (m : BlobMap) → k ≢ src → find_blob src (drop_blob k m) ≡ find_blob src m
unfolding find_blob drop_blob
find_blob-drop src k [] h = refl
find_blob-drop src k ((x, v) ∷ m) h = elim (Bool-cases (str_eq x k)) [
  | inl e ↦ rw e (sym (ap (λ c. if c then some v else find_blob src m) (other ((eq_iff x k).0 e))))
  | inr e ↦ rw e (ap (λ o. if str_eq x src then some v else o) (find_blob-drop src k m h))
]
  where
    other : x ≡ k → str_eq x src ≡ false
    other q = elim (Bool-cases (str_eq x src)) [
      | inr n ↦ n
      | inl y ↦ absurd (h (sym q ∙ (eq_iff x src).0 y))
    ]

-- What the search for the oldest file gives: what it began with, or the key of a file of another source.
oldest_of-cases :
    (src : String) (m : BlobMap) (oldest : String) (at : Instant)
    → (oldest_of src m oldest at ≡ oldest)
      ⊎ ((v : Blob) × (find_blob (oldest_of src m oldest at) m ≡ some v)
          × (oldest_of src m oldest at ≢ src))
oldest_of-cases src [] oldest at = inl (unfold oldest_of in refl)
oldest_of-cases src ((k, v) ∷ m) oldest at =
    elim (Bool-cases (not (str_eq k src) && before v.at at)) [
      | inl e ↦ elim (oldest_of-cases src m k v.at) [
        | inl same ↦ inr (newly e same)
        | inr found ↦ inr (behind k v.at (unfold oldest_of in rw e refl) found)
      ]
      | inr e ↦ elim (oldest_of-cases src m oldest at) [
        | inl same ↦ inl (unfold oldest_of in rw e same)
        | inr found ↦ inr (behind oldest at (unfold oldest_of in rw e refl) found)
      ]
    ]
  where
    Found : String → Type 0
    Found o = (w : Blob) × (find_blob o ((k, v) ∷ m) ≡ some w) × (o ≢ src)

    newly :
        (not (str_eq k src) && before v.at at) ≡ true
        → oldest_of src m k v.at ≡ k
        → Found (oldest_of src ((k, v) ∷ m) oldest at)
    newly e same =
        let whole : oldest_of src ((k, v) ∷ m) oldest at ≡ k = unfold oldest_of in rw e same in
        subst Found (sym whole) (
          v,
          (unfold find_blob in rw ((eq_iff k k).1 refl) refl),
          λ q. false≢true (sym (ground (arith, e)) ∙ (eq_iff k src).1 q),
        )

    further : (x : String) → ((w : Blob) × (find_blob x m ≡ some w) × (x ≢ src)) → Found x
    further x f = elim (Bool-cases (str_eq k x)) [
      | inl y ↦ (v, (unfold find_blob in rw y refl), f.2)
      | inr n ↦ (f.0, (unfold find_blob in rw n f.1), f.2)
    ]

    behind :
        (o : String) (t : Instant)
        → oldest_of src ((k, v) ∷ m) oldest at ≡ oldest_of src m o t
        → ((w : Blob) × (find_blob (oldest_of src m o t) m ≡ some w) × (oldest_of src m o t ≢ src))
        → Found (oldest_of src ((k, v) ∷ m) oldest at)
    behind o t q f = subst Found (sym q) (further (oldest_of src m o t) f)

oldest_of-named :
    (src : String) (now : Instant) (m : BlobMap) (oldest : String) (at : Instant)
    → oldest ≢ ""
    → All (IsDated now) m
    → oldest_of src m oldest at ≢ ""
unfolding oldest_of
oldest_of-named src now [] oldest at h a = h
oldest_of-named src now ((k, v) ∷ m) oldest at h a =
    elim (Bool-cases (not (str_eq k src) && before v.at at)) [
      | inl e ↦ rw e (oldest_of-named src now m k v.at a.0.0 a.1)
      | inr e ↦ rw e (oldest_of-named src now m oldest at h a.1)
    ]

-- When there is no file to remove, all files are of the source.
oldest_of-empty :
    (src : String) (now limit : Instant) (m : BlobMap)
    → now < limit
    → All (IsDated now) m
    → oldest_of src m "" limit ≡ ""
    → All (λ p. p.0 ≡ src) m
oldest_of-empty src now limit [] l a h = tt
oldest_of-empty src now limit ((k, v) ∷ m) l a h =
    elim (Bool-cases (not (str_eq k src) && before v.at limit)) [
      | inl e ↦ absurd (oldest_of-named src now m k v.at a.0.0 a.1 (sym (first e) ∙ h))
      | inr e ↦ (
        (eq_iff k src).0 (ground (arith, e, a.0.1, l)),
        oldest_of-empty src now limit m l a.1 (sym (next e) ∙ h),
      )
    ]
  where
    first :
        (not (str_eq k src) && before v.at limit) ≡ true
        → oldest_of src ((k, v) ∷ m) "" limit ≡ oldest_of src m k v.at
    first e = unfold oldest_of in rw e refl

    next :
        (not (str_eq k src) && before v.at limit) ≡ false
        → oldest_of src ((k, v) ∷ m) "" limit ≡ oldest_of src m "" limit
    next e = unfold oldest_of in rw e refl

-- What the loop that makes room ends with, for a source whose file is there.
record IsMade (now : Instant) (src : String) (o : Option Blob) (b : Blobs) : Type 0 where
  keeping : IsKeeping now b
  found : find_blob src b.segs ≡ o
  small : (b.seg_bytes ≤ max_cache_bytes) ⊎ All (λ p. p.0 ≡ src) b.segs

one_source :
    (src : String) (v : Blob) (m : BlobMap)
    → length m ≤ 1
    → find_blob src m ≡ some v
    → All (λ p. p.0 ≡ src) m
one_source src v [] l f = tt
one_source src v ((k, w) ∷ []) l f = elim (Bool-cases (str_eq k src)) [
  | inl e ↦ ((eq_iff k src).0 e, tt)
  | inr e ↦ absurd (none-ne-some v (sym (missing e) ∙ f))
]
  where
    missing : str_eq k src ≡ false → find_blob src ((k, w) ∷ []) ≡ none
    missing e = unfold find_blob in rw e refl
one_source src v (p ∷ q ∷ m) l f = absurd (omega (arith, l))

make_room-IsMade :
    (fuel : ℕ) (now : Instant) (src : String) (v : Blob) (b : Blobs)
    → length b.segs ≤ fuel
    → IsKeeping now b
    → find_blob src b.segs ≡ some v
    → IsMade now src (some v) (make_room fuel now src b)
unfolding make_room
make_room-IsMade zero now src v b l k f = record {
  keeping = k;
  found = f;
  small = inr (one_source src v b.segs (omega (arith, l)) f);
}
make_room-IsMade (suc fuel) now src v b l k f =
    let oldest = oldest_of src b.segs "" (now + 3600 * second) in
    elim (Bool-cases
      (ltb max_cache_bytes b.seg_bytes && ltb 1 (length b.segs) && not (str_eq oldest ""))) [
        | inr e ↦ rw e (record { keeping = k; found = f; small = ends e })
        | inl e ↦ elim (oldest_of-cases src b.segs "" (now + 3600 * second)) [
          | inl same ↦ absurd (false≢true (sym (ground (arith, e)) ∙ (eq_iff oldest "").1 same))
          | inr (w, there, other) ↦ rw e (
              make_room-IsMade fuel now src v
                (record {
                  segs = drop_blob oldest b.segs;
                  seg_bytes = b.seg_bytes - size_of (find_blob oldest b.segs);
                })
                (omega (arith, l, length-drop_blob oldest b.segs w there))
                (record {
                  counted = omega (arith, k.counted, bytes_of-drop oldest b.segs);
                  dated = All-drop_blob (IsDated now) oldest b.segs k.dated;
                })
                (find_blob-drop src oldest b.segs other ∙ f))
        ]
      ]
  where
    ends :
        (ltb max_cache_bytes b.seg_bytes
            && ltb 1 (length b.segs)
            && not (str_eq (oldest_of src b.segs "" (now + 3600 * second)) ""))
          ≡ false
        → (b.seg_bytes ≤ max_cache_bytes) ⊎ All (λ p. p.0 ≡ src) b.segs
    ends e = elim (Bool-cases (ltb max_cache_bytes b.seg_bytes)) [
      | inr n ↦ inl (ground (arith, n))
      | inl y ↦ elim (Bool-cases (ltb 1 (length b.segs))) [
        | inr n ↦ inr (one_source src v b.segs (ground (arith, n)) f)
        | inl z ↦ inr (
            oldest_of-empty src now (now + 3600 * second) b.segs (omega arith) k.dated (
              (eq_iff (oldest_of src b.segs "" (now + 3600 * second)) "").0
                (ground (arith, e, y, z))))
      ]
    ]

IsDated-later : (t now : Instant) (m : BlobMap) → t ≤ now → All (IsDated t) m → All (IsDated now) m
IsDated-later t now [] l a = tt
IsDated-later t now (p ∷ m) l a = ((a.0.0, omega (arith, l, a.0.1)), IsDated-later t now m l a.1)

-- storeBlob ends by itself: for a source whose name is not empty, and a resolver whose counter is the sum of
-- the sizes of its files, all of them with such a name and stored not later than now, the new file is kept
-- under its source, the counter is the sum of the sizes again, and it is at most 64 MB unless no file of
-- another source is left.
pub store_blob-IsKeeping :
    (t now : Instant) (src : String) (bytes : List ℕ) (b : Blobs)
    → IsKeeping t b
    → t ≤ now
    → src ≢ ""
    → let b' = store_blob now src bytes b in
      IsKeeping now b'
      × (find_blob src b'.segs ≡ some (record { bytes = bytes; at = now }))
      × ((b'.seg_bytes ≤ max_cache_bytes) ⊎ All (λ p. p.0 ≡ src) b'.segs)
unfolding store_blob
store_blob-IsKeeping t now src bytes b k l n =
    let new : Blob = record { bytes = bytes; at = now } in
    let made =
      make_room-IsMade (length (put_blob src new b.segs)) now src new
        (record {
          segs = put_blob src new b.segs;
          seg_bytes = b.seg_bytes - size_of (find_blob src b.segs) + length bytes;
        })
        (omega arith)
        (record {
          counted = omega (arith, k.counted, bytes_of-put src new b.segs, at_most src b.segs);
          dated =
              All-put (IsDated now) src new b.segs (n, omega arith)
                (IsDated-later t now b.segs l k.dated);
        })
        (find_blob-put src new b.segs) in
    (made.keeping, made.found, made.small)
  where
    at_most : (x : String) (m : BlobMap) → size_of (find_blob x m) ≤ bytes_of m
    at_most x m = omega (arith, bytes_of-drop x m)

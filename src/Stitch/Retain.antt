-- ===== src/Stitch/Retain.antt =====
-- The files of a playlist stay for as long as a player may ask for them.
use mathlib.Core.Bool.{false≢true}
use fast_tv_playout_core.Base.{
  ℕ, ◌+◌, ◌^◌, ◌≤◌, ◌<◌, ◌≡◌, ◌≢◌, refl, sym, ap, ◌∙◌, true, false, Bool-cases, inl, inr, ◌⊎◌, List,
  [], ◌∷◌, ◌++◌, ltb, if◌then◌else◌, length, String, str_eq, eq_iff, arith, pos, ltb_ℤ,
}
use fast_tv_playout_core.Clock.{Instant, sub}
use fast_tv_playout_core.Stitch.{SegmentMeta, trim_items, RetiredFiles}
use fast_tv_playout_core.Stitch.Files.{
  has_file, remove_file, names_of, all_names, window_names, retired_names, remove_unused,
  delete_retired, cleanup_loop, retire,
}

-- A name that is there.
abbrev pub Holds : String → List String → Type 0
Holds n xs = has_file n xs ≡ true

pub Holds-head : (n x : String) (xs : List String) → n ≡ x → Holds n (x ∷ xs)
unfolding has_file
Holds-head n x xs e = rw ((eq_iff x n).1 (sym e)) refl

pub Holds-tail : (n x : String) (xs : List String) → Holds n xs → Holds n (x ∷ xs)
unfolding has_file
Holds-tail n x xs h = ground (arith, h)

pub Holds-cases : (n x : String) (xs : List String) → Holds n (x ∷ xs) → (x ≡ n) ⊎ Holds n xs
unfolding has_file
Holds-cases n x xs h = elim (Bool-cases (str_eq x n)) [
  | inl e ↦ inl ((eq_iff x n).0 e)
  | inr e ↦ inr (ground (arith, h, e))
]

pub Holds-left : (n : String) (xs ys : List String) → Holds n xs → Holds n (xs ++ ys)
Holds-left n [] ys h = absurd (false≢true (unfold has_file in h))
Holds-left n (x ∷ xs) ys h = elim (Holds-cases n x xs h) [
  | inl e ↦ Holds-head n x (xs ++ ys) (sym e)
  | inr k ↦ Holds-tail n x (xs ++ ys) (Holds-left n xs ys k)
]

pub Holds-right : (n : String) (xs ys : List String) → Holds n ys → Holds n (xs ++ ys)
Holds-right n [] ys h = h
Holds-right n (x ∷ xs) ys h = Holds-tail n x (xs ++ ys) (Holds-right n xs ys h)

pub Holds-either : (n : String) (xs ys : List String) → Holds n (xs ++ ys) → Holds n xs ⊎ Holds n ys
Holds-either n [] ys h = inr h
Holds-either n (x ∷ xs) ys h = elim (Holds-cases n x (xs ++ ys) h) [
  | inl e ↦ inl (Holds-head n x xs (sym e))
  | inr k ↦ elim (Holds-either n xs ys k) [ inl a ↦ inl (Holds-tail n x xs a) | inr b ↦ inr b ]
]

-- Removing another name keeps a name.
remove_file-Holds :
    (n x : String) (files : List String) → x ≢ n → Holds n files → Holds n (remove_file x files)
unfolding remove_file
remove_file-Holds n x [] o h = h
remove_file-Holds n x (y ∷ files) o h = elim (Bool-cases (str_eq y x)) [
  | inl same ↦ rw same (elim (Holds-cases n y files h) [
    | inl e ↦ absurd (o (sym ((eq_iff y x).0 same) ∙ e))
    | inr k ↦ remove_file-Holds n x files o k
  ])
  | inr differs ↦ rw differs (elim (Holds-cases n y files h) [
    | inl e ↦ Holds-head n y (remove_file x files) (sym e)
    | inr k ↦ Holds-tail n y (remove_file x files) (remove_file-Holds n x files o k)
  ])
]

-- A name that is in use is kept.
remove_unused-Holds :
    (n : String) (in_use names files : List String)
    → Holds n in_use
    → Holds n files
    → Holds n (remove_unused in_use names files)
unfolding remove_unused
remove_unused-Holds n in_use [] files u h = h
remove_unused-Holds n in_use (x ∷ names) files u h = elim (Bool-cases (has_file x in_use)) [
  | inl used ↦ rw used (remove_unused-Holds n in_use names files u h)
  | inr free ↦ rw free (
      remove_unused-Holds n in_use names (remove_file x files) u (
        remove_file-Holds n x files (λ e. false≢true (sym free ∙ ap (λ z. has_file z in_use) e ∙ u))
          h))
]

-- The names of the files of the window are in use.
window_names-Holds :
    (n : String) (items : List SegmentMeta)
    → Holds n (all_names items)
    → Holds n (window_names items)
unfolding all_names window_names
window_names-Holds n [] h = h
window_names-Holds n (it ∷ items) h = elim (Holds-either n (names_of it) (all_names items) h) [
  | inl own ↦ elim (Bool-cases (str_eq it.map_uri.name "")) [
    | inl blank ↦ here (has_own blank own)
    | inr given ↦ elim (Holds-cases n it.uri.name (it.map_uri.name ∷ []) (has_both given own)) [
      | inl e ↦ Holds-head n it.uri.name _ (sym e)
      | inr k ↦
          Holds-tail n it.uri.name _ (Holds-left n (it.map_uri.name ∷ []) (window_names items) k)
    ]
  ]
  | inr rest ↦
      Holds-tail n it.uri.name _ (Holds-tail n it.map_uri.name _ (window_names-Holds n items rest))
]
  where
    has_own : str_eq it.map_uri.name "" ≡ true → Holds n (names_of it) → Holds n (it.uri.name ∷ [])
    has_own e h =
        ap (λ b. has_file n (if b then it.uri.name ∷ [] else it.uri.name ∷ it.map_uri.name ∷ []))
          (sym e)
        ∙ h

    has_both :
        str_eq it.map_uri.name "" ≡ false
        → Holds n (names_of it)
        → Holds n (it.uri.name ∷ it.map_uri.name ∷ [])
    has_both e h =
        ap (λ b. has_file n (if b then it.uri.name ∷ [] else it.uri.name ∷ it.map_uri.name ∷ []))
          (sym e)
        ∙ h

    here : Holds n (it.uri.name ∷ []) → Holds n (it.uri.name ∷ it.map_uri.name ∷ window_names items)
    here h = elim (Holds-cases n it.uri.name [] h) [
      | inl e ↦ Holds-head n it.uri.name _ (sym e)
      | inr k ↦ absurd (false≢true (unfold has_file in k))
    ]

-- A name that was retired at a moment or later.
pub data Promised (n : String) (t : Instant) : List RetiredFiles → Type 0 where
  first :
      {r : RetiredFiles} {rs : List RetiredFiles}
      → Holds n r.names
      → t ≤ r.at
      → Promised n t (r ∷ rs)
  further : {r : RetiredFiles} {rs : List RetiredFiles} → Promised n t rs → Promised n t (r ∷ rs)

Promised-retired_names :
    (n : String) (t : Instant) (rs : List RetiredFiles)
    → Promised n t rs
    → Holds n (retired_names rs)
unfolding retired_names
Promised-retired_names n t [] p = elim p [ ]
Promised-retired_names n t (r ∷ rs) (first h l) = Holds-left n r.names (retired_names rs) h
Promised-retired_names n t (r ∷ rs) (further p) =
    Holds-right n r.names (retired_names rs) (Promised-retired_names n t rs p)

Promised-append :
    (n : String) (t : Instant) (rs qs : List RetiredFiles)
    → Promised n t rs
    → Promised n t (rs ++ qs)
Promised-append n t [] qs p = elim p [ ]
Promised-append n t (r ∷ rs) qs (first h l) = first h l
Promised-append n t (r ∷ rs) qs (further p) = further (Promised-append n t rs qs p)

Promised-last :
    (n : String) (t : Instant) (rs : List RetiredFiles) (r : RetiredFiles)
    → Holds n r.names
    → t ≤ r.at
    → Promised n t (rs ++ (r ∷ []))
Promised-last n t [] r h l = first h l
Promised-last n t (q ∷ rs) r h l = further (Promised-last n t rs r h l)

-- What is not old enough is not deleted.
young : (now at k : ℕ) → k < 2 ^ 62 → now < at + k → ltb_ℤ (sub now at) (pos k) ≡ true
unfolding sub
young now at k b h = ground (arith, h, b)

abbrev pub loop_result :
    ℕ
    → Instant
    → List SegmentMeta
    → List RetiredFiles
    → List String
    → List RetiredFiles × List String
loop_result k now items rs files = cleanup_loop (pos k) now items rs files

pub cleanup_loop-window :
    (n : String) (k : ℕ) (now : Instant) (items : List SegmentMeta) (rs : List RetiredFiles)
    (files : List String)
    → Holds n (all_names items)
    → Holds n files
    → Holds n (loop_result k now items rs files).1
unfolding cleanup_loop delete_retired
cleanup_loop-window n k now items [] files u h = h
cleanup_loop-window n k now items (r ∷ rs) files u h =
    elim (Bool-cases (ltb_ℤ (sub now r.at) (pos k))) [
      | inl e ↦ rw e h
      | inr e ↦ rw e (
          cleanup_loop-window n k now items rs _ u (
            remove_unused-Holds n _ r.names files
              (Holds-left n (window_names items) (retired_names rs) (window_names-Holds n items u))
              h))
    ]

cleanup_loop-Promised :
    (n : String) (t : ℕ) (k : ℕ) (now : ℕ) (items : List SegmentMeta) (rs : List RetiredFiles)
    (files : List String)
    → k < 2 ^ 62
    → now < t + k
    → Promised n t rs
    → Holds n files
    → Promised n t (loop_result k now items rs files).0
      × Holds n (loop_result k now items rs files).1
unfolding cleanup_loop delete_retired
cleanup_loop-Promised n t k now items [] files b l p h = elim p [ ]
cleanup_loop-Promised n t k now items (r ∷ rs) files b l p h =
    elim (Bool-cases (ltb_ℤ (sub now r.at) (pos k))) [
      | inl e ↦ rw e (p, h)
      | inr e ↦ rw e (
          cleanup_loop-Promised n t k now items rs _ b l (behind p e) (
            remove_unused-Holds n _ r.names files
              (Holds-right n (window_names items) (retired_names rs)
                (Promised-retired_names n t rs (behind p e)))
              h))
    ]
  where
    behind : Promised n t (r ∷ rs) → ltb_ℤ (sub now r.at) (pos k) ≡ false → Promised n t rs
    behind (first g m) e = absurd (false≢true (sym e ∙ young now r.at k b (omega (arith, l, m))))
    behind (further q) e = q

pub all_names-append :
    (n : String) (xs ys : List SegmentMeta)
    → Holds n (all_names (xs ++ ys))
    → Holds n (all_names xs) ⊎ Holds n (all_names ys)
unfolding all_names
all_names-append n [] ys h = inr h
all_names-append n (x ∷ xs) ys h = elim (Holds-either n (names_of x) (all_names (xs ++ ys)) h) [
  | inl a ↦ inl (Holds-left n (names_of x) (all_names xs) a)
  | inr b ↦ elim (all_names-append n xs ys b) [
    | inl c ↦ inl (Holds-right n (names_of x) (all_names xs) c)
    | inr d ↦ inr d
  ]
]

-- What append takes out of the window, and what it leaves.
pub trim_items-split :
    (k : ℕ) (items : List SegmentMeta) (d : ℕ)
    → (trim_items k items d).removed ++ (trim_items k items d).kept ≡ items
unfolding trim_items
trim_items-split k [] d = refl
trim_items-split k (it ∷ items) d = elim (Bool-cases (ltb k (length (it ∷ items)))) [
  | inl e ↦ rw e (ap (λ xs. it ∷ xs) (trim_items-split k items _))
  | inr e ↦ rw e refl
]

-- Where a name is found: among the segments of the window, or among what was retired at a moment or later.
abbrev pub Findable : String → Instant → List SegmentMeta → List RetiredFiles → Type 0
Findable n t items rs = Holds n (all_names items) ⊎ Promised n t rs

pub retire-Findable :
    (n : String) (t now : Instant) (kept removed : List SegmentMeta) (rs : List RetiredFiles)
    → t ≤ now
    → Findable n t (removed ++ kept) rs
    → Findable n t kept (retire removed now rs)
retire-Findable n t now kept [] rs l f = f
retire-Findable n t now kept (m ∷ removed) rs l (inr p) = inr (Promised-append n t rs _ p)
retire-Findable n t now kept (m ∷ removed) rs l (inl h) =
    elim (all_names-append n (m ∷ removed) kept h) [
      | inl a ↦
          inr (Promised-last n t rs (record { names = all_names (m ∷ removed); at = now }) a l)
      | inr b ↦ inl b
    ]

-- A name that can be found is kept by cleanup.
pub cleanup_loop-Findable :
    (n : String) (t : ℕ) (k : ℕ) (now : ℕ) (items : List SegmentMeta) (rs : List RetiredFiles)
    (files : List String)
    → k < 2 ^ 62
    → now < t + k
    → Findable n t items rs
    → Holds n files
    → Findable n t items (loop_result k now items rs files).0
      × Holds n (loop_result k now items rs files).1
cleanup_loop-Findable n t k now items rs files b l (inl u) h =
    (inl u, cleanup_loop-window n k now items rs files u h)
cleanup_loop-Findable n t k now items rs files b l (inr p) h =
    let (q, g) = cleanup_loop-Promised n t k now items rs files b l p h in (inr q, g)

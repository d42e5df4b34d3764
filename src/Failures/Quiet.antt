-- ===== src/Failures/Quiet.antt =====
-- A source that has failed is not told of again for ten seconds.
use fast_tv_playout_core.Base.{
  ℕ, suc, ◌+◌, ◌*◌, ◌<◌, ◌≤◌, ◌≡◌, refl, sym, ap, ◌∙◌, subst, Bool, true, false, Bool-cases, inl,
  inr, some, List, [], ◌∷◌, if◌then◌else◌, length, String, str_eq, eq_iff, ltb_ℤ, pos, arith, All,
}
use mathlib.Core.Bool.{false≢true}
use fast_tv_playout_core.Clock.{second, sub}
use fast_tv_playout_core.Failures.{
  SourceFailure, FailedAt, key_of, lookup, put, source_failed, source_failures,
}

length-put : (key : String) (at : ℕ) (m : FailedAt) → length (put key at m) ≤ suc (length m)
unfolding put
length-put key at [] = omega arith
length-put key at ((k, t) ∷ m) = elim (Bool-cases (str_eq key k)) [
  | inl e ↦ rw e (omega arith)
  | inr e ↦ rw e (omega (arith, length-put key at m))
]

-- Another key leaves what is remembered of this one.
lookup-put :
    (key other : String) (at : ℕ) (m : FailedAt)
    → str_eq key other ≡ false
    → lookup key (put other at m) ≡ lookup key m
unfolding lookup put
lookup-put key other at [] h = rw h refl
lookup-put key other at ((k, t) ∷ m) h = elim (Bool-cases (str_eq other k)) [
  | inl e ↦ rw e (rw (h, subst (λ x. str_eq key x ≡ false) ((eq_iff other k).0 e) h) refl)
  | inr e ↦ rw e (ap (λ o. if str_eq key k then some t else o) (lookup-put key other at m h))
]

soon : (at t : ℕ) → at < t + 10 * second → ltb_ℤ (sub at t) (pos (10 * second)) ≡ true
unfolding sub
soon at t h = ground arith

different : (a b : String) → str_eq a b ≡ false → str_eq b a ≡ false
different a b h = elim (Bool-cases (str_eq b a)) [
  | inl e ↦ absurd (false≢true (sym h ∙ (eq_iff a b).1 (sym ((eq_iff b a).0 e))))
  | inr e ↦ e
]

module _ (key : String) (t : ℕ) where
  -- A failure of this key that comes soon changes nothing and is not published.
  source_failed_soon :
      (m : FailedAt) (f : SourceFailure)
      → lookup key m ≡ some t
      → str_eq (key_of f) key ≡ true
      → f.start_at < t + 10 * second
      → source_failed m f ≡ (m, false)
  unfolding source_failed
  source_failed_soon m f l k h =
      let same : lookup (key_of f) m ≡ some t =
        ap (λ x. lookup x m) ((eq_iff (key_of f) key).0 k) ∙ l in
      rw (same, soon f.start_at t h) refl

  -- A failure of another key leaves what is remembered of this one, unless the map is full.
  source_failed_other :
      (m : FailedAt) (f : SourceFailure)
      → lookup key m ≡ some t
      → length m ≤ 1000
      → str_eq (key_of f) key ≡ false
      → (lookup key (source_failed m f).0 ≡ some t)
        × (length (source_failed m f).0 ≤ suc (length m))
  unfolding source_failed
  source_failed_other m f l small k = ground (
    arith,
    lookup-put key (key_of f) f.start_at m (different (key_of f) key k),
    length-put (key_of f) f.start_at m,
  )

  Soon : SourceFailure → Type 0
  Soon f = str_eq (key_of f) key ≡ true → f.start_at < t + 10 * second

  Other : SourceFailure → Type 0
  Other f = str_eq (key_of f) key ≡ false

  remembered_quiet :
      (m : FailedAt) (fs : List SourceFailure)
      → lookup key m ≡ some t
      → length m + length fs ≤ 1001
      → All Soon fs
      → All Other (source_failures m fs)
  unfolding source_failures Soon Other
  remembered_quiet m [] l small h = tt
  remembered_quiet m (f ∷ fs) l small h = elim (Bool-cases (str_eq (key_of f) key)) [
    | inl k ↦
        subst
          (λ (st : FailedAt × Bool).
            All Other (if st.1 then f ∷ source_failures st.0 fs else source_failures st.0 fs))
          (sym (source_failed_soon m f l k (h.0 k))) (remembered_quiet m fs l (omega arith) h.1)
    | inr k ↦
        let kept = source_failed_other m f l (omega arith) k in
        let rest = remembered_quiet (source_failed m f).0 fs kept.0 (omega (arith, kept.1)) h.1 in
        kept_quiet (source_failed m f).1 f (source_failures (source_failed m f).0 fs) k rest
  ]
    where
      kept_quiet :
          (b : Bool) (g : SourceFailure) (rest : List SourceFailure)
          → Other g
          → All Other rest
          → All Other (if b then g ∷ rest else rest)
      kept_quiet true g rest o r = (o, r)
      kept_quiet false g rest o r = r

lookup-put_same : (key : String) (at : ℕ) (m : FailedAt) → lookup key (put key at m) ≡ some at
unfolding lookup put
lookup-put_same key at [] = rw ((eq_iff key key).1 refl) refl
lookup-put_same key at ((k, t) ∷ m) = elim (Bool-cases (str_eq key k)) [
  | inl e ↦ rw (e, (eq_iff key key).1 refl) refl
  | inr e ↦ rw (e, e) (lookup-put_same key at m)
]

published_remembered :
    (m : FailedAt) (f : SourceFailure)
    → (source_failed m f).1 ≡ true
    → length m ≤ 1000
    → (lookup (key_of f) (source_failed m f).0 ≡ some f.start_at)
      × (length (source_failed m f).0 ≤ suc (length m))
unfolding source_failed
published_remembered m f p small =
    ground (arith, lookup-put_same (key_of f) f.start_at m, length-put (key_of f) f.start_at m)

-- When a failure of a source is published, none of the failures that follow is published for the same reason
-- and source as long as their moments are less than ten seconds after its own, provided the keys that are
-- remembered and the failures that follow are together at most 1000.
pub source_failures_quiet :
    (m : FailedAt) (f : SourceFailure) (fs : List SourceFailure)
    → (source_failed m f).1 ≡ true
    → length m + length fs ≤ 1000
    → All (λ g. str_eq (key_of g) (key_of f) ≡ true → g.start_at < f.start_at + 10 * second) fs
    → All (λ g. str_eq (key_of g) (key_of f) ≡ false) (source_failures (source_failed m f).0 fs)
unfolding Soon Other
source_failures_quiet m f fs p small h =
    let known = published_remembered m f p (omega arith) in
    remembered_quiet (key_of f) f.start_at (source_failed m f).0 fs known.0 (omega (arith, known.1))
      h

-- ===== src/Filler/Subset.antt =====
-- What the table of bestSubset holds: every sum that is reached, with the fewest creatives, and a walk to it.
use mathlib.Core.Option.{some-injective, none-ne-some}
use fast_tv_playout_core.Base.{
  ℕ, suc, ◌+◌, ◌-◌, ◌≤◌, ◌<◌, ◌≡◌, refl, sym, ap, subst, ◌∙◌, Bool, true, false, Bool-cases,
  Option-cases, lt→ltb, dec_lt, inl, inr, Option, none, some, List, [], ◌∷◌, ltb, leb,
  if◌then◌else◌, arith, length,
}
use fast_tv_playout_core.Filler.{Creative, Rows, is_better, one_more, walk, total}
use fast_tv_playout_core.Filler.Table.{entry, mark, improves, improved}

-- Some of the creatives, each at most once, in their order.
pub data Chosen : List Creative → List Creative → Type 0 where
  nothing : Chosen [] []
  skip : {c : Creative} {cs ds : List Creative} → Chosen cs ds → Chosen (c ∷ cs) ds
  keep : {c : Creative} {cs ds : List Creative} → Chosen cs ds → Chosen (c ∷ cs) (c ∷ ds)

pub data AtMost : Option ℕ → ℕ → Type 0 where
  at_most : {k n : ℕ} → k ≤ n → AtMost (some k) n

abbrev best_of : Option ℕ → Option ℕ → Option ℕ
best_of a b = if is_better a b then one_more b else a

best_of-AtMost : (a b : Option ℕ) (n : ℕ) → AtMost a n → AtMost (best_of a b) n
unfolding is_better
best_of-AtMost none b n h = elim h [ ]
best_of-AtMost (some k) none n h = h
best_of-AtMost (some k) (some m) n (at_most h) = elim (Bool-cases (ltb (m + 1) k)) [
  | inl e ↦ rw e (at_most (ground arith))
  | inr e ↦ rw e (at_most h)
]

one_more-AtMost : (a b : Option ℕ) (n : ℕ) → AtMost b n → AtMost (best_of a b) (suc n)
unfolding is_better
one_more-AtMost none none n h = elim h [ ]
one_more-AtMost (some k) none n h = elim h [ ]
one_more-AtMost none (some m) n (at_most h) = at_most (omega arith)
one_more-AtMost (some k) (some m) n (at_most h) = elim (Bool-cases (ltb (m + 1) k)) [
  | inl e ↦ rw e (at_most (omega arith))
  | inr e ↦ rw e (at_most (ground arith))
]

unfoldable pub pool_of : Rows → List Creative
pool_of [] = []
pool_of ((c, from) ∷ rows) = c ∷ pool_of rows

-- Rows and a table that passes have built.
pub data Built (limit : ℕ) : Rows → List (Option ℕ) → Type 0 where
  first :
      {r : List (Option ℕ)}
      → length r ≡ suc limit
      → entry r 0 ≡ some 0
      → ((j : ℕ) → 0 < j → entry r j ≡ none)
      → Built limit [] r
  row :
      {c : Creative} {from : List Bool} {rows : Rows} {r r' : List (Option ℕ)}
      → Built limit rows r
      → 0 < c.duration
      → length r' ≡ suc limit
      → ((j : ℕ) → j ≤ limit → entry r' j ≡ improved c.duration r j)
      → ((j : ℕ) → j ≤ limit → mark from j ≡ improves c.duration r j)
      → Built limit ((c, from) ∷ rows) r'

improved-AtMost :
    (d : ℕ) (r : List (Option ℕ)) (j n : ℕ) → AtMost (entry r j) n → AtMost (improved d r j) n
unfolding improved improves
improved-AtMost d r j n h = elim (Bool-cases (leb d j)) [
  | inl e ↦ rw e (best_of-AtMost (entry r j) (entry r (j - d)) n h)
  | inr e ↦ rw e h
]

improved-taken :
    (d : ℕ) (r : List (Option ℕ)) (j n : ℕ)
    → d ≤ j
    → AtMost (entry r (j - d)) n
    → AtMost (improved d r j) (suc n)
unfolding improved improves
improved-taken d r j n fits h = elim (Bool-cases (leb d j)) [
  | inl e ↦ rw e (one_more-AtMost (entry r j) (entry r (j - d)) n h)
  | inr e ↦ absurd (ground arith)
]

-- A cell that is improved comes from a cell that is reached.
improves-true :
    (d : ℕ) (r : List (Option ℕ)) (s : ℕ)
    → improves d r s ≡ true
    → (d ≤ s) × ((k : ℕ) × (entry r (s - d) ≡ some k) × (improved d r s ≡ some (k + 1)))
unfolding improves improved is_better
improves-true d r s h = elim (Option-cases (entry r (s - d))) [
  | inl e ↦ absurd (ground (arith, e))
  | inr (k, e) ↦ (ground arith, (k, e, rw (h, e) refl))
]

improves-false :
    (d : ℕ) (r : List (Option ℕ)) (s : ℕ) → improves d r s ≡ false → improved d r s ≡ entry r s
unfolding improved
improves-false d r s h = rw h refl

walk-used :
    (c : Creative) (from : List Bool) (rows : Rows) (s : ℕ)
    → 0 < s
    → mark from s ≡ true
    → walk ((c, from) ∷ rows) s ≡ c ∷ walk rows (s - c.duration)
unfolding walk
walk-used c from rows s p m = simp (lt→ltb 0 s p, m) refl

walk-unused :
    (c : Creative) (from : List Bool) (rows : Rows) (s : ℕ)
    → mark from s ≡ false
    → walk ((c, from) ∷ rows) s ≡ walk rows s
unfolding walk
walk-unused c from rows s m = ground (arith, m)

module _ (limit : ℕ) where
  -- Whatever is chosen, its sum is reached with as few creatives.
  pub complete :
      {rows : Rows} {r : List (Option ℕ)} {ds : List Creative}
      → Built limit rows r
      → Chosen (pool_of rows) ds
      → total ds ≤ limit
      → AtMost (entry r (total ds)) (length ds)
  unfolding pool_of total
  complete (first l z n) nothing h = rw z (at_most (omega arith))
  complete (row {c = c} {r = r} b p l e m) (skip {ds = ds} k) h =
      rw (e (total ds) h) (improved-AtMost c.duration r (total ds) (length ds) (complete b k h))
  complete (row {c = c} {r = r} b p l e m) (keep {ds = ds} k) h = rw (e (c.duration + total ds) h) (
      improved-taken c.duration r (c.duration + total ds) (length ds) (omega arith)
        (subst (λ j. AtMost (entry r j) (length ds)) (omega arith) (complete b k (omega arith))))

  -- The walk from a sum that is reached.
  pub record IsWalk (rows : Rows) (s k : ℕ) : Type 0 where
    pub chosen : Chosen (pool_of rows) (walk rows s)
    pub sum : total (walk rows s) ≡ s
    pub count : length (walk rows s) ≡ k

  nothing_walked : (s k : ℕ) → 0 ≡ s → 0 ≡ k → IsWalk [] s k
  unfolding walk pool_of total
  nothing_walked s k e f = record { chosen = nothing; sum = e; count = f }

  pub way_back-IsWalk :
      {rows : Rows} {r : List (Option ℕ)} (s k : ℕ)
      → Built limit rows r
      → s ≤ limit
      → entry r s ≡ some k
      → IsWalk rows s k
  unfolding pool_of total
  way_back-IsWalk s k (first {r = r} l z n) h e =
      let zero_sum : s ≡ 0 = elim (dec_lt 0 s) [
        | yes p ↦ absurd (none-ne-some k (sym (n s p) ∙ e))
        | no p ↦ omega arith
      ] in
      nothing_walked s k (sym zero_sum)
        (some-injective 0 k (sym z ∙ ap (entry r) (sym zero_sum) ∙ e))
  way_back-IsWalk s k (row {c = c} {from = from} {rows = rows} {r = r} b p l e m) h f =
      elim (Bool-cases (improves c.duration r s)) [
        | inl i ↦
            let (fits, (k', back, new)) = improves-true c.duration r s i in
            let w = way_back-IsWalk (s - c.duration) k' b (omega arith) back in
            let same = walk-used c from rows s (omega arith) (m s h ∙ i) in
            record {
              chosen = subst (Chosen (c ∷ pool_of rows)) (sym same) (keep w.chosen);
              sum = ap total same ∙ omega (arith, w.sum);
              count =
                  ap length same
                  ∙ omega (arith, w.count, some-injective (k' + 1) k (sym new ∙ sym (e s h) ∙ f));
            }
        | inr i ↦
            let w =
              way_back-IsWalk s k b h (sym (improves-false c.duration r s i) ∙ sym (e s h) ∙ f) in
            let same = walk-unused c from rows s (m s h ∙ i) in
            record {
              chosen = subst (Chosen (c ∷ pool_of rows)) (sym same) (skip w.chosen);
              sum = ap total same ∙ w.sum;
              count = ap length same ∙ w.count;
            }
      ]

-- ===== src/Filler/Table.antt =====
-- The table of bestSubset: what one pass of a creative does to it.
use fast_tv_playout_core.Base.{
  ℕ, zero, suc, ◌-◌, ◌≤◌, ◌<◌, ◌≡◌, ◌≢◌, refl, sym, subst, ◌∙◌, Bool, true, false, Bool-cases, inl,
  inr, Option, none, List, leb, if◌then◌else◌, arith, length, get_or, set, length-set,
  get_or-set_same, get_or-set_other, dec_le, ℕ_discrete,
}
use fast_tv_playout_core.Filler.{Pass, is_better, one_more, cell, pass}

abbrev pub entry : List (Option ℕ) → ℕ → Option ℕ
entry reach j = get_or reach j none

abbrev pub mark : List Bool → ℕ → Bool
mark from j = get_or from j false

-- The new value of a cell, from the old values.
unfoldable pub improves : ℕ → List (Option ℕ) → ℕ → Bool
improves d reach j = if leb d j then is_better (entry reach j) (entry reach (j - d)) else false

unfoldable pub improved : ℕ → List (Option ℕ) → ℕ → Option ℕ
improved d reach j = if improves d reach j then one_more (entry reach (j - d)) else entry reach j

-- What a pass over the cells up to s does, for a creative that lasts.
pub record IsPass (d s : ℕ) (t u : Pass) : Type 0 where
  pub size : length u.reach ≡ length t.reach
  pub size_from : length u.from ≡ length t.from
  pub below : (j : ℕ) → j ≤ s → entry u.reach j ≡ improved d t.reach j
  pub above : (j : ℕ) → s < j → entry u.reach j ≡ entry t.reach j
  pub marked : (j : ℕ) → j ≤ s → mark t.from j ≡ false → mark u.from j ≡ improves d t.reach j
  pub unmarked : (j : ℕ) → s < j → mark u.from j ≡ mark t.from j

cell-set :
    (d s : ℕ) (t : Pass)
    → is_better (entry t.reach s) (entry t.reach (s - d)) ≡ true
    → cell d s t ≡ record {
      reach = set t.reach s (one_more (entry t.reach (s - d)));
      from = set t.from s true;
    }
unfolding cell
cell-set d s t h = simp h refl

cell-kept :
    (d s : ℕ) (t : Pass)
    → is_better (entry t.reach s) (entry t.reach (s - d)) ≡ false
    → cell d s t ≡ t
unfolding cell
cell-kept d s t h = simp h refl

-- One cell, whose creative fits.
record IsCell (d s : ℕ) (t u : Pass) : Type 0 where
  size : length u.reach ≡ length t.reach
  size_from : length u.from ≡ length t.from
  here : entry u.reach s ≡ improved d t.reach s
  others : (j : ℕ) → j ≢ s → entry u.reach j ≡ entry t.reach j
  mark_here : mark t.from s ≡ false → mark u.from s ≡ improves d t.reach s
  mark_others : (j : ℕ) → j ≢ s → mark u.from j ≡ mark t.from j

cell-IsCell :
    (d s : ℕ) (t : Pass)
    → d ≤ s
    → s < length t.reach
    → s < length t.from
    → IsCell d s t (cell d s t)
unfolding improved improves
cell-IsCell d s t h r f = elim (Bool-cases (is_better (entry t.reach s) (entry t.reach (s - d)))) [
  | inl b ↦
      let v = one_more (entry t.reach (s - d)) in
      subst (λ u. IsCell d s t u) (sym (cell-set d s t b))
        (record {
          size = length-set t.reach s v;
          size_from = length-set t.from s true;
          here = get_or-set_same t.reach s v none r ∙ ground (arith, b);
          others = λ j n. get_or-set_other t.reach s j v none n;
          mark_here = λ m. get_or-set_same t.from s true false f ∙ ground (arith, b);
          mark_others = λ j n. get_or-set_other t.from s j true false n;
        })
  | inr b ↦
      subst (λ u. IsCell d s t u) (sym (cell-kept d s t b))
        (record {
          size = refl;
          size_from = refl;
          here = ground (arith, b);
          others = λ j n. refl;
          mark_here = λ m. m ∙ ground (arith, b);
          mark_others = λ j n. refl;
        })
]

-- Below the length of the creative nothing changes.
kept-IsPass : (d s : ℕ) (t : Pass) → s < d → IsPass d s t t
unfolding improved improves
kept-IsPass d s t h = record {
  size = refl;
  size_from = refl;
  below = λ j k. ground arith;
  above = λ j k. refl;
  marked = λ j k m. m ∙ ground arith;
  unmarked = λ j k. refl;
}

pass-more : (d s : ℕ) (t : Pass) → d ≤ suc s → pass d (suc s) t ≡ pass d s (cell d (suc s) t)
unfolding pass
pass-more d s t h = ground arith

pass-end : (d s : ℕ) (t : Pass) → s < d → pass d s t ≡ t
unfolding pass
pass-end d zero t h = ground arith
pass-end d (suc s) t h = ground arith

improved-congr :
    (d j : ℕ) (r r' : List (Option ℕ))
    → entry r j ≡ entry r' j
    → entry r (j - d) ≡ entry r' (j - d)
    → (improved d r j ≡ improved d r' j) × (improves d r j ≡ improves d r' j)
unfolding improved improves
improved-congr d j r r' e back = (rw (e, back) refl, rw (e, back) refl)

-- The cells of a pass from the cells of its first step.
cell-rest :
    (d s : ℕ) (t c u : Pass)
    → 0 < d
    → d ≤ suc s
    → IsCell d (suc s) t c
    → IsPass d s c u
    → IsPass d (suc s) t u
unfolding improved improves
cell-rest d s t c u p fits first rest = record {
  size = rest.size ∙ first.size;
  size_from = rest.size_from ∙ first.size_from;
  below = λ j k. elim (ℕ_discrete j (suc s)) [
    | yes e ↦
        subst (λ x. entry u.reach x ≡ improved d t.reach x) (sym e)
          (rest.above (suc s) (omega arith) ∙ first.here)
    | no n ↦
        rest.below j (omega arith)
        ∙ (improved-congr d j c.reach t.reach (first.others j n)
            (first.others (j - d) (omega arith))).0
  ];
  above = λ j k. rest.above j (omega arith) ∙ first.others j (omega arith);
  marked = λ j k m. elim (ℕ_discrete j (suc s)) [
    | yes e ↦
        subst (λ x. mark u.from x ≡ improves d t.reach x) (sym e)
          (rest.unmarked (suc s) (omega arith)
            ∙ first.mark_here (subst (λ x. mark t.from x ≡ false) e m))
    | no n ↦
        rest.marked j (omega arith) (first.mark_others j n ∙ m)
        ∙ (improved-congr d j c.reach t.reach (first.others j n)
            (first.others (j - d) (omega arith))).1
  ];
  unmarked = λ j k. rest.unmarked j (omega arith) ∙ first.mark_others j (omega arith);
}

pub pass-IsPass :
    (d s : ℕ) (t : Pass)
    → 0 < d
    → s < length t.reach
    → s < length t.from
    → IsPass d s t (pass d s t)
pass-IsPass d zero t p r f =
    subst (λ u. IsPass d 0 t u) (sym (pass-end d 0 t p)) (kept-IsPass d 0 t p)
pass-IsPass d (suc s) t p r f = elim (dec_le d (suc s)) [
  | yes fits ↦
      let c = cell-IsCell d (suc s) t fits r f in
      subst (λ u. IsPass d (suc s) t u) (sym (pass-more d s t fits))
        (cell-rest d s t (cell d (suc s) t) (pass d s (cell d (suc s) t)) p fits c (
          pass-IsPass d s (cell d (suc s) t) p (omega (arith, c.size))
            (omega (arith, c.size_from))))
  | no short ↦
      subst (λ u. IsPass d (suc s) t u) (sym (pass-end d (suc s) t (omega arith)))
        (kept-IsPass d (suc s) t (omega arith))
]

-- ===== src/Filler/Best.antt =====
-- bestSubset is as good as any choice: it reaches the largest sum, with the fewest creatives.
use mathlib.Core.List.Perm
use mathlib.Core.List.{append-nil}
use fast_tv_playout_core.Base.{
  ℕ, zero, suc, ◌≤◌, ◌<◌, ◌≡◌, refl, sym, ap, subst, ◌∙◌, false, Option-cases, ℕ_discrete, inl, inr,
  Option, none, some, List, [], ◌∷◌, leb, arith, length, replicate, Perm, sort_stable,
  sort_stable-perm, take, get_or-replicate, length-replicate, All,
}
use fast_tv_playout_core.Filler.{
  Creative, Pass, Rows, pass, passes, walk, best_sum, best_subset, total, longer, pool_size,
}
use fast_tv_playout_core.Filler.Subset.{
  Chosen, nothing, AtMost, at_most, pool_of, Built, first, row, complete, way_back-IsWalk,
}
use fast_tv_playout_core.Filler.Order.{
  rev_onto, rev_onto-twice, Chosen-rev_onto, total-rev_onto, length-rev_onto, rev_onto_perm,
  total-sort_stable, length-sort_stable,
}
use fast_tv_playout_core.Filler.Table.{entry, improves, improved, pass-IsPass}

-- One more creative.
row-Built :
    (limit : ℕ) (c : Creative) (reach : List (Option ℕ)) (rows : Rows)
    → 0 < c.duration
    → length reach ≡ suc limit
    → Built limit rows reach
    → let t =
        pass c.duration limit (record { reach = reach; from = replicate (suc limit) false }) in
      Built limit ((c, t.from) ∷ rows) t.reach
row-Built limit c reach rows p l b =
    let start : Pass = record { reach = reach; from = replicate (suc limit) false } in
    let t =
      pass-IsPass c.duration limit start p (omega arith)
        (omega (arith, length-replicate (suc limit) false)) in
    row b p (t.size ∙ l) t.below (λ j h. t.marked j h (get_or-replicate (suc limit) j false))

Built-length :
    {limit : ℕ} {rows : Rows} {r : List (Option ℕ)} → Built limit rows r → length r ≡ suc limit
Built-length (first l z n) = l
Built-length (row b p l e m) = l

passes-Built :
    (limit : ℕ) (pool : List Creative) (reach : List (Option ℕ)) (rows : Rows)
    → All (λ c. 0 < c.duration) pool
    → Built limit rows reach
    → let (reach', rows') = passes limit pool reach rows in
      Built limit rows' reach' × (pool_of rows' ≡ rev_onto pool (pool_of rows))
unfolding passes rev_onto
passes-Built limit [] reach rows a b = (b, refl)
passes-Built limit (c ∷ pool) reach rows a b =
    let t = pass c.duration limit (record { reach = reach; from = replicate (suc limit) false }) in
    let rest =
      passes-Built limit pool t.reach ((c, t.from) ∷ rows) a.1
        (row-Built limit c reach rows a.0 (Built-length b) b) in
    (rest.0, rest.1 ∙ ap (rev_onto pool) (unfold pool_of in refl))

best_sum-best :
    (reach : List (Option ℕ)) (s : ℕ)
    → entry reach 0 ≡ some 0
    → ((k : ℕ) × (entry reach (best_sum reach s) ≡ some k))
      × (best_sum reach s ≤ s)
      × ((j n : ℕ) → j ≤ s → AtMost (entry reach j) n → j ≤ best_sum reach s)
unfolding best_sum
best_sum-best reach zero z = ((0, z), omega arith, λ j n h a. h)
best_sum-best reach (suc s) z = elim (Option-cases (entry reach (suc s))) [
  | inl e ↦
      let rest = best_sum-best reach s z in
      rw e (rest.0, omega (arith, rest.1), λ j n h a. lower e j n h a rest.2)
  | inr (k, e) ↦ rw e ((k, e), omega arith, λ j n h a. h)
]
  where
    lower :
        entry reach (suc s) ≡ none
        → (j n : ℕ) → j ≤ suc s
        → AtMost (entry reach j) n
        → ((i m : ℕ) → i ≤ s → AtMost (entry reach i) m → i ≤ best_sum reach s)
        → j ≤ best_sum reach s
    lower e j n h a below = elim (ℕ_discrete j (suc s)) [
      | yes same ↦
          elim (subst (λ o. AtMost o n) e (subst (λ i. AtMost (entry reach i) n) same a)) [ ]
      | no other ↦ below j n (omega arith) a
    ]

first-Built : (limit : ℕ) → Built limit [] (some 0 ∷ replicate limit none)
first-Built limit = first (omega (arith, length-replicate {A = Option ℕ} limit none)) refl later
  where
    later : (j : ℕ) → 0 < j → entry (some 0 ∷ replicate limit none) j ≡ none
    later zero h = absurd (omega arith)
    later (suc j) h = get_or-replicate limit j none

Built-zero :
    {limit : ℕ} {rows : Rows} {r : List (Option ℕ)} → Built limit rows r → entry r 0 ≡ some 0
unfolding improved improves
Built-zero (first l z n) = z
Built-zero (row {c = c} {r = r} b p l e m) = e 0 (omega arith) ∙ ground (arith, Built-zero b)

-- A choice from a pool that no other choice beats.
pub record IsBest (limit : ℕ) (pool out : List Creative) : Type 0 where
  pub picked : List Creative
  pub chosen : Chosen pool picked
  pub ordered : Perm out picked
  pub fits : total out ≤ limit
  pub largest : (ds : List Creative) → Chosen pool ds → total ds ≤ limit → total ds ≤ total out
  pub fewest : (ds : List Creative) → Chosen pool ds → total ds ≡ total out → length out ≤ length ds

module _ (pool : List Creative) (limit : ℕ) (a : All (λ c. 0 < c.duration) pool) where
  table : List (Option ℕ) × Rows
  table = passes limit pool (some 0 ∷ replicate limit none) []

  table-Built : Built limit table.1 table.0 × (pool_of table.1 ≡ rev_onto pool [])
  unfolding table
  table-Built =
      let b = passes-Built limit pool (some 0 ∷ replicate limit none) [] a (first-Built limit) in
      (b.0, b.1 ∙ ap (rev_onto pool) (unfold pool_of in refl))

  -- What is chosen from the pool is chosen from the rows, in the other order.
  turned : (ds : List Creative) → Chosen pool ds → Chosen (pool_of table.1) (rev_onto ds [])
  turned ds k =
      subst (λ p. Chosen p (rev_onto ds [])) (sym table-Built.1)
        (Chosen-rev_onto pool [] ds [] k nothing)

  reached :
      (ds : List Creative)
      → Chosen pool ds
      → total ds ≤ limit
      → AtMost (entry table.0 (total ds)) (length ds)
  reached ds k h =
      let same : total (rev_onto ds []) ≡ total ds =
        total-rev_onto ds [] ∙ unfold total in omega arith in
      let count : length (rev_onto ds []) ≡ length ds = length-rev_onto ds [] ∙ omega arith in
      subst (λ t. AtMost (entry table.0 t) (length ds)) same
        (subst (λ n. AtMost (entry table.0 (total (rev_onto ds []))) n) count
          (complete limit table-Built.0 (turned ds k) (omega (arith, same))))

  few :
      (k : ℕ)
      → entry table.0 (best_sum table.0 limit) ≡ some k
      → length (walk table.1 (best_sum table.0 limit)) ≡ k
      → length (sort_stable longer (walk table.1 (best_sum table.0 limit)))
        ≡ length (walk table.1 (best_sum table.0 limit))
      → (ds : List Creative) → AtMost (entry table.0 (best_sum table.0 limit)) (length ds)
      → length (sort_stable longer (walk table.1 (best_sum table.0 limit))) ≤ length ds
  few k e count same ds h = at_most_inv (subst (λ o. AtMost o (length ds)) e h)
    where
      at_most_inv :
          AtMost (some k) (length ds)
          → length (sort_stable longer (walk table.1 (best_sum table.0 limit))) ≤ length ds
      at_most_inv (at_most g) = omega (arith, count, same)

  choice-IsBest : IsBest limit pool (sort_stable longer (walk table.1 (best_sum table.0 limit)))
  choice-IsBest =
      let (known, low, high) = best_sum-best table.0 limit (Built-zero table-Built.0) in
      let (k, e) = known in
      let w = way_back-IsWalk limit (best_sum table.0 limit) k table-Built.0 low e in
      let out = walk table.1 (best_sum table.0 limit) in
      let sum = total-sort_stable longer out ∙ w.sum in
      record {
        picked = rev_onto out [];
        chosen =
            subst (λ p. Chosen p (rev_onto out []))
              (ap (λ p. rev_onto p []) table-Built.1 ∙ rev_onto-twice pool)
              (Chosen-rev_onto (pool_of table.1) [] out [] w.chosen nothing);
        ordered =
            Perm.trans (sort_stable-perm longer out)
              (Perm.symm (subst (Perm (rev_onto out [])) (append-nil out) (rev_onto_perm out [])));
        fits = omega (arith, sum);
        largest = λ ds c h. omega (arith, sum, high (total ds) (length ds) h (reached ds c h));
        fewest = λ ds c h. few k e w.count (length-sort_stable longer out) ds (
            subst (λ t. AtMost (entry table.0 t) (length ds)) (h ∙ sum)
              (reached ds c (omega (arith, sum))));
      }

All-take :
    (n : ℕ) (cs : List Creative)
    → All (λ c. 0 < c.duration) cs
    → All (λ c. 0 < c.duration) (take n cs)
All-take zero cs a = tt
All-take (suc n) [] a = tt
All-take (suc n) (c ∷ cs) a = (a.0, All-take n cs a.1)

-- For creatives of positive lengths and a limit above zero, bestSubset gives a choice from the first 60 of
-- them, each taken at most once: its sum is not above the limit, no other choice within the limit has a larger
-- sum, and none with that sum has fewer creatives.
pub best_subset-IsBest :
    (pool : List Creative) (limit : ℕ)
    → All (λ c. 0 < c.duration) pool
    → 0 < limit
    → IsBest limit (take pool_size pool) (best_subset pool limit)
unfolding best_subset table
best_subset-IsBest [] limit a p = record {
  picked = [];
  chosen = nothing;
  ordered = Perm.refl [];
  fits = unfold total in omega arith;
  largest = λ ds c h. only ds c;
  fewest = λ ds c h. omega arith;
}
  where
    only : (ds : List Creative) → Chosen [] ds → total ds ≤ total []
    only [] nothing = omega arith
    only (d ∷ ds) c = elim c [ ]
best_subset-IsBest (c ∷ pool) limit a p =
    rw (small) (choice-IsBest (take pool_size (c ∷ pool)) limit (All-take pool_size (c ∷ pool) a))
  where
    small : leb limit 0 ≡ false
    small = ground arith

-- ===== src/Filler/Order.antt =====
-- Choices in another order: their sum and their number stay.
use mathlib.Core.List.Perm
use mathlib.Core.List.{append-nil, perm_middle}
use fast_tv_playout_core.Base.{
  suc, ◌+◌, ◌≡◌, refl, ap, ◌∙◌, Bool, Bool-cases, insert_by, inl, inr, List, [], ◌∷◌, ◌++◌, arith,
  length, Perm, sort_stable,
}
use fast_tv_playout_core.Filler.{Creative, total}
use fast_tv_playout_core.Filler.Subset.{Chosen, nothing, skip, keep}

unfoldable pub rev_onto : List Creative → List Creative → List Creative
rev_onto [] ys = ys
rev_onto (x ∷ xs) ys = rev_onto xs (x ∷ ys)

rev_onto-rev_onto :
    (xs ys zs : List Creative) → rev_onto (rev_onto xs ys) zs ≡ rev_onto ys (xs ++ zs)
unfolding rev_onto
rev_onto-rev_onto [] ys zs = refl
rev_onto-rev_onto (x ∷ xs) ys zs = rev_onto-rev_onto xs (x ∷ ys) zs

pub rev_onto-twice : (xs : List Creative) → rev_onto (rev_onto xs []) [] ≡ xs
rev_onto-twice xs = rev_onto-rev_onto xs [] [] ∙ unfold rev_onto in append-nil xs

pub Chosen-rev_onto :
    (cs es ds bs : List Creative)
    → Chosen cs ds
    → Chosen es bs
    → Chosen (rev_onto cs es) (rev_onto ds bs)
unfolding rev_onto
Chosen-rev_onto [] es [] bs nothing k = k
Chosen-rev_onto [] es (d ∷ ds) bs h k = elim h [ ]
Chosen-rev_onto (c ∷ cs) es ds bs (skip h) k = Chosen-rev_onto cs (c ∷ es) ds bs h (skip k)
Chosen-rev_onto (c ∷ cs) es (d ∷ ds) bs (keep h) k =
    Chosen-rev_onto cs (c ∷ es) ds (c ∷ bs) h (keep k)

pub rev_onto_perm : (xs ys : List Creative) → Perm (rev_onto xs ys) (xs ++ ys)
unfolding rev_onto
rev_onto_perm [] ys = Perm.refl ys
rev_onto_perm (x ∷ xs) ys = Perm.trans (rev_onto_perm xs (x ∷ ys)) (perm_middle xs ys)

-- The sum and the number of creatives do not depend on their order.
pub total-rev_onto : (xs ys : List Creative) → total (rev_onto xs ys) ≡ total xs + total ys
unfolding rev_onto total
total-rev_onto [] ys = omega arith
total-rev_onto (x ∷ xs) ys = omega (arith, total-rev_onto xs (x ∷ ys))

pub length-rev_onto : (xs ys : List Creative) → length (rev_onto xs ys) ≡ length xs + length ys
unfolding rev_onto
length-rev_onto [] ys = omega arith
length-rev_onto (x ∷ xs) ys = omega (arith, length-rev_onto xs (x ∷ ys))

module _ (less : Creative → Creative → Bool) where
  total-insert_by :
      (x : Creative) (ys : List Creative) → total (insert_by less x ys) ≡ x.duration + total ys
  unfolding total insert_by
  total-insert_by x [] = refl
  total-insert_by x (y ∷ ys) = elim (Bool-cases (less y x)) [
    | inl e ↦ rw e (omega (arith, total-insert_by x ys))
    | inr e ↦ rw e refl
  ]

  pub total-sort_stable : (xs : List Creative) → total (sort_stable less xs) ≡ total xs
  unfolding total sort_stable
  total-sort_stable [] = refl
  total-sort_stable (x ∷ xs) =
      total-insert_by x (sort_stable less xs) ∙ omega (arith, total-sort_stable xs)

  length-insert_by :
      (x : Creative) (ys : List Creative) → length (insert_by less x ys) ≡ suc (length ys)
  unfolding insert_by
  length-insert_by x [] = refl
  length-insert_by x (y ∷ ys) = elim (Bool-cases (less y x)) [
    | inl e ↦ rw e (ap suc (length-insert_by x ys))
    | inr e ↦ rw e refl
  ]

  pub length-sort_stable : (xs : List Creative) → length (sort_stable less xs) ≡ length xs
  unfolding sort_stable
  length-sort_stable [] = refl
  length-sort_stable (x ∷ xs) =
      length-insert_by x (sort_stable less xs) ∙ ap suc (length-sort_stable xs)

-- ===== src/Schedule/Split.antt =====
-- Where a moment falls in a schedule whose entries follow one another.
use fast_tv_playout_core.Base.{ℕ, ◌≤◌, ◌<◌, ◌≡◌, refl, ap, List, [], ◌∷◌, ◌++◌, arith, All, dec_lt}
use fast_tv_playout_core.Schedule.{Entry}
use fast_tv_playout_core.Schedule.Air.{finish, IsSound, Follows, Over, end_of-finish}

-- Between two entries, or inside one. The entries in front are over.
pub data Shape (lo at : ℕ) (es : List Entry) : Type 0 where
  between :
      (pre post : List Entry)
      → es ≡ pre ++ post
      → All (Over at) pre
      → Follows at post
      → Shape lo at es
  inside :
      (pre : List Entry) (e : Entry) (post : List Entry)
      → es ≡ pre ++ e ∷ post
      → All (Over e.start) pre
      → lo ≤ e.start
      → IsSound e
      → e.start < at
      → at < finish e
      → Follows (finish e) post
      → Shape lo at es

module _ (lo at : ℕ) (e : Entry) (es : List Entry) (f : Follows lo (e ∷ es)) where
  ended : {t : ℕ} → finish e ≤ t → Over t e
  ended h = rw (end_of-finish e f.1) (omega (arith, f.1.positive), h)

  Shape-cons : finish e ≤ at → Shape (finish e) at es → Shape lo at (e ∷ es)
  Shape-cons h (between pre post eq over rest) =
      between (e ∷ pre) post (ap (λ l. e ∷ l) eq) (ended h, over) rest
  Shape-cons h (inside pre x post eq over low s b c rest) =
      inside (e ∷ pre) x post (ap (λ l. e ∷ l) eq) (ended low, over) (omega arith) s b c rest

  Shape-head : at < finish e → Shape lo at (e ∷ es)
  Shape-head h = elim (dec_lt e.start at) [
    | yes b ↦ inside [] e es refl tt f.0 f.1 b h f.2
    | no b ↦ between [] (e ∷ es) refl tt (omega arith, f.1, f.2)
  ]

pub Shape-total : (lo at : ℕ) (es : List Entry) → Follows lo es → Shape lo at es
Shape-total lo at [] f = between [] [] refl tt tt
Shape-total lo at (e ∷ es) f =
    let rest = Shape-total (finish e) at es f.2 in
    elim (dec_lt at (finish e)) [
      | yes h ↦ Shape-head lo at e es f h
      | no h ↦ Shape-cons lo at e es f (omega arith) rest
    ]

-- What is over at one moment is over at a later one.
pub Over-mono : (a b : ℕ) (es : List Entry) → a ≤ b → All (Over a) es → All (Over b) es
Over-mono a b [] h o = tt
Over-mono a b (e ∷ es) h o = ((o.0.0, omega arith), Over-mono a b es h o.1)

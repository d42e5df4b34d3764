-- ===== src/Filler/Fills.antt =====
-- fillBreak: what it plays, and that it fills the break.
use fast_tv_playout_core.Base.{
  ℕ, zero, ◌^◌, ◌⊎◌, suc, ◌+◌, ◌≤◌, ◌<◌, ◌≡◌, Bool, true, false, List, [], ◌∷◌, ltb, leb,
  if◌then◌else◌, sort_stable, All, String,
}
use fast_tv_playout_core.Filler.{
  Creative, total, last_of, chosen, best_subset, usable, is_usable, longer_first,
}

-- The house creatives and the padding with sums that do not wrap.
house_of : ℕ → ℕ → List Creative → List Creative
house_of duration filled [] = []
house_of duration filled (c ∷ house) =
    let added = house_of duration (filled + c.duration) house in
    let rest = house_of duration filled house in
    if leb (filled + c.duration) duration then c ∷ added else rest

pads_of : Creative → ℕ → ℕ → ℕ → List Creative
pads_of pad duration zero filled = []
pads_of pad duration (suc fuel) filled =
    let rest = pads_of pad duration fuel (filled + pad.duration) in
    if ltb filled duration then pad ∷ rest else []

padding_of : List Creative → ℕ → ℕ → List Creative
unfolding pads_of
padding_of [] duration filled = []
padding_of (c ∷ house) duration filled =
    if ltb filled duration then pads_of (last_of c house) duration duration filled else []

-- A length that cannot make a sum wrap.
abbrev pub IsShort : Creative → Type 0
IsShort c = c.duration < 2 ^ 62

module _ (category last : String) (seg : ℕ) where
  IsUsable : Creative → Type 0
  IsUsable c = is_usable category last seg c ≡ true

  module _ (reg : List Creative) (duration : ℕ) (long : 0 < duration) (small : duration < 2 ^ 62)
      (short : All IsShort reg) where
    partner : List Creative
    partner = sort_stable longer_first (usable false category last seg reg)

    house : List Creative
    house = sort_stable longer_first (usable true category last seg reg)

    -- The three parts of a pod.
    best : List Creative
    best = best_subset partner duration

    own : List Creative
    own = house_of duration (total best) house

    rest : List Creative
    rest = padding_of house duration (total best + total own)

-- Without house creatives the break is not overrun; with them it is filled.
abbrev pub Filled : List Creative → ℕ → ℕ → Type 0
Filled [] duration filled = filled ≤ duration
Filled (c ∷ cs) duration filled = duration ≤ filled

-- The creative that a pod keeps out: the one that ended the previous break, or none where that leaves nothing to play.
abbrev pub Excludes : List Creative → ℕ → String → String → ℕ → String → Type 0
Excludes reg duration category last seg out =
    (out ≡ last) ⊎ ((out ≡ "") × (chosen reg duration category last seg ≡ []))

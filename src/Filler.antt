-- ===== src/Filler.antt =====
-- services/engine/filler.go: the static filler, which fills an ad break from a registry of creatives. Lengths are
-- numbers of seconds below 2^63; the sums of fillBreak wrap around at 64 bits, those of bestSubset stay within its limit.
pub mod Table
pub mod Subset
pub mod Order
pub mod Best
pub mod Fills
pub mod Source
pub mod Keeps
mod Tests
use fast_tv_playout_core.Base.{
  ℕ, zero, suc, ◌+◌, ◌-◌, ◌%◌, Bool, true, false, not, ◌&&◌, ◌||◌, ◌==◌, Option, none, some, List,
  [], ◌∷◌, ◌++◌, ltb, leb, if◌then◌else◌, String, str_eq, ℤ, pos, pos_part, length, take, replicate,
  get_or, set, sort_stable, is_nil, wrap64, ◌+ℤ◌, ltb_ℤ,
}
use Prim.Native.String.{compare}
use Prim.Native.Nat.{Ordering}
use fast_tv_playout_core.Clock.{Instant}
use fast_tv_playout_core.Model.{AdItem}

pub record Creative : Type 0 where
  pub id : String
  pub type : String
  pub category : List String
  pub duration : ℕ
  pub uri : String
  pub active : Bool

unfoldable pub has_category : List String → String → Bool
has_category [] want = false
has_category (c ∷ cats) want = str_eq c want || str_eq c "any" || has_category cats want

-- The creatives that the loop over the registry does not skip.
unfoldable pub is_usable : String → String → ℕ → Creative → Bool
is_usable category last seg c =
    not (not c.active || leb c.duration 0 || not (c.duration % seg == 0) || str_eq c.id last)
    && not (
        not (str_eq category "")
        && not (str_eq category "any")
        && not (has_category c.category category))

-- What the loop collects of one kind, in the order of the registry.
unfoldable pub usable : Bool → String → String → ℕ → List Creative → List Creative
usable house category last seg [] = []
usable house category last seg (c ∷ reg) =
    let rest = usable house category last seg reg in
    if is_usable category last seg c
      && (if house then str_eq c.type "house" else not (str_eq c.type "house"))
    then c ∷ rest
    else rest

abbrev pub before_id : String → String → Bool
before_id a b = elim (compare a b) [ Ordering.lt ↦ true | _ ↦ false ]

-- byDuration: the longest first, equal ones by their ids.
abbrev pub longer_first : Creative → Creative → Bool
longer_first a b =
    if not (a.duration == b.duration) then ltb b.duration a.duration else before_id a.id b.id

-- The tables of bestSubset: reach, and the row of `from` of one creative.
pub record Pass : Type 0 where
  pub reach : List (Option ℕ)
  pub from : List Bool

-- The test of the inner loop, on reach[s] and reach[s-c.Duration].
unfoldable pub is_better : Option ℕ → Option ℕ → Bool
is_better here none = false
is_better none (some k) = true
is_better (some r) (some k) = ltb (k + 1) r

abbrev pub one_more : Option ℕ → Option ℕ
one_more none = none
one_more (some k) = some (k + 1)

pub cell : ℕ → ℕ → Pass → Pass
cell d s t =
    let back = get_or t.reach (s - d) none in
    if is_better (get_or t.reach s none) back
    then record { reach = set t.reach s (one_more back); from = set t.from s true }
    else t

-- The inner loop, from s down to the length of the creative.
pub pass : ℕ → ℕ → Pass → Pass
unfolding cell
pass d zero t = if leb d 0 then cell d 0 t else t
pass d (suc s) t = let rest = pass d s (cell d (suc s) t) in if leb d (suc s) then rest else t

-- The rows of `from`, that of the last creative first.
abbrev pub Rows : Type 0
Rows = List (Creative × List Bool)

pub passes : ℕ → List Creative → List (Option ℕ) → Rows → List (Option ℕ) × Rows
unfolding pass
passes limit [] reach rows = (reach, rows)
passes limit (c ∷ pool) reach rows =
    let t = pass c.duration limit (record { reach = reach; from = replicate (suc limit) false }) in
    passes limit pool t.reach ((c, t.from) ∷ rows)

abbrev pub is_some : Option ℕ → Bool
is_some none = false
is_some (some k) = true

-- The largest sum that is reached, from s down.
pub best_sum : List (Option ℕ) → ℕ → ℕ
best_sum reach zero = 0
best_sum reach (suc s) =
    let rest = best_sum reach s in if is_some (get_or reach (suc s) none) then suc s else rest

-- The walk back, from the last creative to the first.
pub walk : Rows → ℕ → List Creative
walk [] s = []
walk ((c, from) ∷ rows) s =
    let used = walk rows (s - c.duration) in
    let unused = walk rows s in if ltb 0 s && get_or from s false then c ∷ used else unused

abbrev pub longer : Creative → Creative → Bool
longer a b = ltb b.duration a.duration

abbrev pub pool_size : ℕ
pool_size = 60

unfoldable pub best_subset : List Creative → ℕ → List Creative
unfolding passes best_sum walk
best_subset pool limit =
    if is_nil pool || leb limit 0
    then []
    else let (reach, rows) =
        passes limit (take pool_size pool) (some 0 ∷ replicate limit none) [] in
      sort_stable longer (walk rows (best_sum reach limit))

-- The house creatives that fit in what is left, each once.
pub add_house : ℕ → ℤ → List Creative → List Creative
add_house duration filled [] = []
add_house duration filled (c ∷ house) =
    let sum = wrap64 (filled +ℤ pos c.duration) in
    let fits = not (ltb_ℤ (pos duration) sum) in
    let rest = add_house duration (if fits then sum else filled) house in
    if fits then c ∷ rest else rest

unfoldable pub total : List Creative → ℕ
total [] = 0
total (c ∷ cs) = c.duration + total cs

-- The shortest creative again and again, on fuel.
pub pad_with : Creative → ℕ → ℕ → ℤ → List Creative
pad_with pad duration zero filled = []
pad_with pad duration (suc fuel) filled =
    let rest = pad_with pad duration fuel (wrap64 (filled +ℤ pos pad.duration)) in
    if ltb_ℤ filled (pos duration) then pad ∷ rest else []

pub last_of : Creative → List Creative → Creative
last_of c [] = c
last_of c (d ∷ cs) = last_of d cs

pub padding : List Creative → ℕ → ℤ → List Creative
unfolding pad_with last_of
padding [] duration filled = []
padding (c ∷ house) duration filled =
    if ltb_ℤ filled (pos duration) then pad_with (last_of c house) duration duration filled else []

unfoldable pub chosen : List Creative → ℕ → String → String → ℕ → List Creative
unfolding add_house padding total
chosen reg duration category last seg =
    let partner = sort_stable longer_first (usable false category last seg reg) in
    let house = sort_stable longer_first (usable true category last seg reg) in
    let best = best_subset partner duration in
    let own = add_house duration (wrap64 (pos (total best))) house in
    best ++ own ++ padding house duration (wrap64 (pos (total best + total own)))

pub item_of : Creative → AdItem
item_of c = record { uri = c.uri; duration_s = pos c.duration; creative_id = c.id; type = c.type }

pub items_of : List Creative → List AdItem
unfolding item_of
items_of [] = []
items_of (c ∷ cs) = item_of c ∷ items_of cs

unfoldable pub fill_break_excluding : List Creative → ℤ → String → String → ℤ → List AdItem
unfolding items_of
fill_break_excluding reg duration category last seg =
    if leb (pos_part duration) 0 || leb (pos_part seg) 0
    then []
    else items_of (chosen reg (pos_part duration) category last (pos_part seg))

unfoldable pub fill_break : List Creative → ℤ → String → String → ℤ → List AdItem
fill_break reg duration category last seg =
    let items = fill_break_excluding reg duration category last seg in
    if is_nil items && not (str_eq last "")
    then fill_break_excluding reg duration category "" seg
    else items

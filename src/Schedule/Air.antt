-- ===== src/Schedule/Air.antt =====
-- What a schedule puts on the air, as the specification of the edits: entries that follow one another, and the
-- picture of a moment.
use fast_tv_playout_core.Base.{
  ℕ, ◌+◌, ◌-◌, ◌*◌, ◌%◌, ◌^◌, ◌≤◌, ◌<◌, ◌≡◌, refl, true, false, Option, none, some, List, [], ◌∷◌,
  ◌++◌, arith, if◌then◌else◌, String, pos, pos_part, All,
}
use mathlib.Core.List.{append-nil}
use fast_tv_playout_core.Clock.{Instant, before, second, seconds_pos}
use fast_tv_playout_core.Schedule.{Entry, Edit, end_of, on_air}

-- The whole seconds that an entry lasts, and the second of its source at which it begins.
abbrev pub lasting : Entry → ℕ
lasting e = pos_part e.duration_s

abbrev pub skipped : Entry → ℕ
skipped e = pos_part e.offset_s

abbrev pub finish : Entry → Instant
finish e = e.start + lasting e * second

-- An entry as the table of the store can hold it: 32-bit durations and offsets of its end, and whole seconds.
pub record IsSound (e : Entry) : Type 0 where
  pub whole : e.start % second ≡ 0
  pub duration : e.duration_s ≡ pos (lasting e)
  pub positive : 0 < lasting e
  pub short : lasting e < 2 ^ 31
  pub offset : e.offset_s ≡ pos (skipped e)
  pub near : skipped e + lasting e < 2 ^ 31

-- Sound entries in order, none of which starts before the one in front of it has ended; the first starts at
-- the bound or later.
abbrev pub Follows : Instant → List Entry → Type 0
Follows lo [] = Unit {0}
Follows lo (e ∷ es) = (lo ≤ e.start) × IsSound e × Follows (finish e) es

-- What a viewer sees at a moment: which entry, and how far into its source (in nanoseconds).
pub record Picture : Type 0 where
  pub type : String
  pub asset_id : String
  pub uri : String
  pub position : ℕ

abbrev pub picture : Instant → Entry → Picture
picture ts e = record {
  type = e.type;
  asset_id = e.asset_id;
  uri = e.uri;
  position = skipped e * second + (ts - e.start);
}

unfoldable pub playing : Instant → List Entry → Option Picture
playing ts [] = none
playing ts (e ∷ es) = if on_air ts e then some (picture ts e) else playing ts es

pub end_of-finish : (e : Entry) → IsSound e → end_of e ≡ finish e
unfolding end_of
end_of-finish e s = ground (arith, seconds_pos (lasting e), s.duration, s.short)

pub on_air_inside :
    (ts : ℕ) (e : Entry) → IsSound e → e.start ≤ ts → ts < finish e → on_air ts e ≡ true
on_air_inside ts e s h k = ground (arith, end_of-finish e s)

pub on_air_early : (ts : ℕ) (e : Entry) → ts < e.start → on_air ts e ≡ false
on_air_early ts e h = ground arith

pub on_air_over : (ts : ℕ) (e : Entry) → end_of e ≤ ts → on_air ts e ≡ false
on_air_over ts e h = ground arith

pub Follows-mono : {lo : ℕ} (hi : ℕ) (es : List Entry) → Follows lo es → hi ≤ lo → Follows hi es
Follows-mono hi [] f h = tt
Follows-mono hi (e ∷ es) f h = (omega arith, f.1, f.2)

-- Before the first entry nothing is on the air.
pub playing_early : (ts lo : ℕ) (es : List Entry) → Follows lo es → ts < lo → playing ts es ≡ none
unfolding playing
playing_early ts lo [] f h = refl
playing_early ts lo (e ∷ es) f h =
    ground (arith, on_air_early ts e, playing_early ts (finish e) es f.2)

-- An entry that has ended by a moment, and not before it began.
abbrev pub Over : Instant → Entry → Type 0
Over t e = (e.start < end_of e) × (end_of e ≤ t)

-- Entries that are over do not matter.
pub playing_over :
    (ts : ℕ) (xs ys : List Entry) → All (Over ts) xs → playing ts (xs ++ ys) ≡ playing ts ys
unfolding playing
playing_over ts [] ys h = refl
playing_over ts (e ∷ es) ys h = ground (arith, on_air_over ts e h.0.1, playing_over ts es ys h.1)

-- What follows the same entries may be exchanged for what plays the same.
pub playing_congr :
    (ts : ℕ) (xs ys zs : List Entry)
    → playing ts ys ≡ playing ts zs
    → playing ts (xs ++ ys) ≡ playing ts (xs ++ zs)
unfolding playing
playing_congr ts [] ys zs h = h
playing_congr ts (e ∷ es) ys zs h = rw (playing_congr ts es ys zs h)

-- The schedule after an edit, in the order of the starts: what starts in the window of the edit is replaced.
pub starting_before : Instant → List Entry → List Entry
starting_before t [] = []
starting_before t (e ∷ es) =
    let rest = starting_before t es in if before e.start t then e ∷ rest else rest

pub starting_from : Instant → List Entry → List Entry
starting_from t [] = []
starting_from t (e ∷ es) =
    let rest = starting_from t es in if before e.start t then rest else e ∷ rest

pub apply_edit : Edit → List Entry → List Entry
apply_edit ed es = starting_before ed.from es ++ ed.entries ++ starting_from ed.to es

starting_before_late : (t : ℕ) (es : List Entry) → Follows t es → starting_before t es ≡ []
unfolding starting_before
starting_before_late t [] f = refl
starting_before_late t (e ∷ es) f =
    ground (arith, starting_before_late t es (Follows-mono t es f.2 (omega (arith, f.0))))

starting_before_over :
    (t : ℕ) (pre post : List Entry)
    → All (Over t) pre
    → Follows t post
    → starting_before t (pre ++ post) ≡ pre
unfolding starting_before
starting_before_over t [] post o f = starting_before_late t post f
starting_before_over t (e ∷ pre) post o f = ground (arith, starting_before_over t pre post o.1 f)

starting_from_none : (t : ℕ) (es : List Entry) → All (λ e. e.start < t) es → starting_from t es ≡ []
unfolding starting_from
starting_from_none t [] h = refl
starting_from_none t (e ∷ es) h = ground (arith, starting_from_none t es h.1)

-- An edit of which everything later than its start is replaced.
pub apply_edit_lem :
    (ed : Edit) (pre post : List Entry)
    → All (Over ed.from) pre
    → Follows ed.from post
    → All (λ e. e.start < ed.to) (pre ++ post)
    → apply_edit ed (pre ++ post) ≡ pre ++ ed.entries
unfolding apply_edit
apply_edit_lem ed pre post o f h = rw (
  starting_before_over ed.from pre post o f,
  starting_from_none ed.to (pre ++ post) h,
  append-nil,
)

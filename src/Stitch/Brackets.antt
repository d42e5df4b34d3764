-- ===== src/Stitch/Brackets.antt =====
-- The EXT-X-DATERANGE lines of ad breaks in the playlist: a player can follow them.
use fast_tv_playout_core.Base.{
  ℕ, ◌≤◌, ◌≡◌, Bool, true, false, ◌||◌, ◌==◌, ◌⊎◌, Option, none, some, List, [], ◌∷◌, if◌then◌else◌,
  String, str_eq, ℤ,
}
use fast_tv_playout_core.Clock.{Instant, is_zero}
use fast_tv_playout_core.Config.{Config}
use fast_tv_playout_core.Model.{ClipItem}
use fast_tv_playout_core.Stitch.{Tag, date_range_out, date_range_in, cue_out, cue_in, Stitcher}
use fast_tv_playout_core.Stitch.Tags.{break_tags}
use fast_tv_playout_core.Stitch.Add.{Handed, add_clip}

-- What is known of the ad break that is on, from the EXT-X-DATERANGE lines and the segments behind them: there is none,
-- or one whose start was heard, or one whose first second was not among the segments.
pub data Player : Type 0 where
  quiet : Player
  hears missed : Instant → Player

-- A line that is heard. Neither a start within a break can be followed, nor an end without a break, nor the end of
-- another break than the one that is on.
unfoldable pub hear : Player → Tag → Option Player
hear quiet (date_range_out id b secs payload) = some (hears b)
hear (hears a) (date_range_out id b secs payload) = none
hear (missed a) (date_range_out id b secs payload) = none
hear quiet (date_range_in id b secs payload) = none
hear (hears a) (date_range_in id b secs payload) = if a == b then some quiet else none
hear (missed a) (date_range_in id b secs payload) = if a == b then some quiet else none
hear p (cue_out secs) = some p
hear p cue_in = some p

-- The segment behind its lines, in a mode with these lines or in another one. The break that is on must be that of the
-- segment, and the first second of a break must have its start; a break may only begin unheard with a later second.
unfoldable pub watch : Bool → ClipItem → Player → Option Player
watch false c quiet = some quiet
watch false c (hears a) = none
watch false c (missed a) = none
watch true c quiet =
    if is_zero c.break_start
    then some quiet
    else if c.start_at == c.break_start
    then none
    else some (missed c.break_start)
watch true c (hears a) = if a == c.break_start then some (hears a) else none
watch true c (missed a) = if a == c.break_start then some (missed a) else none

pub after_tag : Option Player → (Player → Option Player) → Option Player
after_tag none rest = none
after_tag (some p) rest = rest p

unfoldable pub hear_all : Player → List Tag → Option Player
unfolding hear after_tag
hear_all p [] = some p
hear_all p (t ∷ ts) = after_tag (hear p t) (λ q. hear_all q ts)

-- Segments with their lines, one after the other.
unfoldable pub follow : Bool → Player → List (ClipItem × List Tag) → Option Player
unfolding hear_all watch
follow d p [] = some p
follow d p ((c, ts) ∷ rest) =
    after_tag (hear_all p ts) (λ q. after_tag (watch d c q) (λ r. follow d r rest))

unfoldable pub date_mode : String → Bool
date_mode mode = str_eq mode "daterange" || str_eq mode "both"

-- What is known when a segment of a break was the last one; zero is no break.
unfoldable pub Stands : Bool → Player → Instant → Type 0
Stands false p a = p ≡ quiet
Stands true p a =
    ((is_zero a ≡ true) × (p ≡ quiet)) ⊎ ((is_zero a ≡ false) × ((p ≡ hears a) ⊎ (p ≡ missed a)))

-- What is known behind the start of a break, where none is on.
abbrev begun_at : Bool → Instant → Player
begun_at d b = if d then hears b else quiet

-- Behind the end of the last break, where it is over.
abbrev Between : Bool → Player → Instant → Instant → Type 0
Between d p a b = (p ≡ quiet) ⊎ ((a ≡ b) × (is_zero b ≡ false) × Stands d p b)

module _ (parse : String → Option (List ℕ)) where
  -- The lines of a segment, and the segment.
  abbrev HeardClip : Config → ClipItem → Player → List Tag → Type 0
  HeardClip cfg c p ts =
      (q : Player) × (hear_all p ts ≡ some q)
      × ((r : Player) × (watch (date_mode cfg.scte35_tags) c q ≡ some r)
          × Stands (date_mode cfg.scte35_tags) r c.break_start)

-- What a player knows of a stitcher.
pub record Listens (cfg : Config) (p : Player) (s : Stitcher) : Type 0 where
  pub stands : Stands (date_mode cfg.scte35_tags) p s.prev_avail
  pub begun : s.prev_avail ≤ s.last_start

module _ (parse : String → Option (List ℕ)) (seg_name : ℤ → String) (cfg : Config) where
  -- The segments that are added, one after the other: the clip, and the tags.
  pub told : Stitcher → List Handed → List (ClipItem × List Tag)
  told s [] = []
  told s (h ∷ hs) =
      let r = add_clip parse seg_name h.prepare cfg h.disk s h.clip in
      let rest = told r.2 hs in if r.0 then (h.clip, break_tags parse cfg s h.clip) ∷ rest else rest

  abbrev HeardAdd : Player → Stitcher → ClipItem → Bool × Stitcher → Type 0
  HeardAdd p s c r =
      (q : Player) × ((rest : List (ClipItem × List Tag)) (x : Player)
        → follow (date_mode cfg.scte35_tags) q rest ≡ some x
        → follow (date_mode cfg.scte35_tags) p
            (if r.0 then (c, break_tags parse cfg s c) ∷ rest else rest)
          ≡ some x)
      × Listens cfg q r.1

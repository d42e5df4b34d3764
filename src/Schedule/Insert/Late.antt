-- ===== src/Schedule/Insert/Late.antt =====
-- InsertShift between two entries: the new one plays at its moment, and the later ones after it.
use fast_tv_playout_core.Base.{
  ℕ, ◌+◌, ◌-◌, ◌*◌, ◌%◌, ◌≤◌, ◌<◌, ◌≡◌, sym, ap, ◌∙◌, Option, some, List, [], ◌∷◌, ◌++◌, map, arith,
  if◌then◌else◌, pos, All, dec_lt, lt→ltb, le→ltb, ltb,
}
use fast_tv_playout_core.Clock.{second}
use fast_tv_playout_core.Schedule.{Entry}
use fast_tv_playout_core.Schedule.Air.{
  lasting, finish, IsSound, Follows, Follows-mono, Over, Picture, playing, picture, end_of-finish,
  on_air_inside, on_air_over, playing_early, playing_over, playing_congr,
}
use fast_tv_playout_core.Schedule.Insert.{delayed, last_end}
use fast_tv_playout_core.Schedule.Split.{Over-mono}
use fast_tv_playout_core.Schedule.Insert.Parts.{playing-delayed}

delayed-IsSound : (d : ℕ) (e : Entry) → IsSound e → d % second ≡ 0 → IsSound (delayed (pos d) e)
unfolding delayed
delayed-IsSound d e s v = record {
  whole = omega (arith, s.whole);
  duration = s.duration;
  positive = s.positive;
  short = s.short;
  offset = s.offset;
  near = s.near;
}

pub Follows-delayed :
    (d lo : ℕ) (es : List Entry)
    → d % second ≡ 0
    → Follows lo es
    → Follows (lo + d) (map (delayed (pos d)) es)
Follows-delayed d lo [] v f = tt
Follows-delayed d lo (e ∷ es) v f = (
  later,
  delayed-IsSound d e f.1 v,
  Follows-mono (finish (delayed (pos d) e)) _ (Follows-delayed d (finish e) es v f.2) ends,
)
  where
    later : lo + d ≤ (delayed (pos d) e).start
    later = unfold delayed in omega (arith, f.0)

    ends : finish (delayed (pos d) e) ≤ finish e + d
    ends = unfold delayed in omega arith

-- The moment ahead of which every entry starts.
pub last_end-above :
    (e : Entry) (es : List Entry) → IsSound e → Follows (finish e) es → finish e ≤ last_end e es
unfolding last_end
last_end-above e [] s f = omega (arith, end_of-finish e s)
last_end-above e (x ∷ es) s f = omega (arith, last_end-above x es f.1 f.2, f.1.positive, f.0)

pub starts_under :
    (t : ℕ) (e : Entry) (es : List Entry)
    → IsSound e
    → Follows (finish e) es
    → last_end e es ≤ t
    → All (λ x. x.start < t) (e ∷ es)
unfolding last_end
starts_under t e [] s f h = (omega (arith, end_of-finish e s, s.positive), tt)
starts_under t e (x ∷ es) s f h = (
  omega (arith, last_end-above x es f.1 f.2, s.positive, f.0, f.1.positive),
  starts_under t x es f.1 f.2 h,
)

pub starts_undelayed :
    (d t : ℕ) (es : List Entry)
    → All (λ x. x.start < t) (map (delayed (pos d)) es)
    → All (λ x. x.start < t) es
unfolding delayed
starts_undelayed d t [] h = tt
starts_undelayed d t (e ∷ es) h = (omega (arith, h.0), starts_undelayed d t es h.1)

pub starts_over : (a t : ℕ) (es : List Entry) → a ≤ t → All (Over a) es → All (λ x. x.start < t) es
starts_over a t [] h o = tt
starts_over a t (e ∷ es) h o = (omega (arith, o.0), starts_over a t es h o.1)

-- The air that the command asks for: the old one up to the moment, the new entry for as long as it lasts, and
-- then the old air, later.
abbrev pub aired : ℕ → ℕ → Entry → List Entry → ℕ → Option Picture
aired at d placed es ts =
    if ltb ts at
    then playing ts es
    else if ltb ts (at + d)
    then some (picture ts placed)
    else playing (ts - d) es

abbrev pub delay_of : Entry → ℕ
delay_of p = lasting p * second

module _ (p : Entry) (s : IsSound p) (ts : ℕ) where
  pub playing_placed :
      (xs : List Entry) → p.start ≤ ts → ts < finish p → playing ts (p ∷ xs) ≡ some (picture ts p)
  unfolding playing
  playing_placed xs h k = rw (on_air_inside ts p s h k)

  pub playing_past : (xs : List Entry) → finish p ≤ ts → playing ts (p ∷ xs) ≡ playing ts xs
  unfolding playing
  playing_past xs h = rw (on_air_over ts p (rw (end_of-finish p s) h))

module _ (p : Entry) (s : IsSound p) (ts : ℕ) (pre post : List Entry)
    (f : Follows p.start post) where
  abbrev pub late : List Entry
  late = map (delayed (pos (delay_of p))) post

  pub late-Follows : Follows (finish p) late
  late-Follows = Follows-delayed (delay_of p) p.start post (omega arith) f

  -- Beyond the new entry the old air follows.
  pub playing-late : finish p ≤ ts → playing ts late ≡ playing (ts - delay_of p) post
  playing-late h =
      rw (← playing-delayed (delay_of p) (ts - delay_of p) p.start post f)
        (ap (λ t. playing t (map (delayed (pos (delay_of p))) post)) (omega arith))

  pub playing_between :
      All (Over p.start) pre
      → playing ts (pre ++ p ∷ late) ≡ aired p.start (delay_of p) p (pre ++ post) ts
  playing_between o = elim (dec_lt ts p.start) [
    | yes h ↦ rw (lt→ltb ts p.start h) (
        playing_congr ts pre (p ∷ late) post (
          playing_early ts p.start (p ∷ late) (omega arith, s, late-Follows) h
          ∙ sym (playing_early ts p.start post f h)))
    | no h ↦ elim (dec_lt ts (finish p)) [
      | yes k ↦
          rw (le→ltb ts p.start (omega arith), lt→ltb ts (finish p) k)
            (playing_over ts pre (p ∷ late) (Over-mono p.start ts pre (omega arith) o)
              ∙ playing_placed p s ts late (omega arith) k)
      | no k ↦
          rw (le→ltb ts p.start (omega arith), le→ltb ts (finish p) (omega arith))
            (playing_over ts pre (p ∷ late) (Over-mono p.start ts pre (omega arith) o)
              ∙ playing_past p s ts late (omega arith)
              ∙ playing-late (omega arith)
              ∙ sym (
                  playing_over (ts - delay_of p) pre post
                    (Over-mono p.start _ pre (omega arith) o)))
    ]
  ]

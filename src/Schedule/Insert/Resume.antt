-- ===== src/Schedule/Insert/Resume.antt =====
-- InsertShift inside an entry: its second part goes on from the frame at which the first one stopped.
use fast_tv_playout_core.Base.{
  ℕ, ◌-◌, ◌≤◌, ◌<◌, ◌≡◌, refl, sym, ap, ◌∙◌, some, List, ◌∷◌, ◌++◌, map, arith, if◌then◌else◌, pos,
  All, dec_lt, ltb, lt→ltb, le→ltb,
}
use fast_tv_playout_core.Schedule.{Entry, first_part}
use fast_tv_playout_core.Schedule.Air.{
  finish, IsSound, Follows, Follows-mono, Over, playing, picture, end_of-finish, playing_early,
  playing_over, playing_congr,
}
use fast_tv_playout_core.Schedule.Insert.{second_part, delayed}
use fast_tv_playout_core.Schedule.Split.{Over-mono}
use fast_tv_playout_core.Schedule.Insert.Parts.{
  playing-delayed, first_part_start, end_of-first_part, first_part-IsSound, second_part-lem,
  second_part-IsSound, finish-second_part, playing-second_part,
}
use fast_tv_playout_core.Schedule.Insert.Late.{
  playing_placed, playing_past, delay_of, aired, Follows-delayed,
}

module _ (p : Entry) (s : IsSound p) (ts : ℕ) (pre : List Entry) (e : Entry) (post : List Entry)
    (se : IsSound e) (b : e.start < p.start) (c : p.start < finish e)
    (f : Follows (finish e) post) where
  abbrev pub first : Entry
  first = first_part p.start e

  abbrev pub second_half : Entry
  second_half = second_part p.start (pos (delay_of p)) e

  abbrev pub rest : List Entry
  rest = second_half ∷ map (delayed (pos (delay_of p))) post

  pub second_half-start : second_half.start ≡ finish p
  second_half-start = ap (λ (x : Entry). x.start) (second_part-lem p.start (delay_of p) e se b c)

  pub rest-Follows : Follows (finish p) rest
  rest-Follows = (
    omega (arith, second_half-start),
    second_part-IsSound p.start (delay_of p) e se b c s.whole (omega arith),
    Follows-mono _ _ (Follows-delayed (delay_of p) (finish e) post (omega arith) f)
        (omega (arith, finish-second_part p.start (delay_of p) e se b c s.whole)),
  )

  finish-first : finish first ≡ p.start
  finish-first =
      sym (end_of-finish first (first_part-IsSound p.start e se s.whole b c))
      ∙ end_of-first_part p.start e se s.whole b c

  pub edited-Follows : Follows e.start (first ∷ p ∷ rest)
  edited-Follows = (
    omega (arith, first_part_start p.start e),
    first_part-IsSound p.start e se s.whole b c,
    (omega (arith, finish-first), s, rest-Follows),
  )

  playing-rest : finish p ≤ ts → playing ts rest ≡ playing (ts - delay_of p) (e ∷ post)
  playing-rest h =
      ap (λ t. playing t rest) (omega arith)
      ∙ playing-second_part p.start (delay_of p) e se b c (ts - delay_of p) _ post s.whole
          (omega arith) (omega arith)
          (playing-delayed (delay_of p) (ts - delay_of p) (finish e) post f)

  picture-first : some (picture ts first) ≡ some (picture ts e)
  unfolding first_part
  picture-first = refl

  -- Up to the moment the first part shows what the entry showed.
  playing-first : ts < p.start → playing ts (first ∷ p ∷ rest) ≡ playing ts (e ∷ post)
  playing-first h = elim (dec_lt ts e.start) [
    | yes k ↦
        playing_early ts e.start (first ∷ p ∷ rest) edited-Follows k
        ∙ sym (playing_early ts e.start (e ∷ post) (omega arith, se, f) k)
    | no k ↦
        playing_placed first (first_part-IsSound p.start e se s.whole b c) ts (p ∷ rest)
          (omega (arith, first_part_start p.start e)) (omega (arith, finish-first))
        ∙ picture-first
        ∙ sym (playing_placed e se ts post (omega arith) (omega arith))
  ]

  pub playing_inside :
      All (Over e.start) pre
      → playing ts (pre ++ first ∷ p ∷ rest) ≡ aired p.start (delay_of p) p (pre ++ e ∷ post) ts
  playing_inside o = elim (dec_lt ts p.start) [
    | yes h ↦
        rw (lt→ltb ts p.start h)
          (playing_congr ts pre (first ∷ p ∷ rest) (e ∷ post) (playing-first h))
    | no h ↦ rw (le→ltb ts p.start (omega arith)) (
        playing_over ts pre (first ∷ p ∷ rest) (Over-mono e.start ts pre (omega arith) o)
        ∙ playing_past first (first_part-IsSound p.start e se s.whole b c) ts (p ∷ rest)
            (omega (arith, finish-first))
        ∙ playing-from_moment (omega arith))
  ]
    where
      playing-from_moment :
          p.start ≤ ts
          → playing ts (p ∷ rest) ≡ (
              if ltb ts (finish p)
              then some (picture ts p)
              else playing (ts - delay_of p) (pre ++ e ∷ post))
      playing-from_moment h = elim (dec_lt ts (finish p)) [
        | yes k ↦ rw (lt→ltb ts (finish p) k) (playing_placed p s ts rest h k)
        | no k ↦ rw (le→ltb ts (finish p) (omega arith)) (
            playing_past p s ts rest (omega arith)
            ∙ playing-rest (omega arith)
            ∙ sym (
                playing_over (ts - delay_of p) pre (e ∷ post)
                  (Over-mono e.start _ pre (omega arith) o)))
      ]

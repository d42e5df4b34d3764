-- ===== src/Schedule/Insert/Parts.antt =====
-- InsertShift, part by part: the loop, the two parts of the entry that is cut, and the entries that are put off.
use fast_tv_playout_core.Base.{
  ℕ, ◌+◌, ◌-◌, ◌/◌, ◌%◌, ◌≤◌, ◌<◌, ◌≡◌, refl, List, [], ◌∷◌, ◌++◌, map, arith, pos, All, wrap64_pos,
  ◌+ℤ◌,
}
use mathlib.Core.List.{append_assoc, append-nil}
use fast_tv_playout_core.Clock.{second, seconds_pos, sub_pos}
use fast_tv_playout_core.Schedule.{Entry, end_of, first_part}
use fast_tv_playout_core.Schedule.Air.{
  lasting, skipped, finish, IsSound, Follows, Over, playing, end_of-finish,
}
use fast_tv_playout_core.Schedule.Insert.{Cut, cut_loop, cut_step, second_part, delayed}

-- Entries that start at the moment or later are all put off.
pub cut_loop_late :
    (at n lo : ℕ) (c : Cut) (es : List Entry)
    → at ≤ lo
    → Follows lo es
    → cut_loop at (pos n) c es ≡ record c { later = c.later ++ map (delayed (pos n)) es }
unfolding cut_loop cut_step
cut_loop_late at n lo c [] h f = ground (arith, append-nil c.later)
cut_loop_late at n lo c (e ∷ es) h f = ground (
  arith,
  end_of-finish e f.1,
  f.1.positive,
  cut_loop_late at n (finish e) (record c { later = c.later ++ delayed (pos n) e ∷ [] }) es,
  append_assoc c.later (delayed (pos n) e ∷ []) (map (delayed (pos n)) es),
)

-- Entries that are over are passed by.
pub cut_loop_over :
    (at n : ℕ) (c : Cut) (pre es : List Entry)
    → All (Over at) pre
    → cut_loop at (pos n) c (pre ++ es) ≡ cut_loop at (pos n) c es
unfolding cut_loop cut_step
cut_loop_over at n c [] es o = refl
cut_loop_over at n c (e ∷ pre) es o = ground (arith, cut_loop_over at n c pre es o.1)

pub end_of-delayed : (n : ℕ) (e : Entry) → IsSound e → end_of (delayed (pos n) e) ≡ end_of e + n
unfolding end_of delayed
end_of-delayed n e s = ground (arith, seconds_pos (lasting e), s.duration, s.short)

-- The air of entries that are put off is the old air, later.
pub playing-delayed :
    (n ts lo : ℕ) (es : List Entry)
    → Follows lo es
    → playing (ts + n) (map (delayed (pos n)) es) ≡ playing ts es
unfolding playing delayed
playing-delayed n ts lo [] f = refl
playing-delayed n ts lo (e ∷ es) f =
    ground
      (arith, end_of-finish e f.1, end_of-delayed n e f.1, playing-delayed n ts (finish e) es f.2)

pub first_part_duration :
    (at : ℕ) (e : Entry)
    → IsSound e
    → e.start < at
    → at < finish e
    → (first_part at e).duration_s ≡ pos ((at - e.start) / second)
unfolding first_part
first_part_duration at e s b c = ground (arith, sub_pos at e.start, s.short)

pub first_part_start : (at : ℕ) (e : Entry) → (first_part at e).start ≡ e.start
unfolding first_part
first_part_start at e = refl

-- The part before the moment ends at it.
pub end_of-first_part :
    (at : ℕ) (e : Entry)
    → IsSound e
    → at % second ≡ 0
    → e.start < at
    → at < finish e
    → end_of (first_part at e) ≡ at
unfolding end_of
end_of-first_part at e s w b c = ground (
  arith,
  first_part_duration at e s,
  first_part_start at e,
  seconds_pos ((at - e.start) / second),
  s.whole,
  s.short,
)

pub first_part-IsSound :
    (at : ℕ) (e : Entry)
    → IsSound e
    → at % second ≡ 0
    → e.start < at
    → at < finish e
    → IsSound (first_part at e)
unfolding first_part
first_part-IsSound at e s w b c =
    let l = sub_pos at e.start in
    record {
      whole = s.whole;
      duration = ground (arith, l, s.short);
      positive = ground (arith, l, s.short, s.whole);
      short = ground (arith, l, s.short);
      offset = s.offset;
      near = ground (arith, l, s.short, s.near);
    }

module _ (at d : ℕ) (e : Entry) (s : IsSound e) (b : e.start < at) (c : at < finish e) where
  pub second_part-lem : second_part at (pos d) e ≡ record e {
    start = at + d;
    duration_s = pos ((finish e - at) / second);
    offset_s = pos (skipped e + (at - e.start) / second);
  }
  unfolding second_part first_part ◌+ℤ◌
  second_part-lem = ground (
    arith,
    end_of-finish e s,
    sub_pos (finish e) at,
    sub_pos at e.start,
    wrap64_pos (skipped e + (at - e.start) / second),
    s.short,
    s.near,
    s.offset,
  )

  pub second_part-IsSound : at % second ≡ 0 → d % second ≡ 0 → IsSound (second_part at (pos d) e)
  second_part-IsSound w v = rw second_part-lem (record {
    whole = ground (arith);
    duration = refl;
    positive = ground (arith, s.whole);
    short = ground (arith, s.short);
    offset = refl;
    near = ground (arith, s.near, s.whole);
  })

  pub finish-second_part : at % second ≡ 0 → finish (second_part at (pos d) e) ≡ finish e + d
  finish-second_part w = rw second_part-lem (omega (arith, s.whole))

  -- The second part shows what the entry would have shown.
  pub playing-second_part :
      (ts : ℕ) (xs ys : List Entry)
      → at % second ≡ 0
      → d % second ≡ 0
      → at ≤ ts
      → playing (ts + d) xs ≡ playing ts ys
      → playing (ts + d) (second_part at (pos d) e ∷ xs) ≡ playing ts (e ∷ ys)
  unfolding playing
  playing-second_part ts xs ys w v h rest = ground (
    arith,
    end_of-finish e s,
    end_of-finish (second_part at (pos d) e) (second_part-IsSound w v),
    second_part-lem,
    rest,
    s.whole,
  )

-- ===== src/Schedule/Skip/Correct.antt =====
-- What Skip does to the air: the entry ends at the moment, and those back to back with it play ahead of time.
use fast_tv_playout_core.Base.{
  ℕ, ◌+◌, ◌-◌, ◌%◌, ◌≤◌, ◌<◌, ◌≡◌, refl, sym, ap, subst, ◌∙◌, true, Option, none, some, List, [],
  ◌∷◌, ◌++◌, arith, if◌then◌else◌, pos, All, All-append, dec_lt, ltb, Bool-cases, inl, inr, lt→ltb,
  le→ltb,
}
use fast_tv_playout_core.Clock.{Instant, second}
use fast_tv_playout_core.Schedule.{
  Entry, Edit, ok, err, nothing_scheduled, first_part, end_of, on_air,
}
use fast_tv_playout_core.Schedule.Air.{
  finish, IsSound, Follows, Over, Picture, playing, picture, end_of-finish, on_air_inside,
  on_air_over, playing_early, playing_over, playing_congr, apply_edit, apply_edit_lem, Follows-mono,
}
use fast_tv_playout_core.Schedule.Skip.{Pull, pull_loop, find_on_air, finish_skip, skip, is_empty}
use fast_tv_playout_core.Clock.{sub_pos}
use fast_tv_playout_core.Schedule.Split.{Over-mono}
use fast_tv_playout_core.Schedule.Insert.Parts.{
  first_part_start, first_part-IsSound, end_of-first_part,
}
use fast_tv_playout_core.Schedule.Insert.Late.{starts_over, playing_placed, playing_past}
use fast_tv_playout_core.Schedule.Skip.Run.{
  pulled_up, run_end, ahead, pull_loop_lem, pull_loop_to, playing-pulled_up, ahead-cons,
  Follows-pulled_up, is_empty-pulled_up, run_end-above,
}

-- The air that Skip asks for: the old one up to the moment; then the run behind the entry, ahead of time.
abbrev pub skipped_air : ℕ → ℕ → Instant → List Entry → ℕ → Option Picture
skipped_air at n end es ts = if ltb ts at then playing ts es else ahead n end es ts

-- The entries in front of one are over when it starts.
pub Follows-middle :
    (lo : ℕ) (pre : List Entry) (e : Entry) (post : List Entry)
    → Follows lo (pre ++ e ∷ post)
    → All (Over e.start) pre × (lo ≤ e.start) × IsSound e × Follows (finish e) post
Follows-middle lo [] e post f = (tt, f.0, f.1, f.2)
Follows-middle lo (x ∷ pre) e post f =
    let r = Follows-middle (finish x) pre e post f.2 in
    (
      ((rw (end_of-finish x f.1) (omega (arith, f.1.positive)), rw (end_of-finish x f.1) r.1), r.0),
      omega (arith, r.1, f.0),
      r.2,
      r.3,
    )

find_on_air-middle :
    (at : ℕ) (pre : List Entry) (e : Entry) (post : List Entry)
    → All (Over at) pre
    → on_air at e ≡ true
    → find_on_air at (pre ++ e ∷ post) ≡ some (e, post)
unfolding find_on_air
find_on_air-middle at [] e post o h = rw h
find_on_air-middle at (x ∷ pre) e post o h =
    rw (on_air_over at x o.0.1) (find_on_air-middle at pre e post o.1 h)

-- Where nothing is on the air, no entry is found.
find_on_air-none : (at : ℕ) (es : List Entry) → playing at es ≡ none → find_on_air at es ≡ none
unfolding find_on_air playing
find_on_air-none at [] h = refl
find_on_air-none at (e ∷ es) h = elim (Bool-cases (on_air at e)) [
  | inl b ↦ absurd (ground arith)
  | inr b ↦ rw b (find_on_air-none at es (rw b at h))
]

-- Where nothing is on the air at a whole second, Skip says so.
skip_nothing :
    (es : List Entry) (at : ℕ)
    → at % second ≡ 0
    → playing at es ≡ none
    → skip es at ≡ err nothing_scheduled
unfolding skip
skip_nothing es at w h = ground (arith, find_on_air-none at es h)

module _ (pre : List Entry) (cur : Entry) (rest : List Entry) (at : ℕ)
    (f : Follows 0 (pre ++ cur ∷ rest)) (w : at % second ≡ 0) (l : cur.start ≤ at)
    (h : at < finish cur) where
  abbrev n : ℕ
  n = finish cur - at

  abbrev all : List Entry
  all = pre ++ cur ∷ rest

  s : IsSound cur
  s = (Follows-middle 0 pre cur rest f).2

  abbrev kept : List Entry
  kept = if ltb cur.start at then first_part at cur ∷ [] else []

  begin : Pull
  begin = record { prev_end = finish cur; chain = true; to = finish cur; entries = kept }

  done : Pull
  unfolding begin
  done = pull_loop (pos n) begin rest

  last_to : Instant
  unfolding done is_empty
  last_to = if is_empty done.entries then finish cur else done.to

  abbrev edit : Edit
  edit = record { from = cur.start; to = last_to; entries = done.entries }

  finish_skip_lem : finish_skip at cur rest ≡ edit
  unfolding finish_skip done begin last_to
  finish_skip_lem =
      rw (end_of-finish cur s, sub_pos (finish cur) at (omega arith) (omega (arith, s.short)))

  skip_lem : skip all at ≡ ok edit
  unfolding skip
  skip_lem =
      rw
        (
          find_on_air-middle at pre cur rest
              (Over-mono cur.start at pre l (Follows-middle 0 pre cur rest f).0)
              (on_air_inside at cur s l h),
          skip,
        )
        (ground (arith, finish_skip_lem))

  done-entries : done.entries ≡ kept ++ pulled_up n (finish cur) rest
  unfolding done begin
  done-entries = pull_loop_lem n begin rest refl (Follows-middle 0 pre cur rest f).3

  starts_under_ends :
      (t : ℕ) (lo : ℕ) (es : List Entry)
      → Follows lo es
      → All (λ e. end_of e ≤ t) es
      → All (λ e. e.start < t) es
  starts_under_ends t lo [] g a = tt
  starts_under_ends t lo (e ∷ es) g a = (
    omega (arith, end_of-finish e g.1, g.1.positive, a.0),
    starts_under_ends t (finish e) es g.2 a.1,
  )

  last_to-above : finish cur ≤ last_to
  unfolding last_to done begin
  last_to-above = ground (arith, (pull_loop_to n begin rest).0)

  done-to : All (λ x. end_of x ≤ done.to) rest
  unfolding done
  done-to = (pull_loop_to n begin rest).1

  -- Where something follows, the window ends where the loop says.
  last_to_done : (e : Entry) (es : List Entry) → e ∷ es ≡ rest → last_to ≡ done.to
  unfolding last_to
  last_to_done e es q = rw (
    done-entries ∙ ap (λ x. kept ++ pulled_up n (finish cur) x) (sym q),
    is_empty-pulled_up n (finish cur) kept e es,
  )

  starts_before_last : (r : List Entry) → r ≡ rest → All (λ e. e.start < last_to) r
  starts_before_last [] q = tt
  starts_before_last (e ∷ es) q =
      subst (λ t. All (λ x. x.start < t) (e ∷ es)) (sym (last_to_done e es q))
        (starts_under_ends done.to (finish cur) (e ∷ es)
          (subst (Follows (finish cur)) (sym q) (Follows-middle 0 pre cur rest f).3)
          (subst (All (λ x. end_of x ≤ done.to)) (sym q) done-to))

  last_to-done : (finish cur ≤ last_to) × All (λ e. e.start < last_to) rest
  last_to-done = (last_to-above, starts_before_last rest refl)

  edit-to : All (λ e. e.start < last_to) all
  edit-to =
      All-append _ pre (cur ∷ rest)
        (starts_over cur.start last_to pre (omega (arith, last_to-done.0))
          (Follows-middle 0 pre cur rest f).0)
        (omega (arith, last_to-done.0), last_to-done.1)

  picture-kept : (ts : ℕ) → some (picture ts (first_part at cur)) ≡ some (picture ts cur)
  unfolding first_part
  picture-kept ts = refl

  finish-first : cur.start < at → finish (first_part at cur) ≡ at
  finish-first b =
      sym (end_of-finish (first_part at cur) (first_part-IsSound at cur s w b h))
      ∙ end_of-first_part at cur s w b h

  playing-kept_before :
      (ts : ℕ) (xs : List Entry)
      → ts < at
      → Follows at xs
      → playing ts (kept ++ xs) ≡ playing ts (cur ∷ rest)
  playing-kept_before ts xs j g = elim (dec_lt cur.start at) [
    | yes b ↦ rw (lt→ltb cur.start at b) (elim (dec_lt ts cur.start) [
      | yes k ↦
          playing_early ts cur.start (first_part at cur ∷ xs)
            (
              omega (arith, first_part_start at cur),
              first_part-IsSound at cur s w b h,
              rw (finish-first b) g,
            )
            k
          ∙ sym (
              playing_early ts cur.start (cur ∷ rest)
                (omega arith, s, (Follows-middle 0 pre cur rest f).3) k)
      | no k ↦
          playing_placed (first_part at cur) (first_part-IsSound at cur s w b h) ts xs
            (omega (arith, first_part_start at cur)) (omega (arith, finish-first b))
          ∙ picture-kept ts
          ∙ sym (playing_placed cur s ts rest (omega arith) (omega arith))
    ])
    | no b ↦ rw (le→ltb cur.start at (omega arith)) (
        playing_early ts at xs g j
        ∙ sym (
            playing_early ts cur.start (cur ∷ rest)
              (omega arith, s, (Follows-middle 0 pre cur rest f).3) (omega arith)))
  ]

  playing-kept_after :
      (ts : ℕ) (xs : List Entry) → at ≤ ts → playing ts (kept ++ xs) ≡ playing ts xs
  playing-kept_after ts xs j = elim (dec_lt cur.start at) [
    | yes b ↦ rw (lt→ltb cur.start at b) (
        playing_past (first_part at cur) (first_part-IsSound at cur s w b h) ts xs
          (omega (arith, finish-first b)))
    | no b ↦ rw (le→ltb cur.start at (omega arith))
  ]

  whole_n : n % second ≡ 0
  whole_n = omega (arith, s.whole)

  playing_edited :
      (ts : ℕ)
      → playing ts (pre ++ done.entries) ≡ skipped_air at n (run_end (finish cur) rest) all ts
  playing_edited ts = elim (dec_lt ts at) [
    | yes j ↦
        rw (lt→ltb ts at j, done-entries)
          (playing_congr ts pre (kept ++ up) (cur ∷ rest)
            (playing-kept_before ts up j (Follows-mono at up up-Follows (omega arith))))
    | no j ↦
        rw (le→ltb ts at (omega arith), done-entries)
          (playing_over ts pre (kept ++ up)
              (Over-mono cur.start ts pre (omega arith) (Follows-middle 0 pre cur rest f).0)
            ∙ playing-kept_after ts up (omega arith)
            ∙ playing-pulled_up n (finish cur) ts rest whole_n (omega (arith, s.short))
                (omega arith) (omega arith) (Follows-middle 0 pre cur rest f).3
            ∙ ahead-cons n (run_end (finish cur) rest) ts cur rest s
                (run_end-above (finish cur) rest (Follows-middle 0 pre cur rest f).3) (omega arith)
            ∙ ahead-over ts (omega arith))
  ]
    where
      up : List Entry
      up = pulled_up n (finish cur) rest

      up-Follows : Follows (finish cur - n) up
      up-Follows =
          Follows-pulled_up n (finish cur) rest whole_n (omega (arith, s.short)) (omega arith)
            (Follows-middle 0 pre cur rest f).3

      ahead-over :
          (ts : ℕ)
          → at ≤ ts
          → ahead n (run_end (finish cur) rest) (cur ∷ rest) ts
            ≡ ahead n (run_end (finish cur) rest) all ts
      ahead-over ts j = cc (
        playing_over ts pre (cur ∷ rest)
            (Over-mono cur.start ts pre (omega arith) (Follows-middle 0 pre cur rest f).0),
        playing_over (ts + n) pre (cur ∷ rest)
            (Over-mono cur.start (ts + n) pre (omega arith) (Follows-middle 0 pre cur rest f).0),
      )

-- For a schedule of sound entries that follow one another, with an entry on the air at a whole second, Skip
-- gives an edit; once it is applied, the air before the moment is the old one, what stands back to back behind
-- the skipped entry plays earlier by what was left of that entry, then nothing plays up to the first gap, and
-- from the gap on the air is the old one.
pub skip_airs :
    (pre : List Entry) (cur : Entry) (rest : List Entry) (at : ℕ)
    → Follows 0 (pre ++ cur ∷ rest)
    → at % second ≡ 0
    → cur.start ≤ at
    → at < finish cur
    → (ts : ℕ)
    → (ed : Edit) × (skip (pre ++ cur ∷ rest) at ≡ ok ed)
      × (playing ts (apply_edit ed (pre ++ cur ∷ rest))
          ≡ skipped_air at (finish cur - at) (run_end (finish cur) rest) (pre ++ cur ∷ rest) ts)
skip_airs pre cur rest at f w l h ts = (
  edit pre cur rest at f w l h,
  skip_lem pre cur rest at f w l h,
  ap (playing ts) (
        apply_edit_lem (edit pre cur rest at f w l h) pre (cur ∷ rest)
          (Follows-middle 0 pre cur rest f).0
          (omega arith, s pre cur rest at f w l h, (Follows-middle 0 pre cur rest f).3)
          (edit-to pre cur rest at f w l h))
      ∙ playing_edited pre cur rest at f w l h ts,
)

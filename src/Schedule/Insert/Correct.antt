-- ===== src/Schedule/Insert/Correct.antt =====
-- What InsertShift does: the edit, the air after it, and the check that it passes.
use fast_tv_playout_core.Base.{
  ℕ, ◌<◌, ◌≡◌, refl, false, List, [], ◌∷◌, map, arith, pos, All-append, str_eq, ◌&&◌,
}
use fast_tv_playout_core.Clock.{Instant, seconds_pos}
use fast_tv_playout_core.Schedule.{Entry, Edit, ok, first_part}
use fast_tv_playout_core.Schedule.Air.{
  lasting, finish, IsSound, Follows, playing, end_of-finish, apply_edit, apply_edit_lem,
}
use fast_tv_playout_core.Schedule.Insert.{
  Cut, cut_loop, cut_step, second_part, delayed, insert_shift, finish_cut, break_airs, end_of_all,
  last_end,
}
use fast_tv_playout_core.Schedule.Split.{Shape, between, inside, Shape-total, Over-mono}
use fast_tv_playout_core.Schedule.Insert.Parts.{cut_loop_late, cut_loop_over}
use fast_tv_playout_core.Schedule.Insert.Late.{
  late, late-Follows, playing_between, starts_undelayed, starts_over, starts_under, delay_of, aired,
}
use fast_tv_playout_core.Schedule.Insert.Resume.{rest, rest-Follows, playing_inside, edited-Follows}

-- The edit that the shape of the schedule gives.
abbrev pub entries_of : (p : Entry) {lo : ℕ} {es : List Entry} → Shape lo p.start es → List Entry
entries_of p (between pre post eq over f) = p ∷ map (delayed (pos (delay_of p))) post
entries_of p (inside pre e post eq over low s b c f) =
    first_part p.start e
    ∷ p
    ∷ second_part p.start (pos (delay_of p)) e
    ∷ map (delayed (pos (delay_of p))) post

abbrev pub from_of : (p : Entry) {lo : ℕ} {es : List Entry} → Shape lo p.start es → Instant
from_of p (between pre post eq over f) = p.start
from_of p (inside pre e post eq over low s b c f) = e.start

abbrev pub edit_of : (p : Entry) {lo : ℕ} {es : List Entry} → Shape lo p.start es → Edit
edit_of p sh = record {
  from = from_of p sh;
  to = end_of_all (entries_of p sh);
  entries = entries_of p sh;
}

abbrev start_cut : Instant → Cut
start_cut at = record { from = at; entries = []; later = [] }

cut_step_inside :
    (p e : Entry)
    → IsSound e
    → e.start < p.start
    → p.start < finish e
    → cut_step p.start (pos (delay_of p)) (start_cut p.start) e ≡ record {
      from = e.start;
      entries = first_part p.start e ∷ [];
      later = second_part p.start (pos (delay_of p)) e ∷ [];
    }
unfolding cut_step
cut_step_inside p e s b c = ground (arith, end_of-finish e s)

cut_loop_lem :
    (p : Entry) (lo : ℕ) (es : List Entry) (sh : Shape lo p.start es)
    → finish_cut p (cut_loop p.start (pos (delay_of p)) (start_cut p.start) es) ≡ edit_of p sh
cut_loop_lem p lo es (between pre post eq over f) =
    rw
      (
        eq,
        cut_loop_over p.start (delay_of p) (start_cut p.start) pre post over,
        cut_loop_late p.start (delay_of p) p.start (start_cut p.start) post (omega arith) f,
      )
      (unfold finish_cut in refl)
cut_loop_lem p lo es (inside pre e post eq over low s b c f) =
    rw
      (
        eq,
        cut_loop_over p.start (delay_of p) (start_cut p.start) pre (e ∷ post)
            (Over-mono e.start p.start pre (omega arith) over),
      )
      (unfold cut_loop in
        rw
          (
            cut_step_inside p e s b c,
            cut_loop_late p.start (delay_of p) (finish e) _ post (omega arith) f,
          )
          (unfold finish_cut in refl))

-- In order, and with its last end as its bound.
module _ (p : Entry) (s : IsSound p) (lo : ℕ) (es : List Entry) where
  pub entries-Follows : (sh : Shape lo p.start es) → Follows (from_of p sh) (entries_of p sh)
  entries-Follows (between pre post eq over f) = (omega arith, s, late-Follows p s 0 pre post f)
  entries-Follows (inside pre e post eq over low se b c f) =
      edited-Follows p s 0 pre e post se b c f

  playing_edit :
      (ts : ℕ) (sh : Shape lo p.start es)
      → playing ts (apply_edit (edit_of p sh) es) ≡ aired p.start (delay_of p) p es ts
  playing_edit ts (between pre post eq over f) =
      let later =
        starts_under (last_end p (late p s 0 pre post f)) p (late p s 0 pre post f) s
          (late-Follows p s 0 pre post f) (omega arith) in
      rw
        (
          eq,
          apply_edit_lem (edit_of p {lo = lo} {es = es} (between pre post eq over f)) pre post over
              f
              (All-append _ pre post (starts_over p.start _ pre (omega (arith, later.0)) over)
                (starts_undelayed (delay_of p) _ post later.1)),
        )
        (playing_between p s ts pre post f over)
  playing_edit ts (inside pre e post eq over low se b c f) =
      let tail = rest p s 0 pre e post se b c f in
      let later =
        starts_under (last_end (first_part p.start e) (p ∷ tail)) p tail s
          (rest-Follows p s 0 pre e post se b c f) (unfold last_end in omega arith) in
      rw
        (
          eq,
          apply_edit_lem (edit_of p {lo = lo} {es = es} (inside pre e post eq over low se b c f))
              pre (e ∷ post) over (omega arith, se, f)
              (All-append _ pre (e ∷ post) (starts_over e.start _ pre (omega (arith, later.0)) over)
                (omega (arith, later.0), starts_undelayed (delay_of p) _ post later.1.1)),
        )
        (playing_inside p s ts pre e post se b c f over)

module _ (existing : List Entry) (at : ℕ) (ins : Entry) (f : Follows 0 existing)
    (s : IsSound (record ins { start = at }))
    (free : (str_eq ins.type "ad_break" && break_airs at existing) ≡ false) where
  abbrev pub placed : Entry
  placed = record ins { start = at }

  pub insert_shift_lem :
      insert_shift existing at ins ≡ ok (edit_of placed (Shape-total 0 at existing f))
  unfolding insert_shift
  insert_shift_lem = ground (
    arith,
    s.whole,
    s.duration,
    s.positive,
    s.short,
    seconds_pos (lasting ins),
    cut_loop_lem placed 0 existing (Shape-total 0 at existing f),
  )

  -- For a schedule of sound entries that follow one another, and a sound entry for which no ad break is in the
  -- way at the moment, InsertShift gives an edit; once it is applied, the air of every moment is the old one
  -- before the command, the new entry for its length, and from then on the old air later by that length: what was
  -- cut goes on from the frame at which it stopped.
  pub insert_shift_airs :
      (ts : ℕ)
      → (ed : Edit) × (insert_shift existing at ins ≡ ok ed)
        × (playing ts (apply_edit ed existing)
            ≡ aired at (delay_of ins) (record ins { start = at }) existing ts)
  insert_shift_airs ts = (
    edit_of placed (Shape-total 0 at existing f),
    insert_shift_lem,
    playing_edit placed s 0 existing ts (Shape-total 0 at existing f),
  )

-- ===== src/Schedule/Insert/Passes.antt =====
-- The edit of InsertShift passes the check that runCommand makes of it.
use fast_tv_playout_core.Base.{
  ℕ, ◌+◌, ◌≤◌, ◌<◌, ◌≡◌, refl, sym, ap, subst, ◌∙◌, false, none, some, List, [], ◌∷◌, map, arith,
  pos, All, All-right, sort_stable, insert_by, length, length-append, length-map, str_eq, ◌&&◌,
}
use fast_tv_playout_core.Schedule.{Entry, Edit, ok, first_part}
use fast_tv_playout_core.Schedule.Air.{finish, IsSound, Follows, end_of-finish}
use fast_tv_playout_core.Schedule.Insert.{second_part, delayed, insert_shift, break_airs, last_end}
use fast_tv_playout_core.Schedule.Split.{Shape, between, inside, Shape-total}
use fast_tv_playout_core.Schedule.Insert.Parts.{first_part_start}
use fast_tv_playout_core.Schedule.Insert.Late.{starts_under, delay_of}
use fast_tv_playout_core.Schedule.Insert.Correct.{
  entries_of, edit_of, entries-Follows, insert_shift_lem,
}
use fast_tv_playout_core.Schedule.Check.{check_entries, starts_before, max_entries}
use fast_tv_playout_core.Schedule.Check.Accepts.{
  HasSource, program, slate, ad_break, IsFit, Accepts, check_entries_iff,
}

insert_by_first :
    (e : Entry) (es : List Entry) → Follows (finish e) es → insert_by starts_before e es ≡ e ∷ es
unfolding insert_by
insert_by_first e [] f = refl
insert_by_first e (x ∷ es) f = ground arith

-- Entries that follow one another are sorted already.
sort_stable-Follows : (lo : ℕ) (es : List Entry) → Follows lo es → sort_stable starts_before es ≡ es
unfolding sort_stable
sort_stable-Follows lo [] f = refl
sort_stable-Follows lo (e ∷ es) f =
    rw (sort_stable-Follows (finish e) es f.2) (insert_by_first e es f.2)

fit :
    (from to lo : ℕ) (e : Entry)
    → from ≤ e.start
    → e.start < to
    → IsSound e
    → HasSource e
    → IsFit from to e
fit from to lo e h k s a = record {
  source = a;
  duration = s.duration;
  positive = s.positive;
  offset = s.offset;
  whole = s.whole;
  lower = h;
  upper = k;
}

Follows-Accepts :
    (from to : ℕ) (p : Entry) (es : List Entry)
    → from ≤ p.start
    → IsSound p
    → Follows (finish p) es
    → All HasSource es
    → All (λ e. e.start < to) es
    → Accepts from to (some p) es
Follows-Accepts from to p [] l sp f a h = tt
Follows-Accepts from to p (e ∷ es) l sp f a h = (
  omega (arith, end_of-finish p sp, f.0),
  fit from to 0 e (omega (arith, f.0)) h.0 f.1 a.0,
  Follows-Accepts from to e es (omega (arith, f.0)) f.1 f.2 a.1 h.1,
)

same_source :
    (e x : Entry)
    → x.type ≡ e.type
    → x.asset_id ≡ e.asset_id
    → x.uri ≡ e.uri
    → HasSource e
    → HasSource x
same_source e x t a u (program k h) = program (rw t k) (rw (a, u) h)
same_source e x t a u (slate k) = slate (t ∙ k)
same_source e x t a u (ad_break k h j) = ad_break (t ∙ k) (a ∙ h) (u ∙ j)

delayed-HasSource :
    (d : ℕ) (es : List Entry) → All HasSource es → All HasSource (map (delayed (pos d)) es)
unfolding delayed
delayed-HasSource d [] h = tt
delayed-HasSource d (e ∷ es) h = (same_source e _ refl refl refl h.0, delayed-HasSource d es h.1)

first_part-HasSource : (at : ℕ) (e : Entry) → HasSource e → HasSource (first_part at e)
unfolding first_part
first_part-HasSource at e h = same_source e _ refl refl refl h

second_part-HasSource : (at d : ℕ) (e : Entry) → HasSource e → HasSource (second_part at (pos d) e)
unfolding second_part
second_part-HasSource at d e h = same_source e _ refl refl refl h

module _ (p : Entry) (lo : ℕ) (es : List Entry) where
  entries-HasSource :
      (sh : Shape lo p.start es) → HasSource p → All HasSource es → All HasSource (entries_of p sh)
  entries-HasSource (between pre post eq over f) h a = (
    h,
    delayed-HasSource (delay_of p) post (All-right HasSource pre post (subst (All HasSource) eq a)),
  )
  entries-HasSource (inside pre e post eq over low s b c f) h a =
      let r = All-right HasSource pre (e ∷ post) (subst (All HasSource) eq a) in
      (
        first_part-HasSource p.start e r.0,
        (
          h,
          (
            second_part-HasSource p.start (delay_of p) e r.0,
            delayed-HasSource (delay_of p) post r.1,
          ),
        ),
      )

  length-entries : (sh : Shape lo p.start es) → length (entries_of p sh) ≤ length es + 2
  length-entries (between pre post eq over f) =
      omega
        (arith, ap length eq, length-append pre post, length-map post (delayed (pos (delay_of p))))
  length-entries (inside pre e post eq over low s b c f) = omega (
    arith,
    ap length eq,
    length-append pre (e ∷ post),
    length-map post (delayed (pos (delay_of p))),
  )

Follows-accepted :
    (e : Entry) (es : List Entry)
    → IsSound e
    → Follows (finish e) es
    → All HasSource (e ∷ es)
    → Accepts e.start (last_end e es) none (e ∷ es)
Follows-accepted e es s f a =
    let h = starts_under (last_end e es) e es s f (omega arith) in
    (
      fit e.start _ 0 e (omega arith) h.0 s a.0,
      Follows-Accepts e.start _ e es (omega arith) s f a.1 h.1,
    )

accepted :
    (from : ℕ) (e : Entry) (es : List Entry)
    → from ≡ e.start
    → Follows from (e ∷ es)
    → All HasSource (e ∷ es)
    → length (e ∷ es) ≤ max_entries
    → check_entries (e ∷ es) from (last_end e es) ≡ ok (e ∷ es)
accepted from e es w f a l = (check_entries_iff (e ∷ es) (e ∷ es) from (last_end e es)).1 (
  l,
  sym (sort_stable-Follows from (e ∷ es) f),
  subst (λ t. Accepts t (last_end e es) none (e ∷ es)) (sym w) (Follows-accepted e es f.1 f.2 a),
)

-- For sound entries that follow one another and have a source as their types require, and a sound entry with a
-- source for which no ad break is in the way, the edit of InsertShift passes CheckEntries with its own window
-- and comes back unchanged, if at most MaxEntries - 2 entries were there.
pub insert_shift_passes :
    (existing : List Entry) (at : ℕ) (ins : Entry)
    → Follows 0 existing
    → IsSound (record ins { start = at })
    → All HasSource existing
    → HasSource (record ins { start = at })
    → (str_eq ins.type "ad_break" && break_airs at existing) ≡ false
    → length existing + 2 ≤ max_entries
    → (ed : Edit) × (insert_shift existing at ins ≡ ok ed)
      × (check_entries ed.entries ed.from ed.to ≡ ok ed.entries)
insert_shift_passes existing at ins f s a h free room =
    let sh = Shape-total 0 at existing f in
    let p : Entry = record ins { start = at } in
    (edit_of p sh, insert_shift_lem existing at ins f s free, checked p s sh h)
  where
    checked :
        (p : Entry)
        → IsSound p
        → (sh : Shape 0 p.start existing) → HasSource p
        → check_entries (edit_of p sh).entries (edit_of p sh).from (edit_of p sh).to
          ≡ ok (edit_of p sh).entries
    checked p s (between pre post eq over g) h =
        let sh : Shape 0 p.start existing = between pre post eq over g in
        accepted p.start p _ refl (entries-Follows p s 0 existing sh)
          (entries-HasSource p 0 existing sh h a) (omega (arith, length-entries p 0 existing sh))
    checked p s (inside pre e post eq over low se b c g) h =
        let sh : Shape 0 p.start existing = inside pre e post eq over low se b c g in
        accepted e.start (first_part p.start e) _ (sym (first_part_start p.start e))
          (entries-Follows p s 0 existing sh) (entries-HasSource p 0 existing sh h a)
          (omega (arith, length-entries p 0 existing sh))

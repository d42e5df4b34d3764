-- ===== src/Announce/Ticks.antt =====
-- How often announce is called, and when, makes no difference to what is published.
use fast_tv_playout_core.Base.{
  ◌≤◌, ◌≡◌, refl, sym, ap, ◌∙◌, subst, true, false, Bool-cases, List, [], ◌∷◌, ◌++◌, arith, inl,
  inr,
}
use mathlib.Core.List.{append_assoc}
use fast_tv_playout_core.Clock.{Instant, after}
use fast_tv_playout_core.Announce.{Segment, Notice, Announcer, announce_item, announce}

-- An item that has been handled is at or before the mark, and the mark does not go back.
announce_item_mark :
    (a : Announcer) (it : Segment)
    → (it.program_date_time ≤ (announce_item a it).0.announced_to)
      × (a.announced_to ≤ (announce_item a it).0.announced_to)
unfolding announce_item
announce_item_mark a it = ground arith

announce_mark :
    (now : Instant) (items : List Segment) (a : Announcer)
    → a.announced_to ≤ (announce now items a).0.announced_to
unfolding announce
announce_mark now [] a = omega arith
announce_mark now (it ∷ items) a =
    ground (arith, announce_item_mark a it, announce_mark now items (announce_item a it).0)

-- An item at or before the mark is passed over.
announce_item_again :
    (a : Announcer) (it : Segment)
    → it.program_date_time ≤ a.announced_to
    → announce_item a it ≡ (a, [])
unfolding announce_item
announce_item_again a it h = ground arith

pub announce_future :
    (now : Instant) (it : Segment) (items : List Segment) (a : Announcer)
    → after it.program_date_time now ≡ true
    → announce now (it ∷ items) a ≡ (a, [])
unfolding announce
announce_future now it items a h = rw h refl

pub announce_past :
    (now : Instant) (it : Segment) (items : List Segment) (a : Announcer)
    → after it.program_date_time now ≡ false
    → let rest = announce now items (announce_item a it).0 in
      announce now (it ∷ items) a ≡ (rest.0, (announce_item a it).1 ++ rest.1)
unfolding announce
announce_past now it items a h = rw h refl

announce_passed :
    (now : Instant) (it : Segment) (items : List Segment) (a : Announcer)
    → after it.program_date_time now ≡ false
    → it.program_date_time ≤ a.announced_to
    → announce now (it ∷ items) a ≡ announce now items a
announce_passed now it items a h k =
    announce_past now it items a h
    ∙ ap (λ s. ((announce now items s.0).0, s.1 ++ (announce now items s.0).1))
        (announce_item_again a it k)

-- What two calls publish together, the second from where the first stopped.
pub both_calls : Instant → Instant → List Segment → Announcer → Announcer × List Notice
both_calls now later items a =
    let first = announce now items a in
    let second = announce later items first.0 in (second.0, first.1 ++ second.1)

-- Two calls of announce on one window, the second not earlier than the first, publish together what the later
-- call alone would have published, in the same order, and leave the same state, whether the window is in order
-- or not.
pub announce-announce :
    (now later : Instant) (items : List Segment) (a : Announcer)
    → now ≤ later
    → announce later items a ≡ both_calls now later items a
unfolding both_calls
announce-announce now later [] a h = unfold announce in refl
announce-announce now later (it ∷ items) a h = elim (Bool-cases (after it.program_date_time now)) [
  | inl future ↦
      subst
        (λ f.
          announce later (it ∷ items) a
          ≡ ((announce later (it ∷ items) f.0).0, f.1 ++ (announce later (it ∷ items) f.0).1))
        (sym (announce_future now it items a future)) refl
  | inr past ↦
      subst
        (λ f.
          announce later (it ∷ items) a
          ≡ ((announce later (it ∷ items) f.0).0, f.1 ++ (announce later (it ∷ items) f.0).1))
        (sym (announce_past now it items a past))
        (from_rest past (announce-announce now later items step.0 h))
]
  where
    step : Announcer × List Notice
    step = announce_item a it

    rest : Announcer × List Notice
    rest = announce now items step.0

    from_rest :
        after it.program_date_time now ≡ false
        → announce later items step.0 ≡ both_calls now later items step.0
        → announce later (it ∷ items) a ≡ (
          (announce later (it ∷ items) rest.0).0,
          (step.1 ++ rest.1) ++ (announce later (it ∷ items) rest.0).1,
        )
    from_rest past both =
        let past' : after it.program_date_time later ≡ false = ground arith in
        announce_past later it items a past'
        ∙ ap (λ r. (r.0, step.1 ++ r.1)) both
        ∙ ap (λ l. ((announce later items rest.0).0, l))
            (sym (append_assoc step.1 rest.1 (announce later items rest.0).1))
        ∙ ap (λ r. (r.0, (step.1 ++ rest.1) ++ r.1))
            (sym (
              announce_passed later it items rest.0 past'
                (omega (arith, announce_item_mark a it, announce_mark now items step.0))))

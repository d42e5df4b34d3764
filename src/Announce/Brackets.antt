-- ===== src/Announce/Brackets.antt =====
-- The events as a listener hears them: breaks and slates begin and end in turn.
use fast_tv_playout_core.Base.{
  ◌≡◌, refl, sym, ap, ◌∙◌, subst, true, false, Bool-cases, Option-cases, Option, some, none, List,
  [], ◌∷◌, ◌++◌, ◌==◌, arith, inl, inr, str_eq, eq_iff, if◌then◌else◌, String,
}
use mathlib.Core.Option.{some-injective, none-ne-some}
use fast_tv_playout_core.Clock.{Instant, after}
use fast_tv_playout_core.Announce.{
  Segment, OnAir, Notice, program_started, break_started, break_ended, slate_started, slate_ended,
  Announcer, announce_item, announce, transition, goes_on, ended, started,
}
use fast_tv_playout_core.Announce.Ticks.{announce_future, announce_past}

-- What a listener knows to be on the air.
pub data Stage : Type 0 where
  program : Stage
  in_break : Instant → Stage
  in_slate : Stage

-- A listener that refuses an event that does not fit what it knows.
unfoldable pub hear : Stage → Notice → Option Stage
hear program (program_started at kind title entry) = some program
hear program (break_started at from lasting) = some (in_break from)
hear program (slate_started at) = some in_slate
hear (in_break from) (break_ended at from') = if from == from' then some program else none
hear in_slate (slate_ended at) = some program
hear st n = none

and_then : Option Stage → (Stage → Option Stage) → Option Stage
and_then none f = none
and_then (some st) f = f st

unfoldable pub hear_all : Stage → List Notice → Option Stage
unfolding and_then
hear_all st [] = some st
hear_all st (n ∷ ns) = and_then (hear st n) (λ st'. hear_all st' ns)

unfoldable pub stage : OnAir → Stage
stage a =
    if str_eq a.kind "ad"
    then in_break a.brk
    else if str_eq a.kind "slate"
    then in_slate
    else program

hear_all_heard :
    (st st' : Stage) (n : Notice) (ns : List Notice)
    → hear st n ≡ some st'
    → hear_all st (n ∷ ns) ≡ hear_all st' ns
unfolding hear_all and_then
hear_all_heard st st' n ns e = ap (λ o. and_then o (λ x. hear_all x ns)) e

hear_all_refused :
    (st : Stage) (n : Notice) (ns : List Notice) → hear st n ≡ none → hear_all st (n ∷ ns) ≡ none
unfolding hear_all and_then
hear_all_refused st n ns e = ap (λ o. and_then o (λ x. hear_all x ns)) e

hear_all-append :
    (st mid : Stage) (ns ms : List Notice)
    → hear_all st ns ≡ some mid
    → hear_all st (ns ++ ms) ≡ hear_all mid ms
unfolding hear_all
hear_all-append st mid [] ms h = ap (λ s. hear_all s ms) (some-injective st mid h)
hear_all-append st mid (n ∷ ns) ms h = elim (Option-cases (hear st n)) [
  | inl e ↦ absurd (none-ne-some mid (sym (hear_all_refused st n ns e) ∙ h))
  | inr (st', e) ↦
      hear_all_heard st st' n (ns ++ ms) e
      ∙ hear_all-append st' mid ns ms (sym (hear_all_heard st st' n ns e) ∙ h)
]

ad_not_slate : (k : String) → str_eq k "ad" ≡ true → str_eq k "slate" ≡ false
ad_not_slate k h = rw ((eq_iff k "ad").0 h)

transition_heard :
    (prev : OnAir) (it : Segment)
    → hear_all (stage prev) (transition prev it).1 ≡ some (stage (transition prev it).0)
unfolding transition hear_all hear stage goes_on ended started
transition_heard prev it = ground (arith, ad_not_slate prev.kind, ad_not_slate it.kind)

announce_item_heard :
    (a : Announcer) (it : Segment)
    → hear_all (stage a.on_air) (announce_item a it).1 ≡ some (stage (announce_item a it).0.on_air)
unfolding announce_item hear_all
announce_item_heard a it = ground (arith, transition_heard a.on_air it)

-- A listener that starts with what the engine has on the air can follow the events of a call of announce: it
-- hears a break or a slate start only when neither lasts, a program start only when neither lasts, and an end
-- only of what lasts, for a break with the start it began with; and after the call it knows again what the
-- engine has on the air.
pub announce_heard :
    (now : Instant) (items : List Segment) (a : Announcer)
    → hear_all (stage a.on_air) (announce now items a).1
      ≡ some (stage (announce now items a).0.on_air)
announce_heard now [] a = unfold announce hear_all in refl
announce_heard now (it ∷ items) a = elim (Bool-cases (after it.program_date_time now)) [
  | inl future ↦
      subst (λ r. hear_all (stage a.on_air) r.1 ≡ some (stage r.0.on_air))
        (sym (announce_future now it items a future)) (unfold hear_all in refl)
  | inr past ↦
      subst (λ r. hear_all (stage a.on_air) r.1 ≡ some (stage r.0.on_air))
        (sym (announce_past now it items a past))
        (hear_all-append (stage a.on_air) (stage (announce_item a it).0.on_air)
            (announce_item a it).1 _ (announce_item_heard a it)
          ∙ announce_heard now items (announce_item a it).0)
]

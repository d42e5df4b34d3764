-- ===== src/Webhook/Tests.antt =====
-- A receiver that is down for two attempts, and a queue that takes one event.
use fast_tv_playout_core.Base.{
  ℕ, zero, suc, ◌+◌, ◌<◌, ◌≤◌, ap, subst, arith, lt→ltb, ltb→lt, leb→le, length-replicate, ◌*◌,
  ◌==◌, ◌≡◌, refl, Bool, false, List, [], ◌∷◌, ◌++◌, if◌then◌else◌, replicate, pos, length, wrap64,
  ◌*ℤ◌,
}
use fast_tv_playout_core.Clock.{second}
use fast_tv_playout_core.Webhook.{
  Sender, Reply, unreachable, status, delivered, refused, deliver, judge,
}
use fast_tv_playout_core.Webhook.Attempts.{IsExplained, deliver-IsExplained}
use fast_tv_playout_core.Webhook.Line.{
  Line, idle, made_room, Reachable, begin, next, first_select, worker_takes, offer_first,
  offer_again, take_next, drop_oldest, IsKept, Reachable-IsKept, Reachable-enqueues, found_full,
  second_select,
}

abbrev usual : Sender
usual = record { retries = 5; backoff = pos second; timeout = pos (5 * second) }

-- Not reached, then overloaded, then fine.
abbrev slow : ℕ → Reply
slow n = if n == 0 then unreachable else if n == 1 then status 503 else status 204

abbrev never : ℕ → Bool
never n = false

deliver_waiting :
    deliver slow never usual
    ≡ record { verdict = delivered; attempts = 3; pauses = pos 1000000000 ∷ pos 2000000000 ∷ [] }
unfolding deliver judge wrap64 ◌*ℤ◌
deliver_waiting = refl

deliver_refused : (deliver (λ n. status 404) never usual).verdict ≡ refused 404
unfolding deliver judge
deliver_refused = refl

deliver-IsExplained_example : IsExplained slow never 0 (1 + 5) second (deliver slow never usual)
deliver-IsExplained_example = deliver-IsExplained slow never usual second refl (ltb→lt _ _ refl)

abbrev empty_line : Line ℕ
empty_line = record { queue = []; phase = idle; dropped = 0; pushed = 0; taken = 0 }

one_taken : Reachable (take_next (offer_first 7 empty_line) (offer_first 7 empty_line).queue)
one_taken = next (next begin (first_select 7 refl)) worker_takes

Reachable-IsKept_example :
    IsKept (take_next (offer_first 7 empty_line) (offer_first 7 empty_line).queue)
Reachable-IsKept_example = Reachable-IsKept one_taken

abbrev sevens : ℕ → List ℕ
sevens n = replicate n 7

abbrev of_sevens : ℕ → Line ℕ
of_sevens n = record { queue = sevens n; phase = idle; dropped = 0; pushed = n; taken = 0 }

one_behind : (n : ℕ) → sevens n ++ (7 ∷ []) ≡ 7 ∷ sevens n
one_behind zero = refl
one_behind (suc n) = ap (λ xs. 7 ∷ xs) (one_behind n)

one_more_seven : (n : ℕ) → n < 512 → offer_first 7 (of_sevens n) ≡ of_sevens (suc n)
unfolding offer_first
one_more_seven n h =
    rw
      (
        lt→ltb (length (sevens n)) 512 (omega (arith, h, length-replicate {A = ℕ} n 7)),
        one_behind n,
      )
      refl

of_sevens-Reachable : (n : ℕ) → n ≤ 512 → Reachable (of_sevens n)
of_sevens-Reachable zero h = begin
of_sevens-Reachable (suc n) h =
    subst Reachable (one_more_seven n (omega (arith, h)))
      (next (of_sevens-Reachable n (omega (arith, h))) (first_select 7 refl))

-- The queue is full, and an eight comes.
abbrev full : Line ℕ
full = offer_first 8 (of_sevens 512)

full_phase : full.phase ≡ found_full 8
unfolding offer_first
full_phase = refl

abbrev roomy_line : Line ℕ
roomy_line = drop_oldest 8 full full.queue

roomy_phase : roomy_line.phase ≡ made_room 8
unfolding offer_first drop_oldest
roomy_phase = refl

Reachable-enqueues_example :
    ((offer_again 8 roomy_line).queue ≡ roomy_line.queue ++ (8 ∷ []))
    × ((offer_again 8 roomy_line).dropped ≡ roomy_line.dropped)
Reachable-enqueues_example =
    Reachable-enqueues 8 roomy_line
      (next (next (of_sevens-Reachable 512 (leb→le 512 512 refl)) (first_select 8 refl))
        (second_select 8 full_phase))
      roomy_phase

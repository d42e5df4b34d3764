-- ===== src/Webhook/Line.antt =====
-- The queue of one endpoint in Run of pkg/events/webhook.go, between the function push and the worker, which may take
-- an event between any two of the three selects of push.
use fast_tv_playout_core.Base.{
  ℕ, suc, ◌+◌, ◌≤◌, ◌<◌, ◌≡◌, refl, ap, List, [], ◌∷◌, ◌++◌, ltb, if◌then◌else◌, length,
  length-append, arith, Bool-cases, inl, inr, ltb→lt, lt→ltb, subst,
}

abbrev pub capacity : ℕ
capacity = 512

-- Where push is: outside, behind the first select, behind the second.
pub data Phase (A : Type 0) : Type 0 where
  idle : Phase A
  found_full : A → Phase A
  made_room : A → Phase A

-- The queue and the counter of dropped events; `pushed` and `taken` count the events that were handed to push and taken
-- by the worker, and are not in the program.
pub record Line (A : Type 0) : Type 0 where
  pub queue : List A
  pub phase : Phase A
  pub dropped : ℕ
  pub pushed : ℕ
  pub taken : ℕ

module _ {A : Type 0} where
  -- The first select: the event goes in, or the queue is full.
  unfoldable pub offer_first : A → Line A → Line A
  offer_first ev l =
      if ltb (length l.queue) capacity
      then record l { queue = l.queue ++ (ev ∷ []); phase = idle; pushed = suc l.pushed }
      else record l { phase = found_full ev; pushed = suc l.pushed }

  -- The second select: the oldest event goes.
  unfoldable pub drop_oldest : A → Line A → List A → Line A
  drop_oldest ev l [] = record l { phase = made_room ev }
  drop_oldest ev l (x ∷ q) = record l { queue = q; phase = made_room ev; dropped = suc l.dropped }

  -- The third select: the event goes in, or it is dropped itself.
  unfoldable pub offer_again : A → Line A → Line A
  offer_again ev l =
      if ltb (length l.queue) capacity
      then record l { queue = l.queue ++ (ev ∷ []); phase = idle }
      else record l { phase = idle; dropped = suc l.dropped }

  -- case ev := <-q of worker
  pub take_next : Line A → List A → Line A
  take_next l [] = l
  take_next l (x ∷ q) = record l { queue = q; taken = suc l.taken }

  pub data Step (l : Line A) : Line A → Type 0 where
    first_select : (ev : A) → l.phase ≡ idle → Step l (offer_first ev l)
    second_select : (ev : A) → l.phase ≡ found_full ev → Step l (drop_oldest ev l l.queue)
    third_select : (ev : A) → l.phase ≡ made_room ev → Step l (offer_again ev l)
    worker_takes : Step l (take_next l l.queue)

  pub data Reachable : Line A → Type 0 where
    begin : Reachable (record { queue = []; phase = idle; dropped = 0; pushed = 0; taken = 0 })
    next : {l l' : Line A} → Reachable l → Step l l' → Reachable l'

  abbrev pub pending : Phase A → ℕ
  pending idle = 0
  pending (found_full ev) = 1
  pending (made_room ev) = 1

  -- There is room behind the second select.
  abbrev pub HasRoom : Phase A → ℕ → Type 0
  HasRoom idle n = Unit
  HasRoom (found_full ev) n = Unit
  HasRoom (made_room ev) n = n < capacity

  -- Every event is in one place, and the queue is no longer than its buffer.
  pub record IsKept (l : Line A) : Type 0 where
    pub bounded : length l.queue ≤ capacity
    pub counted : l.taken + length l.queue + l.dropped + pending l.phase ≡ l.pushed
    pub room : HasRoom l.phase (length l.queue)

  HasRoom-mono : (p : Phase A) (m n : ℕ) → m ≤ n → HasRoom p n → HasRoom p m
  HasRoom-mono idle m n h r = tt
  HasRoom-mono (found_full ev) m n h r = tt
  HasRoom-mono (made_room ev) m n h r = omega (arith, h, r)

  offer_first-IsKept : (ev : A) (l : Line A) → l.phase ≡ idle → IsKept l → IsKept (offer_first ev l)
  unfolding offer_first
  offer_first-IsKept ev l i k = elim (Bool-cases (ltb (length l.queue) capacity)) [
    | inl b ↦ rw b (record {
      bounded = ground (arith, ltb→lt _ _ b, length-append l.queue (ev ∷ []));
      counted = ground (arith, k.counted, ap pending i, length-append l.queue (ev ∷ []));
      room = tt;
    })
    | inr b ↦ rw b (record {
      bounded = k.bounded;
      counted = ground (arith, k.counted, ap pending i);
      room = tt;
    })
  ]

  drop_oldest-IsKept :
      (ev : A) (l : Line A) (q : List A)
      → l.queue ≡ q
      → l.phase ≡ found_full ev
      → IsKept l
      → IsKept (drop_oldest ev l q)
  unfolding drop_oldest
  drop_oldest-IsKept ev l [] e i k = record {
    bounded = k.bounded;
    counted = omega (arith, k.counted, ap pending i);
    room = omega (arith, ap length e);
  }
  drop_oldest-IsKept ev l (x ∷ q) e i k = record {
    bounded = omega (arith, ap length e, k.bounded);
    counted = omega (arith, k.counted, ap pending i, ap length e);
    room = omega (arith, ap length e, k.bounded);
  }

  offer_again-IsKept :
      (ev : A) (l : Line A)
      → l.phase ≡ made_room ev
      → HasRoom (made_room ev) (length l.queue)
      → IsKept l
      → IsKept (offer_again ev l)
  unfolding offer_again
  offer_again-IsKept ev l i r k = rw (lt→ltb (length l.queue) capacity r) (record {
    bounded = omega (arith, r, length-append l.queue (ev ∷ []));
    counted = omega (arith, k.counted, ap pending i, length-append l.queue (ev ∷ []));
    room = tt;
  })

  take_next-IsKept : (l : Line A) (q : List A) → l.queue ≡ q → IsKept l → IsKept (take_next l q)
  unfolding take_next
  take_next-IsKept l [] e k = k
  take_next-IsKept l (x ∷ q) e k = record {
    bounded = omega (arith, ap length e, k.bounded);
    counted = omega (arith, k.counted, ap length e);
    room = HasRoom-mono l.phase (length q) (length l.queue) (omega (arith, ap length e)) k.room;
  }

  roomy :
      (ev : A) (l : Line A)
      → l.phase ≡ made_room ev
      → IsKept l
      → HasRoom (made_room ev) (length l.queue)
  roomy ev l i k = subst (λ p. HasRoom p (length l.queue)) i k.room

  Step-IsKept : {l l' : Line A} → IsKept l → Step l l' → IsKept l'
  Step-IsKept {l} k (first_select ev i) = offer_first-IsKept ev l i k
  Step-IsKept {l} k (second_select ev i) = drop_oldest-IsKept ev l l.queue refl i k
  Step-IsKept {l} k (third_select ev i) = offer_again-IsKept ev l i (roomy ev l i k) k
  Step-IsKept {l} k worker_takes = take_next-IsKept l l.queue refl k

  -- Whatever the order in which the three selects of push and the worker of an endpoint run, its queue holds at
  -- most 512 events, every event that was handed to push is taken, waiting, counted as dropped or about to be put
  -- in, and behind the second select the queue has room.
  pub Reachable-IsKept : {l : Line A} → Reachable l → IsKept l
  Reachable-IsKept begin = record { bounded = omega arith; counted = refl; room = tt }
  Reachable-IsKept (next r s) = Step-IsKept (Reachable-IsKept r) s

  -- In every state that is reached behind the second select of push, the third one puts the new event at the end
  -- of the queue and drops nothing.
  pub Reachable-enqueues :
      (ev : A) (l : Line A)
      → Reachable l
      → l.phase ≡ made_room ev
      → ((offer_again ev l).queue ≡ l.queue ++ (ev ∷ [])) × ((offer_again ev l).dropped ≡ l.dropped)
  unfolding offer_again
  Reachable-enqueues ev l r i =
      rw (lt→ltb (length l.queue) capacity (roomy ev l i (Reachable-IsKept r))) (refl, refl)

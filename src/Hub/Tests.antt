-- ===== src/Hub/Tests.antt =====
-- A hub that remembers two events, one client that subscribes at once, and one that comes later.
use fast_tv_playout_core.Base.{ℕ, ◌≡◌, refl, [], ◌∷◌, ◌++◌, inl, arith}
use fast_tv_playout_core.Hub.{Hub, new_hub, publish, subscribe}
use fast_tv_playout_core.Hub.Ring.{Numbered, IsRing}
use fast_tv_playout_core.Hub.Streams.{
  World, Step, Reach, publishes, subscribes, reads, here, next, IsServed,
}
use fast_tv_playout_core.Hub.Streams
use fast_tv_playout_core.Hub.Served.{fresh, new_hub-IsServed, subscribe_resumes}

abbrev empty_hub : Hub ℕ
empty_hub = new_hub 2

abbrev after_one : Hub ℕ
after_one = (publish empty_hub "engine.started" "c1" 0 5).0

abbrev after_two : Hub ℕ
after_two = (publish after_one "slate.started" "c1" 0 6).0

abbrev subscribed : World ℕ
subscribed = record {
  hub = (subscribe empty_hub 0).0;
  got = Streams.got_anew (λ i. []) 0 (subscribe empty_hub 0).1;
}

new_hub-IsServed_example :
    IsServed (record subscribed { hub = (publish subscribed.hub "slate.started" "c1" 0 7).0 })
unfolding new_hub
new_hub-IsServed_example =
    new_hub-IsServed 2 _
      (next (next here (subscribes (fresh 2) 0)) (publishes subscribed "slate.started" "c1" 0 7))

abbrev ring_of_two : IsRing after_two
ring_of_two = record {
  oldest = 1;
  numbered = unfold publish new_hub in (refl, (refl, refl));
  positive = omega arith;
  bounded = unfold publish new_hub in omega arith;
  full = inl refl;
}

subscribe_resumes_example :
    Numbered 1 after_two.next_id
      ((publish empty_hub "engine.started" "c1" 0 5).1 ∷ [] ++ (subscribe after_two 1).1)
unfolding publish new_hub
subscribe_resumes_example =
    subscribe_resumes after_two 1 1 ((publish empty_hub "engine.started" "c1" 0 5).1 ∷ [])
      ring_of_two (refl, refl) (omega arith) (omega arith)

-- The second of two events is the newest.
second_event : after_two.next_id ≡ 3
unfolding publish new_hub
second_event = refl

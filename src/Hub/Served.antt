-- ===== src/Hub/Served.antt =====
-- Whatever publishers, subscribers and readers do, and in whatever order, every client is served without a gap.
use fast_tv_playout_core.Base.{
  ℕ, zero, suc, ◌≤◌, ◌≡◌, refl, sym, subst, ◌≢◌, ◌⊎◌, inl, inr, Bool, true, false, List, [], ◌∷◌,
  ◌++◌, map, some, String, ◌==◌, if◌then◌else◌, length, get_elem?, arith, dec_lt, ℕ_discrete,
  ==_same, ==_other,
}
use Prim.Native.Nat.{max}
use mathlib.Core.List.{append-nil}
use fast_tv_playout_core.Clock.{Instant}
use fast_tv_playout_core.Hub.{
  Event, Subscription, Hub, new_hub, publish, offer, close_sub, rest_of, update_at, newer,
  subscribe, close, receive,
}
use fast_tv_playout_core.Hub.Ring.{
  Numbered, Numbered-append, newer-Numbered, newer-nothing, IsRing, new_hub-IsRing, publish-IsRing,
}
use fast_tv_playout_core.Hub.Streams.{
  World, Step, publishes, subscribes, reads, closes, Reach, here, next, got_more, got_anew, to_list,
  IsStream, IsServed, close_sub-IsStream, offer-IsStream, rest_of-IsStream,
}

module _ {D : Type 0} where
  -- The subscriptions one by one.
  get_elem?-map :
      (f : Subscription D → Subscription D) (i : ℕ) (ss : List (Subscription D))
      (s : Subscription D)
      → get_elem? (map f ss) i ≡ some s
      → (r : Subscription D) × (get_elem? ss i ≡ some r) × (s ≡ f r)
  get_elem?-map f i [] s h = cc
  get_elem?-map f zero (x ∷ ss) s h = (x, refl, cc)
  get_elem?-map f (suc i) (x ∷ ss) s h = get_elem?-map f i ss s h

  get_elem?-update_at :
      (f : Subscription D → Subscription D) (i j : ℕ) (ss : List (Subscription D))
      (s : Subscription D)
      → get_elem? (update_at i f ss) j ≡ some s
      → (r : Subscription D) × (get_elem? ss j ≡ some r) × (s ≡ (if i == j then f r else r))
  unfolding update_at
  get_elem?-update_at f i j [] s h = cc
  get_elem?-update_at f zero zero (x ∷ ss) s h = (x, refl, cc)
  get_elem?-update_at f zero (suc j) (x ∷ ss) s h = (s, h, ground arith)
  get_elem?-update_at f (suc i) zero (x ∷ ss) s h = (x, refl, ground arith)
  get_elem?-update_at f (suc i) (suc j) (x ∷ ss) s h =
      let (r, at_j, e) = get_elem?-update_at f i j ss s h in (r, at_j, ground arith)

  get_elem?-append_one :
      (i : ℕ) (ss : List (Subscription D)) (x s : Subscription D)
      → get_elem? (ss ++ x ∷ []) i ≡ some s
      → ((i ≡ length ss) × (s ≡ x)) ⊎ ((i ≢ length ss) × (get_elem? ss i ≡ some s))
  get_elem?-append_one zero [] x s h = inl (refl, cc)
  get_elem?-append_one (suc i) [] x s h = cc
  get_elem?-append_one zero (y ∷ ss) x s h = inr (omega arith, h)
  get_elem?-append_one (suc i) (y ∷ ss) x s h = ground (arith, get_elem?-append_one i ss x s h)

  publish-subs :
      (h : Hub D) (type channel : String) (body : D) (now : Instant)
      → (publish h type channel body now).0.subs
        ≡ map (offer (publish h type channel body now).1) h.subs
  unfolding publish
  publish-subs h type channel body now = refl

  publish-id :
      (h : Hub D) (type channel : String) (body : D) (now : Instant)
      → ((publish h type channel body now).1.id ≡ h.next_id)
        × ((publish h type channel body now).0.next_id ≡ suc h.next_id)
  unfolding publish
  publish-id h type channel body now = (refl, refl)

  publish-IsServed :
      (w : World D) (type channel : String) (body : D) (now : Instant)
      → IsServed w
      → IsServed (record w { hub = (publish w.hub type channel body now).0 })
  publish-IsServed w type channel body now v = record {
    ring = publish-IsRing w.hub type channel body now v.ring;
    streams = λ i s h.
        let ids = publish-id w.hub type channel body now in
        let (r, old, e) =
          get_elem?-map (offer (publish w.hub type channel body now).1) i w.hub.subs s
            (subst (λ l. get_elem? l i ≡ some s) (publish-subs w.hub type channel body now) h) in
        subst (λ n. IsStream n (w.got i) s) (sym ids.1)
          (subst (IsStream (suc w.hub.next_id) (w.got i)) (sym e) (
            offer-IsStream w.hub.next_id (publish w.hub type channel body now).1 (w.got i) r ids.0
              (v.streams i r old)));
  }

  -- The replay begins the stream of a new client.
  subscribe-IsStream :
      (h : Hub D) (after : ℕ)
      → IsRing h
      → IsStream h.next_id (subscribe h after).1 (record { buffer = []; closed = false })
  unfolding subscribe
  subscribe-IsStream h after r = elim (dec_lt after h.next_id) [
    | yes g ↦ record {
      first = max r.oldest (suc after);
      last = h.next_id;
      numbered = rw append-nil (newer-Numbered after r.oldest h.next_id h.ring r.numbered g);
      known = omega arith;
      current = λ open_. refl;
    }
    | no g ↦ record {
      first = h.next_id;
      last = h.next_id;
      numbered =
          rw (append-nil, newer-nothing after r.oldest h.next_id h.ring r.numbered (omega arith))
            refl;
      known = omega arith;
      current = λ open_. refl;
    }
  ]

  close-IsServed : (w : World D) (i : ℕ) → IsServed w → IsServed (record w { hub = close w.hub i })
  unfolding close
  close-IsServed w i v = record {
    ring = record {
      oldest = v.ring.oldest;
      numbered = v.ring.numbered;
      positive = v.ring.positive;
      bounded = v.ring.bounded;
      full = v.ring.full;
    };
    streams = λ j s h.
        let (r, old, e) = get_elem?-update_at close_sub i j w.hub.subs s h in
        subst (IsStream w.hub.next_id (w.got j)) (sym e)
          (if_closed (i == j) w.hub.next_id (w.got j) r (v.streams j r old));
  }
    where
      if_closed :
          (b : Bool) (n : ℕ) (read : List (Event D)) (r : Subscription D)
          → IsStream n read r
          → IsStream n read (if b then close_sub r else r)
      if_closed true n read r t = close_sub-IsStream n read r t
      if_closed false n read r t = t

  got_anew_self :
      (got : ℕ → List (Event D)) (i : ℕ) (es : List (Event D)) → got_anew got i es i ≡ es
  got_anew_self got i es = ground arith

  got_anew_ne :
      (got : ℕ → List (Event D)) (i j : ℕ) (es : List (Event D))
      → j ≢ i
      → got_anew got i es j ≡ got j
  got_anew_ne got i j es h = ground arith

  subscribe-subs :
      (h : Hub D) (after : ℕ)
      → (subscribe h after).0.subs ≡ h.subs ++ record { buffer = []; closed = false } ∷ []
  unfolding subscribe
  subscribe-subs h after = refl

  subscribe-IsRing : (h : Hub D) (after : ℕ) → IsRing h → IsRing (subscribe h after).0
  unfolding subscribe
  subscribe-IsRing h after r = record {
    oldest = r.oldest;
    numbered = r.numbered;
    positive = r.positive;
    bounded = r.bounded;
    full = r.full;
  }

  subscribe-next_id : (h : Hub D) (after : ℕ) → (subscribe h after).0.next_id ≡ h.next_id
  unfolding subscribe
  subscribe-next_id h after = refl

  subscribe-IsServed :
      (w : World D) (after : ℕ)
      → IsServed w
      → IsServed (record {
        hub = (subscribe w.hub after).0;
        got = got_anew w.got (length w.hub.subs) (subscribe w.hub after).1;
      })
  subscribe-IsServed w after v = record {
    ring = subscribe-IsRing w.hub after v.ring;
    streams = λ i s h. rw (subscribe-next_id w.hub after) (
        served i s (
          get_elem?-append_one i w.hub.subs _ s
            (subst (λ l. get_elem? l i ≡ some s) (subscribe-subs w.hub after) h)));
  }
    where
      served :
          (i : ℕ) (s : Subscription D)
          → ((i ≡ length w.hub.subs) × (s ≡ record { buffer = []; closed = false }))
            ⊎ ((i ≢ length w.hub.subs) × (get_elem? w.hub.subs i ≡ some s))
          → IsStream w.hub.next_id
              (got_anew w.got (length w.hub.subs) (subscribe w.hub after).1 i)
              s
      served i s (inl (at_end, e)) =
          rw (at_end, e, got_anew_self w.got (length w.hub.subs) (subscribe w.hub after).1)
            (subscribe-IsStream w.hub after v.ring)
      served i s (inr (other, old)) =
          rw (got_anew_ne w.got (length w.hub.subs) i (subscribe w.hub after).1 other)
            (v.streams i s old)

  receive-got :
      (h : Hub D) (i : ℕ) (r : Subscription D)
      → get_elem? h.subs i ≡ some r
      → (receive h i).1 ≡ get_elem? r.buffer 0
  unfolding receive
  receive-got h i r e = rw (e, receive)

  receive-subs : (h : Hub D) (i : ℕ) → (receive h i).0.subs ≡ update_at i rest_of h.subs
  unfolding receive
  receive-subs h i = refl

  receive-IsRing : (h : Hub D) (i : ℕ) → IsRing h → IsRing (receive h i).0
  unfolding receive
  receive-IsRing h i r = record {
    oldest = r.oldest;
    numbered = r.numbered;
    positive = r.positive;
    bounded = r.bounded;
    full = r.full;
  }

  receive-next_id : (h : Hub D) (i : ℕ) → (receive h i).0.next_id ≡ h.next_id
  unfolding receive
  receive-next_id h i = refl

  receive-IsServed :
      (w : World D) (i : ℕ)
      → IsServed w
      → IsServed (record {
        hub = (receive w.hub i).0;
        got = got_more w.got i (to_list (receive w.hub i).1);
      })
  receive-IsServed w i v = record {
    ring = receive-IsRing w.hub i v.ring;
    streams = λ j s h.
        let (r, old, e) =
          get_elem?-update_at rest_of i j w.hub.subs s
            (subst (λ l. get_elem? l j ≡ some s) (receive-subs w.hub i) h) in
        rw (receive-next_id w.hub i, e) (served j r old (ℕ_discrete i j));
  }
    where
      served :
          (j : ℕ) (r : Subscription D)
          → get_elem? w.hub.subs j ≡ some r
          → Dec (i ≡ j)
          → IsStream w.hub.next_id
              (got_more w.got i (to_list (receive w.hub i).1) j)
              (if i == j then rest_of r else r)
      served j r old (yes same) =
          rw
            (
              (==_same i j same),
              (receive-got w.hub i r (subst (λ k. get_elem? w.hub.subs k ≡ some r) (sym same) old)),
            )
            (rest_of-IsStream w.hub.next_id (w.got j) r (v.streams j r old))
      served j r old (no other) = rw (==_other i j other) (v.streams j r old)

  Step-IsServed : {u w : World D} → Step u w → IsServed u → IsServed w
  Step-IsServed (publishes w type channel body now) v = publish-IsServed w type channel body now v
  Step-IsServed (subscribes w after) v = subscribe-IsServed w after v
  Step-IsServed (reads w i) v = receive-IsServed w i v
  Step-IsServed (closes w i) v = close-IsServed w i v

  Reach-IsServed : {u w : World D} → IsServed u → Reach u w → IsServed w
  Reach-IsServed v here = v
  Reach-IsServed v (next r st) = Step-IsServed st (Reach-IsServed v r)

  -- A hub that was just made, without clients.
  abbrev pub fresh : ℕ → World D
  fresh cap = record { hub = new_hub cap; got = λ i. [] }

  fresh-IsServed : (cap : ℕ) → IsServed (fresh cap)
  unfolding new_hub
  fresh-IsServed cap = record { ring = new_hub-IsRing cap; streams = λ i s h. cc }

  -- In every state that a new hub reaches by publishing, subscribing, reading and closing, in any order: the ring
  -- holds the newest events, and what a client has read, with what waits for it, is numbered without a gap or a
  -- repeat, up to the newest event unless the client was cut off.
  pub new_hub-IsServed : (cap : ℕ) (w : World D) → Reach (fresh cap) w → IsServed w
  new_hub-IsServed cap w r = Reach-IsServed (fresh-IsServed cap) r

  -- A client that has read consecutive events up to some number misses and repeats nothing when it subscribes
  -- behind that number, provided the ring still holds the event after it and the number is not above the newest
  -- one.
  pub subscribe_resumes :
      (h : Hub D) (first seen : ℕ) (read : List (Event D)) (r : IsRing h)
      → Numbered first (suc seen) read
      → r.oldest ≤ suc seen
      → suc seen ≤ h.next_id
      → Numbered first h.next_id (read ++ (subscribe h seen).1)
  unfolding subscribe
  subscribe_resumes h first seen read r n old known = elim (dec_lt seen h.next_id) [
    | yes g ↦ Numbered-append first (suc seen) h.next_id read (newer seen h.ring) n (
        subst (λ t. Numbered t h.next_id (newer seen h.ring)) (omega arith)
          (newer-Numbered seen r.oldest h.next_id h.ring r.numbered g))
    | no g ↦ absurd (omega arith)
  ]

-- ===== src/Broker/Flights.antt =====
-- services/engine/ads.go: at most one request in flight for an entry.
use mathlib.Core.Bool.{false≢true}
use fast_tv_playout_core.Base.{
  ℕ, zero, suc, ◌≤◌, ◌<◌, ◌≡◌, refl, true, not, ◌&&◌, Bool-cases, inl, inr, Option, none, some,
  List, [], ◌∷◌, ◌++◌, length, get_or, set, All, All-append, length-set, length-append, ltb_ℤ, pos,
  arith,
}
use fast_tv_playout_core.Clock.{Instant, before, sub}
use fast_tv_playout_core.Model.{AdItem}
use fast_tv_playout_core.Pods.{PodState, ready, pending, failed}
use fast_tv_playout_core.Broker.{
  PodEntry, AdBroker, new_broker, find_start, no_entry, entry_at, with_entry, with_new, is_failed,
  asked_again, request_for, request, settled_entry, settle, give_up_at, give_up, recent, evict,
  BrokerStep, asks, ends, gives_up, evicts,
}

-- The requests in flight that an entry may have.
pub FlightsOf : PodState → ℕ → Type 0
FlightsOf pending n = n ≡ 1
FlightsOf failed n = n ≡ 0
FlightsOf ready n = n ≤ 1

-- An entry that waits has exactly one request in flight, one that failed none, and one that is ready one at most.
abbrev pub IsSingle : PodEntry → Type 0
IsSingle en = FlightsOf en.state en.flights

pub record IsBroker (b : AdBroker) : Type 0 where
  pub single : All IsSingle b.store
  pub known : All (λ p. p.1 < length b.store) b.pods

pub data Reaches (b : AdBroker) : AdBroker → Type 0 where
  start : Reaches b b
  more : {c d : AdBroker} → Reaches b c → BrokerStep c d → Reaches b d

All-set :
    (xs : List PodEntry) (i : ℕ) (v : PodEntry)
    → IsSingle v
    → All IsSingle xs
    → All IsSingle (set xs i v)
All-set [] i v h a = tt
All-set (x ∷ xs) zero v h a = (h, a.1)
All-set (x ∷ xs) (suc i) v h a = (a.0, All-set xs i v h a.1)

get_or-IsSingle : (xs : List PodEntry) (i : ℕ) → All IsSingle xs → IsSingle (get_or xs i no_entry)
unfolding FlightsOf
get_or-IsSingle [] i a = omega arith
get_or-IsSingle (x ∷ xs) zero a = a.0
get_or-IsSingle (x ∷ xs) (suc i) a = get_or-IsSingle xs i a.1

pub known_more :
    (n m : ℕ) (pods : List (Instant × ℕ))
    → n ≤ m
    → All (λ p. p.1 < n) pods
    → All (λ p. p.1 < m) pods
known_more n m [] l a = tt
known_more n m (p ∷ pods) l a = (omega (arith, a.0), known_more n m pods l a.1)

pub with_new-IsBroker :
    (b : AdBroker) (t : Instant) (en : PodEntry)
    → IsSingle en
    → IsBroker b
    → IsBroker (with_new b t en)
with_new-IsBroker b t en h v =
    let longer = length-append b.store (en ∷ []) in
    record {
      single = All-append IsSingle b.store (en ∷ []) v.single (h, tt);
      known = (
        omega (arith, longer),
        known_more (length b.store) (length (b.store ++ (en ∷ []))) b.pods (omega (arith, longer))
            v.known,
      );
    }

pub with_entry-IsBroker :
    (b : AdBroker) (i : ℕ) (en : PodEntry) → IsSingle en → IsBroker b → IsBroker (with_entry b i en)
with_entry-IsBroker b i en h v = record {
  single = All-set b.store i en h v.single;
  known =
      known_more (length b.store) (length (set b.store i en)) b.pods
        (omega (arith, length-set b.store i en)) v.known;
}

asked_again-IsSingle :
    (en : PodEntry) → is_failed en.state ≡ true → IsSingle en → IsSingle (asked_again en)
unfolding FlightsOf
asked_again-IsSingle en f h = again en.state en.flights f h
  where
    again : (s : PodState) (n : ℕ) → is_failed s ≡ true → FlightsOf s n → FlightsOf pending (suc n)
    again failed n e h = omega (arith, h)
    again ready n e h = absurd (false≢true e)
    again pending n e h = absurd (false≢true e)

request_for-IsBroker :
    (t now : Instant) (b : AdBroker) (o : Option ℕ)
    → IsBroker b
    → IsBroker (request_for t now b o).0
unfolding request_for
request_for-IsBroker t now b none v =
    with_new-IsBroker b t (asked_again no_entry) (unfold FlightsOf in refl) v
request_for-IsBroker t now b (some i) v =
    let en = entry_at b i in
    elim (Bool-cases (is_failed en.state && not (ltb_ℤ (sub now en.failed_at) (pos 1000000000)))) [
      | inl e ↦ rw e (
          with_entry-IsBroker b i (asked_again en)
            (asked_again-IsSingle en (ground (arith, e)) (get_or-IsSingle b.store i v.single)) v)
      | inr e ↦ rw e v
    ]

settled_entry-IsSingle :
    (now : Instant) (r : Option (List AdItem)) (en : PodEntry) (n : ℕ)
    → en.flights ≡ suc n
    → IsSingle en
    → IsSingle (settled_entry now r en)
unfolding settled_entry
settled_entry-IsSingle now r en n e h = over r en.state en.flights e h
  where
    over :
        (r : Option (List AdItem)) (s : PodState) (k : ℕ)
        → k ≡ suc n
        → FlightsOf s k
        → IsSingle (
            settled_entry now r
              (record { items = en.items; state = s; failed_at = en.failed_at; flights = k }))
    over none pending k e h = unfold FlightsOf settled_entry in omega (arith, h)
    over (some items) pending k e h = unfold FlightsOf settled_entry in omega (arith, h)
    over r ready k e h = unfold FlightsOf settled_entry in omega (arith, h)
    over r failed k e h = absurd (unfold FlightsOf in omega (arith, e, h))

give_up_at-IsBroker :
    (t : Instant) (b : AdBroker) (o : Option ℕ) → IsBroker b → IsBroker (give_up_at t b o)
unfolding give_up_at
give_up_at-IsBroker t b none v = with_new-IsBroker b t no_entry (unfold FlightsOf in omega arith) v
give_up_at-IsBroker t b (some i) v =
    with_entry-IsBroker b i (record (entry_at b i) { items = []; state = ready })
      (few (entry_at b i).state (entry_at b i).flights (get_or-IsSingle b.store i v.single)) v
  where
    few : (s : PodState) (n : ℕ) → FlightsOf s n → FlightsOf ready n
    few pending n h = unfold FlightsOf in omega (arith, h)
    few failed n h = unfold FlightsOf in omega (arith, h)
    few ready n h = h

recent-known :
    (n : ℕ) (cutoff : Instant) (pods : List (Instant × ℕ))
    → All (λ p. p.1 < n) pods
    → All (λ p. p.1 < n) (recent cutoff pods)
unfolding recent
recent-known n cutoff [] a = tt
recent-known n cutoff ((k, i) ∷ pods) a = elim (Bool-cases (before k cutoff)) [
  | inl e ↦ rw e (recent-known n cutoff pods a.1)
  | inr e ↦ rw e (a.0, recent-known n cutoff pods a.1)
]

pub BrokerStep-IsBroker : {b c : AdBroker} → BrokerStep b c → IsBroker b → IsBroker c
BrokerStep-IsBroker {b} (asks e now) v =
    unfold request in request_for-IsBroker e.start now b (find_start e.start b.pods) v
BrokerStep-IsBroker {b} (ends i now r n f) v =
    unfold settle in
    with_entry-IsBroker b i (settled_entry now r (entry_at b i))
      (settled_entry-IsSingle now r (entry_at b i) n f (get_or-IsSingle b.store i v.single)) v
BrokerStep-IsBroker {b} (gives_up t) v =
    unfold give_up in give_up_at-IsBroker t b (find_start t b.pods) v
BrokerStep-IsBroker {b} (evicts now) v =
    unfold evict in
    record { single = v.single; known = recent-known (length b.store) _ b.pods v.known }

-- In every state that a new broker reaches by asking for pods, ends of requests, giving up and evicting, in any
-- order: an entry that waits has exactly one request in flight, one that failed has none, and one that is ready
-- has one at most; and every break that is known has an entry.
pub Reaches-IsBroker : {b : AdBroker} → Reaches new_broker b → IsBroker b
Reaches-IsBroker start = record { single = tt; known = tt }
Reaches-IsBroker (more r s) = BrokerStep-IsBroker s (Reaches-IsBroker r)

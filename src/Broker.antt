-- ===== src/Broker.antt =====
-- services/engine/ads.go: adBroker. The requests run beside the engine: each step of the program under the lock is a
-- step here. An entry is known by its place in a store, since a request keeps the entry it was started for.
pub mod Flights
pub mod Settled
mod Tests
use fast_tv_playout_core.Base.{
  ℕ, zero, suc, ◌+◌, ◌-◌, ◌*◌, ◌==◌, ◌≡◌, Bool, true, false, not, ◌&&◌, Option, none, some, List,
  [], ◌∷◌, ◌++◌, if◌then◌else◌, length, get_or, set, ℤ, pos, ltb_ℤ,
}
use fast_tv_playout_core.Clock.{Instant, second, before, add, minus, sub}
use fast_tv_playout_core.Model.{TimelineEntry, AdItem}
use fast_tv_playout_core.Pods.{PodState, ready, pending, failed, PodAnswer, PodSource}

-- podEntry; `flights` counts the requests in flight that were started for it, of which `done` of the source is closed
-- when there is none.
pub record PodEntry : Type 0 where
  pub items : List AdItem
  pub state : PodState
  pub failed_at : Instant
  pub flights : ℕ

-- adBroker: the entries that were ever made, and the map of the breaks.
pub record AdBroker : Type 0 where
  pub store : List PodEntry
  pub pods : List (Instant × ℕ)

abbrev pub new_broker : AdBroker
new_broker = record { store = []; pods = [] }

-- adRetryEvery
abbrev pub retry_every : ℕ
retry_every = second

pub find_start : Instant → List (Instant × ℕ) → Option ℕ
find_start start [] = none
find_start start ((k, i) ∷ pods) = if start == k then some i else find_start start pods

abbrev pub no_entry : PodEntry
no_entry = record { items = []; state = ready; failed_at = 0; flights = 0 }

abbrev pub entry_at : AdBroker → ℕ → PodEntry
entry_at b i = get_or b.store i no_entry

abbrev pub with_entry : AdBroker → ℕ → PodEntry → AdBroker
with_entry b i en = record b { store = set b.store i en }

-- A new entry of a break.
abbrev pub with_new : AdBroker → Instant → PodEntry → AdBroker
with_new b start en = record {
  store = b.store ++ (en ∷ []);
  pods = (start, length b.store) ∷ b.pods;
}

-- seed
unfoldable pub seed : Instant → List AdItem → AdBroker → AdBroker
seed start items b =
    with_new b start (record { items = items; state = ready; failed_at = 0; flights = 0 })

abbrev pub is_failed : PodState → Bool
is_failed failed = true
is_failed ready = false
is_failed pending = false

abbrev pub is_pending : PodState → Bool
is_pending pending = true
is_pending ready = false
is_pending failed = false

-- fetch: a request is started for the entry.
abbrev pub asked_again : PodEntry → PodEntry
asked_again en = record en { state = pending; flights = suc en.flights }

-- The entry that pod works on, and the broker.
pub request_for : Instant → Instant → AdBroker → Option ℕ → AdBroker × ℕ
request_for start now b none = (with_new b start (asked_again no_entry), length b.store)
request_for start now b (some i) = (
  if is_failed (entry_at b i).state
        && not (ltb_ℤ (sub now (entry_at b i).failed_at) (pos retry_every))
      then with_entry b i (asked_again (entry_at b i))
      else b,
  i,
)

-- The first part of pod, up to the wait.
unfoldable pub request : TimelineEntry → Instant → AdBroker → AdBroker × ℕ
unfolding request_for find_start
request e now b = request_for e.start now b (find_start e.start b.pods)

-- The end of a request: what callAds gave, none where it failed, changes an entry that still waits.
pub settled_entry : Instant → Option (List AdItem) → PodEntry → PodEntry
settled_entry now r en =
    let over = record en { flights = en.flights - 1 } in
    if is_pending en.state
    then elim r [
      | none ↦ record over { state = failed; failed_at = now }
      | some items ↦ record over { items = items; state = ready }
    ]
    else over

unfoldable pub settle : ℕ → Instant → Option (List AdItem) → AdBroker → AdBroker
unfolding settled_entry
settle i now r b = with_entry b i (settled_entry now r (entry_at b i))

pub give_up_at : Instant → AdBroker → Option ℕ → AdBroker
give_up_at start b none = with_new b start no_entry
give_up_at start b (some i) = with_entry b i (record (entry_at b i) { items = []; state = ready })

-- giveUp
unfoldable pub give_up : Instant → AdBroker → AdBroker
unfolding give_up_at find_start
give_up start b = give_up_at start b (find_start start b.pods)

pub recent : Instant → List (Instant × ℕ) → List (Instant × ℕ)
recent cutoff [] = []
recent cutoff ((k, i) ∷ pods) =
    let rest = recent cutoff pods in if before k cutoff then rest else (k, i) ∷ rest

abbrev pub kept_for : ℕ
kept_for = 3600 * second

-- evict
unfoldable pub evict : Instant → AdBroker → AdBroker
unfolding recent
evict now b = record b { pods = recent (add now (minus (pos kept_for))) b.pods }

-- The steps of the engine and of the requests, in any order.
pub data BrokerStep (b : AdBroker) : AdBroker → Type 0 where
  asks : (e : TimelineEntry) (now : Instant) → BrokerStep b (request e now b).0
  ends :
      (i : ℕ) (now : Instant) (r : Option (List AdItem)) (n : ℕ)
      → (entry_at b i).flights ≡ suc n
      → BrokerStep b (settle i now r b)
  gives_up : (start : Instant) → BrokerStep b (give_up start b)
  evicts : (now : Instant) → BrokerStep b (evict now b)

-- podSource; the parameter is what other steps do to the broker while pod waits for a pod that is due.
abbrev pub ad_broker : Instant → (AdBroker → AdBroker) → PodSource AdBroker
ad_broker now meanwhile = record {
  pod = λ e due b.
      let r = request e now b in
      let b' = if due then meanwhile r.0 else r.0 in
      record { items = (entry_at b' r.1).items; state = (entry_at b' r.1).state; source = b' };
  give_up = give_up;
  evict = evict;
}

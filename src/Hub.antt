-- ===== src/Hub.antt =====
-- pkg/events/events.go: the bus that keeps the last events and hands new ones to its subscribers. Every method
-- holds the lock of the hub from its first line to its last, so a method is one step.
pub mod Ring
pub mod Streams
pub mod Served
mod Tests
use fast_tv_playout_core.Base.{
  ℕ, zero, suc, ◌+◌, ◌-◌, Bool, true, false, List, [], ◌∷◌, ◌++◌, map, Option, none, some, String,
  ltb, if◌then◌else◌, length, drop, get_elem?,
}
use fast_tv_playout_core.Clock.{Instant}

-- D is the type of what an event carries (map[string]any).
pub record Event (D : Type 0) : Type 0 where
  pub id : ℕ
  pub type : String
  pub time : Instant
  pub channel : String
  pub body : D

-- The channel C of a subscription, with room for 256 events, and whether it is closed. A closed channel still
-- gives out what it holds. The map subs of the hub holds the subscriptions that are not closed.
pub record Subscription (D : Type 0) : Type 0 where
  pub buffer : List (Event D)
  pub closed : Bool

pub record Hub (D : Type 0) : Type 0 where
  pub ring : List (Event D)
  pub cap : ℕ
  pub next_id : ℕ
  pub subs : List (Subscription D)

abbrev pub buffer_size : ℕ
buffer_size = 256

module _ {D : Type 0} where
  -- NewHub, with the given capacity or 1000
  unfoldable pub new_hub : ℕ → Hub D
  new_hub capacity = record {
    ring = [];
    cap = if ltb capacity 1 then 1000 else capacity;
    next_id = 1;
    subs = [];
  }

  -- closeLocked
  pub close_sub : Subscription D → Subscription D
  close_sub s = if s.closed then s else record s { closed = true }

  -- The select of Publish: the event goes into the channel if there is room, or the subscriber is cut off.
  pub offer : Event D → Subscription D → Subscription D
  unfolding close_sub
  offer ev s =
      if s.closed
      then s
      else if ltb (length s.buffer) buffer_size
      then record s { buffer = s.buffer ++ ev ∷ [] }
      else close_sub s

  abbrev event_of : Hub D → String → String → D → Instant → Event D
  event_of h type channel body now = record {
    id = h.next_id;
    type = type;
    time = now;
    channel = channel;
    body = body;
  }

  pub keep_last : ℕ → List (Event D) → List (Event D)
  keep_last cap ring = if ltb cap (length ring) then drop (length ring - cap) ring else ring

  pub publish : Hub D → String → String → D → Instant → Hub D × Event D
  unfolding offer keep_last
  publish h type channel body now =
      let ev = event_of h type channel body now in
      (
        record h {
          next_id = suc h.next_id;
          ring = keep_last h.cap (h.ring ++ ev ∷ []);
          subs = map (offer ev) h.subs;
        },
        ev,
      )

  pub newer : ℕ → List (Event D) → List (Event D)
  newer after [] = []
  newer after (e ∷ es) = let rest = newer after es in if ltb after e.id then e ∷ rest else rest

  -- Subscribe: the replay, and the hub with the new subscription at the end of its list.
  pub subscribe : Hub D → ℕ → Hub D × List (Event D)
  unfolding newer
  subscribe h after = (
    record h { subs = h.subs ++ record { buffer = []; closed = false } ∷ [] },
    newer after h.ring,
  )

  pub last_id : Hub D → ℕ
  last_id h = h.next_id - 1

  pub update_at :
      ℕ → (Subscription D → Subscription D) → List (Subscription D) → List (Subscription D)
  update_at i f [] = []
  update_at zero f (s ∷ ss) = f s ∷ ss
  update_at (suc i) f (s ∷ ss) = s ∷ update_at i f ss

  -- Close of a subscription.
  pub close : Hub D → ℕ → Hub D
  unfolding update_at close_sub
  close h i = record h { subs = update_at i close_sub h.subs }

  pub rest_of : Subscription D → Subscription D
  rest_of s = record s { buffer = drop 1 s.buffer }

  -- <-sub.C of a subscriber: the oldest event of its channel, if it holds one.
  pub receive : Hub D → ℕ → Hub D × Option (Event D)
  unfolding update_at rest_of
  receive h i = (
    record h { subs = update_at i rest_of h.subs },
    elim (get_elem? h.subs i) [ none ↦ none | some s ↦ get_elem? s.buffer 0 ],
  )

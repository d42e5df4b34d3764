-- ===== src/Broker/Tests.antt =====
-- A break whose pod comes after it was given up.
use fast_tv_playout_core.Base.{◌≡◌, ◌*◌, refl, some, [], ◌∷◌, pos, false}
use fast_tv_playout_core.Clock.{second}
use fast_tv_playout_core.Model.{TimelineEntry, AdItem}
use fast_tv_playout_core.Pods.{ready}
use fast_tv_playout_core.Broker.{
  AdBroker, new_broker, request, settle, give_up, find_start, request_for, settled_entry,
  give_up_at, asks, ends, ad_broker,
}
use fast_tv_playout_core.Broker.Flights.{IsBroker, Reaches, start, more, Reaches-IsBroker}
use fast_tv_playout_core.Broker.Settled.{Later, same, after, Spares, give_up-Later}

abbrev late_break : TimelineEntry
late_break = record {
  type = "ad_break";
  asset_id = "";
  uri = "";
  start = 1000 * second;
  duration_s = pos 30;
  offset_s = pos 0;
  category = "";
  scte35 = "";
}

abbrev late_pod : AdItem
late_pod = record { uri = "ad.mp4"; duration_s = pos 30; creative_id = "ad"; type = "ad" }

-- The request is in flight.
abbrev waiting : AdBroker
waiting = (request late_break (990 * second) new_broker).0

waiting-Reaches : Reaches new_broker waiting
waiting-Reaches = more start (asks late_break (990 * second))

-- The break was given up, and then the pod came.
abbrev answered : AdBroker
answered = settle 0 (1001 * second) (some (late_pod ∷ [])) (give_up late_break.start waiting)

answered-Later : Later late_break.start (give_up late_break.start waiting) answered
unfolding Spares request request_for give_up give_up_at find_start
answered-Later = after same (ends 0 (1001 * second) (some (late_pod ∷ [])) 0 refl) tt

Reaches-IsBroker_example : IsBroker waiting
Reaches-IsBroker_example = Reaches-IsBroker waiting-Reaches

give_up-Later_example :
    let a = (ad_broker (1002 * second) (λ b. b)).pod late_break false answered in
    (a.items ≡ []) × (a.state ≡ ready) × (a.source ≡ answered)
give_up-Later_example =
    give_up-Later waiting answered late_break.start (1002 * second) late_break (λ b. b)
      waiting-Reaches answered-Later refl

-- A pod that comes in time is used.
used :
    (let a =
        (ad_broker (1002 * second) (λ b. b)).pod late_break false
          (settle 0 (991 * second) (some (late_pod ∷ [])) waiting) in
      a.items)
    ≡ late_pod ∷ []
unfolding request request_for settle settled_entry find_start
used = refl

-- ===== src/Pods.antt =====
-- services/engine/ads.go: the interface podSource, as operations on a state of the source.
use fast_tv_playout_core.Base.{Bool, List}
use fast_tv_playout_core.Clock.{Instant}
use fast_tv_playout_core.Model.{TimelineEntry, AdItem}

pub data PodState : Type 0 where
  ready pending failed : PodState

pub record PodAnswer (S : Type 0) : Type 0 where
  pub items : List AdItem
  pub state : PodState
  pub source : S

pub record PodSource (S : Type 0) : Type 0 where
  pub pod : TimelineEntry → Bool → S → PodAnswer S
  pub give_up : Instant → S → S
  pub evict : Instant → S → S

-- ===== src/Failures.antt =====
-- services/engine/events.go: sourceFailed, which tells the listeners of a source that could not be used, but not of
-- every segment of it.
pub mod Quiet
mod Tests
use fast_tv_playout_core.Base.{
  ℕ, ◌*◌, Bool, true, false, ◌&&◌, Option, none, some, List, [], ◌∷◌, ltb, if◌then◌else◌, length,
  String, str_eq, ℤ, pos, ltb_ℤ,
}
use Prim.Native.String.{◌++◌}
use fast_tv_playout_core.Clock.{Instant, second, sub}

-- The arguments of sourceFailed: the reason, the source, and the moment of the clip.
pub record SourceFailure : Type 0 where
  pub reason : String
  pub uri : String
  pub start_at : Instant

-- failedAt: a map, each key at most once.
abbrev pub FailedAt : Type 0
FailedAt = List (String × Instant)

abbrev pub key_of : SourceFailure → String
key_of f = f.reason ++ ("|" ++ f.uri)

pub lookup : String → FailedAt → Option Instant
lookup key [] = none
lookup key ((k, t) ∷ m) = if str_eq key k then some t else lookup key m

pub put : String → Instant → FailedAt → FailedAt
put key at [] = (key, at) ∷ []
put key at ((k, t) ∷ m) = if str_eq key k then (key, at) ∷ m else (k, t) ∷ put key at m

abbrev pub is_recent : Option Instant → Instant → Bool
is_recent none at = false
is_recent (some last) at = ltb_ℤ (sub at last) (pos (10 * second))

-- The map after a failure, and whether it was published.
unfoldable pub source_failed : FailedAt → SourceFailure → FailedAt × Bool
unfolding lookup put
source_failed m f =
    if is_recent (lookup (key_of f) m) f.start_at
    then (m, false)
    else (put (key_of f) f.start_at (if ltb 1000 (length m) then [] else m), true)

-- Failures one after the other: those that are published.
unfoldable pub source_failures : FailedAt → List SourceFailure → List SourceFailure
source_failures m [] = []
source_failures m (f ∷ fs) =
    let step = source_failed m f in
    let rest = source_failures step.0 fs in if step.1 then f ∷ rest else rest

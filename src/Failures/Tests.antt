-- ===== src/Failures/Tests.antt =====
-- A source that fails twice within a second.
use fast_tv_playout_core.Base.{◌*◌, ◌≡◌, refl, false, [], ◌∷◌, arith, str_eq, All, String}
use fast_tv_playout_core.Clock.{second, Instant}
use fast_tv_playout_core.Failures.{SourceFailure, key_of, source_failed, source_failures}
use fast_tv_playout_core.Failures.Quiet.{source_failures_quiet}

abbrev fetch_failed : String → Instant → SourceFailure
fetch_failed uri at = record { reason = "fetch"; uri = uri; start_at = at }

source_failures_quiet_example :
    All
      (λ g. str_eq (key_of g) (key_of (fetch_failed "film.mp4" (100 * second))) ≡ false)
      (source_failures
        (source_failed [] (fetch_failed "film.mp4" (100 * second))).0
        (fetch_failed "film.mp4" (101 * second) ∷ fetch_failed "ad.mp4" (102 * second) ∷ []))
source_failures_quiet_example =
    source_failures_quiet [] (fetch_failed "film.mp4" (100 * second))
      (fetch_failed "film.mp4" (101 * second) ∷ fetch_failed "ad.mp4" (102 * second) ∷ [])
      (unfold source_failed in refl) (omega arith) (λ e. omega arith, (λ e. omega arith, tt))

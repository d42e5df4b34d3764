-- ===== src/Fmp4/Tests.antt =====
-- A segment of one fragment.
use fast_tv_playout_core.Base.{
  ℕ, ◌+◌, ◌*◌, ◌≡◌, refl, Bool, false, List, [], ◌∷◌, ◌++◌, inr, ℤ, pos, ◌^◌, ◌<◌, wrap64, ◌+ℤ◌,
  ◌-ℤ◌, ◌*ℤ◌, leb→le, ltb→lt,
}
use fast_tv_playout_core.Fmp4.{children, be32, be64, read_header, find}
use fast_tv_playout_core.Fmp4.Tiling.{Listed, children-Listed}
use fast_tv_playout_core.Fmp4.Init.{Tracks, find_track}
use fast_tv_playout_core.Fmp4.Segment.{
  Traf, walk_segment, retime, parse_traf, trun_duration, run_duration,
}
use fast_tv_playout_core.Fmp4.Segment.Moves.{AllMoved}
use fast_tv_playout_core.Fmp4.Segment.Retimes.{IsUsable, retime-AllMoved}

-- Track 1 with 10 ticks in a second, of which a sample lasts 5.
abbrev one_track : Tracks
one_track = record { id = 1; kind = []; timescale = 10; default_sample_duration = 5 } ∷ []

abbrev header : ℕ → List ℕ → List ℕ
header size typ = 0 ∷ 0 ∷ 0 ∷ size ∷ typ

-- A fragment of two samples with the decode time 30.
abbrev a_segment : List ℕ
a_segment =
    header 68 (109 ∷ 111 ∷ 111 ∷ 102 ∷ [])
    ++ (header 60 (116 ∷ 114 ∷ 97 ∷ 102 ∷ [])
        ++ (header 16 (116 ∷ 102 ∷ 104 ∷ 100 ∷ [])
            ++ (0 ∷ 0 ∷ 0 ∷ 0 ∷ 0 ∷ 0 ∷ 0 ∷ 1 ∷ [])
            ++ (header 20 (116 ∷ 102 ∷ 100 ∷ 116 ∷ [])
                ++ (1 ∷ 0 ∷ 0 ∷ 0 ∷ 0 ∷ 0 ∷ 0 ∷ 0 ∷ 0 ∷ 0 ∷ 0 ∷ 30 ∷ [])
                ++ (header 16 (116 ∷ 114 ∷ 117 ∷ 110 ∷ [])
                    ++ (0 ∷ 0 ∷ 0 ∷ 0 ∷ 0 ∷ 0 ∷ 0 ∷ 2 ∷ [])))))

abbrev its_fragment : Traf
its_fragment = record {
  track = record { id = 1; kind = []; timescale = 10; default_sample_duration = 5 };
  tfdt = record { typ = 116 ∷ 102 ∷ 100 ∷ 116 ∷ []; start = 32; head = 8; size = 20 };
  base = 40;
  version = 1;
  duration = 10;
}

children-Listed_example : Listed 0 68 (children a_segment 0 68)
children-Listed_example = children-Listed a_segment 0 68 (leb→le _ _ refl)

a_segment_walked : walk_segment a_segment one_track ≡ inr (its_fragment ∷ [])
unfolding walk_segment children read_header be32 find find_track parse_traf trun_duration
    run_duration
a_segment_walked = refl

abbrev never_off : ℤ → ℕ → Bool
never_off d scale = false

its_times : (100 * 10 + be64 a_segment 44 < 2 ^ 63) × (3 * 10 < 2 ^ 63)
unfolding be64 be32
its_times = (ltb→lt _ _ refl, ltb→lt _ _ refl)

its_fragment-IsUsable : IsUsable never_off 100 3 a_segment its_fragment
unfolding be64 be32 wrap64 ◌+ℤ◌ ◌-ℤ◌ ◌*ℤ◌
its_fragment-IsUsable = record { version = refl; long = leb→le _ _ refl; near = refl; later = refl }

retime-AllMoved_example :
    (out : List ℕ) × (retime never_off a_segment one_track (pos 100) (pos 3) ≡ inr out)
    × AllMoved 100 3 a_segment (its_fragment ∷ []) out
retime-AllMoved_example =
    retime-AllMoved never_off 100 3 a_segment one_track (its_fragment ∷ []) a_segment_walked
      (tt, tt) (its_times, tt) (its_fragment-IsUsable, tt)

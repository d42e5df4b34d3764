-- ===== src/Schedule/Tests.antt =====
-- A schedule of two movies, an ad break put into the first, and a skip.
use fast_tv_playout_core.Base.{
  ℕ, ◌-◌, ◌*◌, ◌≤◌, ◌≡◌, ◌↔◌, refl, List, [], ◌∷◌, arith, pos, length, sort_stable, Option, inl,
  eq_iff, wrap64, ◌*ℤ◌, ◌+ℤ◌,
}
use mathlib.Core.Bool.{false≢true}
use fast_tv_playout_core.Clock.{second, seconds, sub}
use fast_tv_playout_core.Schedule.{Entry, Edit, ok, end_of, first_part}
use fast_tv_playout_core.Schedule.Air.{IsSound, Follows, playing, apply_edit, finish}
use fast_tv_playout_core.Schedule.Check.{check_entries, max_entries, starts_before}
use fast_tv_playout_core.Schedule.Check.Accepts.{
  HasSource, program, ad_break, IsFit, Accepts, check_entries_iff, check_entries_overflow,
}
use fast_tv_playout_core.Schedule.Insert.{insert_shift, break_airs}
use fast_tv_playout_core.Schedule.Insert.Late.{aired, delay_of}
use fast_tv_playout_core.Schedule.Insert.Correct.{insert_shift_airs}
use fast_tv_playout_core.Schedule.Insert.Passes.{insert_shift_passes}
use fast_tv_playout_core.Schedule.Skip.{skip}
use fast_tv_playout_core.Schedule.Skip.Run.{run_end}
use fast_tv_playout_core.Schedule.Skip.Correct.{skipped_air, skip_airs}

abbrev movie : ℕ → ℕ → Entry
movie from secs = record {
  type = "content";
  asset_id = "film";
  uri = "";
  start = from * second;
  duration_s = pos secs;
  offset_s = pos 0;
  category = "";
  scte35 = "";
}

abbrev ads : Entry
ads = record {
  type = "ad_break";
  asset_id = "";
  uri = "";
  start = 0;
  duration_s = pos 30;
  offset_s = pos 0;
  category = "midroll";
  scte35 = "";
}

abbrev two_movies : List Entry
two_movies = movie 1000 100 ∷ movie 1100 50 ∷ []

movie-sound : IsSound (movie 1000 100)
movie-sound = record {
  whole = refl;
  duration = refl;
  positive = omega arith;
  short = omega arith;
  offset = refl;
  near = omega arith;
}

second_movie-sound : IsSound (movie 1100 50)
second_movie-sound = record {
  whole = refl;
  duration = refl;
  positive = omega arith;
  short = omega arith;
  offset = refl;
  near = omega arith;
}

two_movies-Follows : Follows 0 two_movies
two_movies-Follows = (omega arith, movie-sound, (omega arith, second_movie-sound, tt))

ads-sound : IsSound (record ads { start = 1050 * second })
ads-sound = record {
  whole = refl;
  duration = refl;
  positive = omega arith;
  short = omega arith;
  offset = refl;
  near = omega arith;
}

named : HasSource (movie 1000 100)
named = program (inl refl) (inl (λ e. false≢true ((eq_iff "film" "").1 e)))

insert_shift_airs_example :
    (ed : Edit) × (insert_shift two_movies (1050 * second) ads ≡ ok ed)
    × (playing (1085 * second) (apply_edit ed two_movies)
        ≡ aired
            (1050 * second)
            (delay_of ads)
            (record ads { start = 1050 * second })
            two_movies
            (1085 * second))
unfolding break_airs
insert_shift_airs_example =
    insert_shift_airs two_movies (1050 * second) ads two_movies-Follows ads-sound refl
      (1085 * second)

insert_shift_passes_example :
    (ed : Edit) × (insert_shift two_movies (1050 * second) ads ≡ ok ed)
    × (check_entries ed.entries ed.from ed.to ≡ ok ed.entries)
unfolding break_airs
insert_shift_passes_example =
    insert_shift_passes two_movies (1050 * second) ads two_movies-Follows ads-sound
      (named, (named_second, tt)) (ad_break refl refl refl) refl (omega arith)
  where
    named_second : HasSource (movie 1100 50)
    named_second = program (inl refl) (inl (λ e. false≢true ((eq_iff "film" "").1 e)))

skip_airs_example :
    (ed : Edit) × (skip two_movies (1040 * second) ≡ ok ed)
    × (playing (1060 * second) (apply_edit ed two_movies)
        ≡ skipped_air
            (1040 * second)
            (1100 * second - 1040 * second)
            (run_end (finish (movie 1000 100)) (movie 1100 50 ∷ []))
            two_movies
            (1060 * second))
skip_airs_example =
    skip_airs [] (movie 1000 100) (movie 1100 50 ∷ []) (1040 * second) two_movies-Follows refl
      (omega arith) (omega arith) (1060 * second)

check_entries_iff_example :
    (check_entries (movie 1000 100 ∷ []) 0 (2000 * second) ≡ ok (movie 1000 100 ∷ [])) ↔ (
      (length (movie 1000 100 ∷ []) ≤ max_entries)
      × (movie 1000 100 ∷ [] ≡ sort_stable starts_before (movie 1000 100 ∷ []))
      × Accepts 0 (2000 * second) Option.none (movie 1000 100 ∷ []))
check_entries_iff_example =
    check_entries_iff (movie 1000 100 ∷ []) (movie 1000 100 ∷ []) 0 (2000 * second)

abbrev endless : Entry
endless = movie 1000 10000000000

IsFit-movie : IsFit 0 (2000 * second) (movie 1100 50)
IsFit-movie = record {
  source = program (inl refl) (inl (λ e. false≢true ((eq_iff "film" "").1 e)));
  duration = refl;
  positive = omega arith;
  offset = refl;
  whole = refl;
  lower = omega arith;
  upper = omega arith;
}

IsFit-endless : IsFit 0 (2000 * second) endless
IsFit-endless = record {
  source = program (inl refl) (inl (λ e. false≢true ((eq_iff "film" "").1 e)));
  duration = refl;
  positive = omega arith;
  offset = refl;
  whole = refl;
  lower = omega arith;
  upper = omega arith;
}

check_entries_overflow_example :
    check_entries (endless ∷ movie 1100 50 ∷ []) 0 (2000 * second)
    ≡ ok (endless ∷ movie 1100 50 ∷ [])
check_entries_overflow_example =
    check_entries_overflow endless (movie 1100 50) 0 (2000 * second) IsFit-endless IsFit-movie
      (omega arith) (omega arith) (omega arith)

-- The break cuts the movie after fifty seconds, and the rest of it follows the break.
cut_movie :
    insert_shift two_movies (1050 * second) ads
    ≡ ok (record {
      from = 1000 * second;
      to = 1180 * second;
      entries =
          movie 1000 50
          ∷ record ads { start = 1050 * second }
          ∷ record (movie 1080 50) { offset_s = pos 50 }
          ∷ movie 1130 50
          ∷ [];
    })
unfolding insert_shift seconds sub end_of first_part wrap64 ◌*ℤ◌ ◌+ℤ◌
cut_movie = refl

-- ===== src/Scte35/Tests.antt =====
-- A message with a time and a duration, and its bytes.
use fast_tv_playout_core.Base.{◌≡◌, refl, true, false, some, List, [], ◌∷◌, ℕ, arith}
use fast_tv_playout_core.Scte35.{SpliceInsert, done, encode, decode, crc32mpeg}
use fast_tv_playout_core.Scte35.Command.{IsRanged}
use fast_tv_playout_core.Scte35.RoundTrip.{at_time, as_sent, section_of, decode-encode}

abbrev timed : SpliceInsert
timed = record {
  event_id = 7;
  cancel = false;
  out = true;
  immediate = false;
  pts = some 900000;
  duration_ticks = 2700000;
  auto_return = true;
  unique_program_id = 1;
  avail_num = 2;
  avails_expected = 3;
}

timed-IsRanged : IsRanged timed
timed-IsRanged = record {
  id = omega arith;
  time = refl;
  duration = omega arith;
  program = omega arith;
  num = omega arith;
  expected = omega arith;
}

decode-encode_example :
    (b : List ℕ) × (encode timed ≡ done b) × (decode b ≡ done (section_of (as_sent timed)))
decode-encode_example = decode-encode timed timed-IsRanged (at_time 900000 refl refl refl)

-- The check sum of nine digits, as the standard gives it.
check_digits : crc32mpeg (49 ∷ 50 ∷ 51 ∷ 52 ∷ 53 ∷ 54 ∷ 55 ∷ 56 ∷ 57 ∷ []) ≡ 58124007
unfolding crc32mpeg
check_digits = refl

-- ===== src/Fmp4/Segment.antt =====
-- The media segments of pkg/fmp4/fmp4.go: their fragments, and Retime. The test of Retime in floating-point numbers
-- is a parameter.
pub mod Moves
pub mod Retimes
use fast_tv_playout_core.Base.{
  ℕ, zero, suc, ◌+◌, ◌-◌, ◌*◌, ◌/◌, ◌%◌, ◌^◌, Bool, true, false, not, ◌==◌, List, [], ◌∷◌, ◌++◌,
  ltb, if◌then◌else◌, length, take, drop, get_or, set, is_nil, ◌⊎◌, inl, inr, Option, none, some, ℤ,
  pos, pos_part, wrap64, ltb_ℤ, ◌+ℤ◌, ◌-ℤ◌, ◌*ℤ◌,
}
use fast_tv_playout_core.Fmp4.{
  Damage, FourCc, Box, children, find, same_bytes, body_start, end_of_box, be32, be64, u32, no_tfhd,
  unknown_track, no_tfdt, short_tfdt, no_duration, short_trun, no_traf, tfdt_version, off_grid,
  before_start,
}
use fast_tv_playout_core.Fmp4.Init.{Track, Tracks, find_track, needed, ◌>>=◌}

-- traf; `base` is the field tfdtBase.
pub record Traf : Type 0 where
  pub track : Track
  pub tfdt : Box
  pub base : ℕ
  pub version : ℕ
  pub duration : ℕ

pub record Fragment : Type 0 where
  pub track : Track
  pub tfdt : ℕ
  pub duration : ℕ

-- flags & 2^n
abbrev pub has_flag : ℕ → ℕ → Bool
has_flag flags n = flags / 2 ^ n % 2 == 1

abbrev pub four_if : Bool → ℕ
four_if b = if b then 4 else 0

-- The sum of the sample durations; its first is at p, the next ones `per` bytes on.
pub sum_samples : ℕ → ℕ → ℕ → List ℕ → ℕ
sum_samples zero per p b = 0
sum_samples (suc n) per p b = (be32 b p + sum_samples n per (p + per) b) % 2 ^ 64

-- trunDuration from its flags and its count on
unfoldable pub run_duration : List ℕ → Box → ℕ → ℕ → ℕ → Damage ⊎ ℕ
unfolding sum_samples
run_duration b k def_dur flags count =
    if not (has_flag flags 8)
    then (if def_dur == 0 then inl no_duration else inr (count * def_dur))
    else let p = body_start k + 8 + four_if (has_flag flags 0) + four_if (has_flag flags 2) in
      let per =
        4
        + four_if (has_flag flags 9)
        + four_if (has_flag flags 10)
        + four_if (has_flag flags 11) in
      if ltb (end_of_box k) (p + count * per)
      then inl short_trun
      else inr (sum_samples count per p b)

unfoldable pub trun_duration : List ℕ → Box → ℕ → Damage ⊎ ℕ
trun_duration b k def_dur = do
  flags ← u32 b (body_start k)
  count ← u32 b (body_start k + 4)
  run_duration b k def_dur flags count

abbrev tfhd : FourCc
tfhd = 116 ∷ 102 ∷ 104 ∷ 100 ∷ []

abbrev tfdt : FourCc
tfdt = 116 ∷ 102 ∷ 100 ∷ 116 ∷ []

abbrev trun : FourCc
trun = 116 ∷ 114 ∷ 117 ∷ 110 ∷ []

abbrev moof : FourCc
moof = 109 ∷ 111 ∷ 111 ∷ 102 ∷ []

abbrev traf : FourCc
traf = 116 ∷ 114 ∷ 97 ∷ 102 ∷ []

abbrev mdat : FourCc
mdat = 109 ∷ 100 ∷ 97 ∷ 116 ∷ []

-- The loop over the trun boxes.
pub runs : List ℕ → ℕ → ℕ → List Box → Damage ⊎ ℕ
unfolding trun_duration
runs b def_dur sum [] = inr sum
runs b def_dur sum (k ∷ kids) =
    if same_bytes k.typ trun
    then (do d ← trun_duration b k def_dur; runs b def_dur ((sum + d) % 2 ^ 64) kids)
    else runs b def_dur sum kids

abbrev pub known_track : Option Track → Damage ⊎ Track
known_track none = inl unknown_track
known_track (some t) = inr t

-- The default duration: the one of the fragment, if it has one, or that of the track.
abbrev pub default_of : List ℕ → Box → ℕ → Track → Damage ⊎ ℕ
default_of b h flags t =
    if has_flag flags 3
    then u32 b (body_start h + 8 + four_if (has_flag flags 0) * 2 + four_if (has_flag flags 1))
    else inr t.default_sample_duration

unfoldable pub parse_traf : List ℕ → Tracks → Box → Damage ⊎ Traf
unfolding runs
parse_traf b ts x = do
  kids ← children b (body_start x) (end_of_box x)
  h ← needed no_tfhd (find tfhd kids)
  flags ← u32 b (body_start h)
  id ← u32 b (body_start h + 4)
  t ← known_track (find_track id ts)
  def_dur ← default_of b h flags t
  time ← needed no_tfdt (find tfdt kids)
  if not (ltb (body_start time) (length b)) then inl short_tfdt else (do
    sum ← runs b def_dur 0 kids
    inr (record {
      track = t;
      tfdt = time;
      base = body_start time;
      version = get_or b (body_start time) 0;
      duration = sum;
    }))

-- The loop over the boxes of a moof.
pub trafs : List ℕ → Tracks → List Box → Damage ⊎ List Traf
unfolding parse_traf
trafs b ts [] = inr []
trafs b ts (x ∷ xs) =
    if same_bytes x.typ traf
    then (do t ← parse_traf b ts x; rest ← trafs b ts xs; inr (t ∷ rest))
    else trafs b ts xs

-- The loop over the boxes of a segment.
pub moofs : List ℕ → Tracks → List Box → Damage ⊎ List Traf
unfolding trafs
moofs b ts [] = inr []
moofs b ts (m ∷ ms) =
    if same_bytes m.typ moof
    then (do
      kids ← children b (body_start m) (end_of_box m)
      here ← trafs b ts kids
      rest ← moofs b ts ms
      inr (here ++ rest))
    else moofs b ts ms

-- walk
unfoldable pub walk_segment : List ℕ → Tracks → Damage ⊎ List Traf
unfolding moofs
walk_segment seg ts = do
  top ← children seg 0 (length seg)
  out ← moofs seg ts top
  if is_nil out then inl no_traf else inr out

-- The decode time of a fragment, of 64 or of 32 bits.
pub decode_time_of : List ℕ → Traf → Damage ⊎ ℕ
decode_time_of seg tf =
    if tf.version == 1
    then (if ltb (length seg) (tf.base + 12) then inl short_tfdt else inr (be64 seg (tf.base + 4)))
    else if ltb (length seg) (tf.base + 8)
    then inl short_tfdt
    else inr (be32 seg (tf.base + 4))

pub fragments_of : List ℕ → List Traf → Damage ⊎ List Fragment
unfolding decode_time_of
fragments_of seg [] = inr []
fragments_of seg (tf ∷ tfs) = do
  v ← decode_time_of seg tf
  rest ← fragments_of seg tfs
  inr (record { track = tf.track; tfdt = v; duration = tf.duration } ∷ rest)

unfoldable pub fragments : List ℕ → Tracks → Damage ⊎ List Fragment
unfolding walk_segment fragments_of
fragments seg ts = do tfs ← walk_segment seg ts; fragments_of seg tfs

-- MediaData
pub media_of : List ℕ → List Box → List ℕ
media_of seg [] = []
media_of seg (x ∷ xs) =
    if same_bytes x.typ mdat
    then take x.size (drop (body_start x) (take (end_of_box x) seg)) ++ media_of seg xs
    else media_of seg xs

unfoldable pub media_data : List ℕ → Damage ⊎ List ℕ
unfolding media_of
media_data seg = do top ← children seg 0 (length seg); inr (media_of seg top)

-- PutUint64: the eight bytes from a position on.
unfoldable pub put32 : List ℕ → ℕ → ℕ → List ℕ
put32 b p v =
    set
      (set (set (set b p (v / 2 ^ 24 % 256)) (p + 1) (v / 2 ^ 16 % 256)) (p + 2) (v / 2 ^ 8 % 256))
      (p + 3) (v % 256)

unfoldable pub put64 : List ℕ → ℕ → ℕ → List ℕ
put64 b p v = put32 (put32 b p (v / 2 ^ 32)) (p + 4) (v % 2 ^ 32)

-- How far a fragment is from the second of its file where it should be, in ticks.
abbrev pub drift : ℤ → ℕ → ℕ → ℤ
drift nominal scale have = wrap64 (wrap64 (pos have) -ℤ wrap64 (nominal *ℤ pos scale))

-- The time that a fragment gets.
abbrev pub retimed : ℤ → ℤ → ℕ → ℕ → ℤ
retimed anchor nominal scale have =
    wrap64 (wrap64 (anchor *ℤ pos scale) +ℤ drift nominal scale have)

-- A parameter: math.Abs(float64(diff)) > tolS*float64(scale), for the difference and the time scale.
module _ (is_off : ℤ → ℕ → Bool) where
  -- One fragment of the loop of Retime.
  unfoldable pub retime_one : ℤ → ℤ → List ℕ → Traf → Damage ⊎ List ℕ
  retime_one anchor nominal out tf =
      let have = be64 out (tf.base + 4) in
      let v = retimed anchor nominal tf.track.timescale have in
      if not (tf.version == 1)
      then inl tfdt_version
      else if ltb (length out) (tf.base + 12)
      then inl short_tfdt
      else if is_off (drift nominal tf.track.timescale have) tf.track.timescale
      then inl off_grid
      else if ltb_ℤ v (pos 0)
      then inl before_start
      else inr (put64 out (tf.base + 4) (pos_part v))

  pub retime_all : ℤ → ℤ → List ℕ → List Traf → Damage ⊎ List ℕ
  unfolding retime_one
  retime_all anchor nominal out [] = inr out
  retime_all anchor nominal out (tf ∷ tfs) = do
    out' ← retime_one anchor nominal out tf
    retime_all anchor nominal out' tfs

  unfoldable pub retime : List ℕ → Tracks → ℤ → ℤ → Damage ⊎ List ℕ
  unfolding walk_segment retime_all
  retime seg ts anchor nominal = do tfs ← walk_segment seg ts; retime_all anchor nominal seg tfs

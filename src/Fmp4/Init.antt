-- ===== src/Fmp4/Init.antt =====
-- ParseInit of pkg/fmp4/fmp4.go: the tracks of an initialization section.
use fast_tv_playout_core.Base.{
  ℕ, ◌+◌, ◌==◌, List, [], ◌∷◌, leb, if◌then◌else◌, length, ◌⊎◌, inl, inr, Option, none, some,
}
use fast_tv_playout_core.Fmp4.{
  Damage, FourCc, Box, children, find, same_bytes, body_start, end_of_box, four_at, u8, u32,
  no_moov, no_tracks, short_trex, no_tkhd, no_mdia, no_mdhd, zero_timescale,
}

-- Track; an empty kind is that of a track without a hdlr box.
pub record Track : Type 0 where
  pub id : ℕ
  pub kind : FourCc
  pub timescale : ℕ
  pub default_sample_duration : ℕ

-- The map of the tracks by their ids, without its order.
abbrev pub Tracks : Type 0
Tracks = List Track

unfoldable pub find_track : ℕ → Tracks → Option Track
find_track id [] = none
find_track id (t ∷ ts) = if t.id == id then some t else find_track id ts

-- in.Tracks[t.ID] = t
pub put_track : Track → Tracks → Tracks
put_track t [] = t ∷ []
put_track t (x ∷ ts) = if x.id == t.id then t ∷ ts else x ∷ put_track t ts

-- A result where there is one goes on.
infixl 5 ◌>>=◌
abbrev pub ◌>>=◌ {ℓ κ} : {A : Type ℓ} {B : Type κ} → Damage ⊎ A → (A → Damage ⊎ B) → Damage ⊎ B
inl d >>= f = inl d
inr a >>= f = f a

-- A box that must be there.
abbrev pub needed : Damage → Option Box → Damage ⊎ Box
needed d none = inl d
needed d (some x) = inr x

abbrev moov : FourCc
moov = 109 ∷ 111 ∷ 111 ∷ 118 ∷ []

abbrev tkhd : FourCc
tkhd = 116 ∷ 107 ∷ 104 ∷ 100 ∷ []

abbrev mdia : FourCc
mdia = 109 ∷ 100 ∷ 105 ∷ 97 ∷ []

abbrev mdhd : FourCc
mdhd = 109 ∷ 100 ∷ 104 ∷ 100 ∷ []

abbrev hdlr : FourCc
hdlr = 104 ∷ 100 ∷ 108 ∷ 114 ∷ []

abbrev trak : FourCc
trak = 116 ∷ 114 ∷ 97 ∷ 107 ∷ []

abbrev mvex : FourCc
mvex = 109 ∷ 118 ∷ 101 ∷ 120 ∷ []

abbrev trex : FourCc
trex = 116 ∷ 114 ∷ 101 ∷ 120 ∷ []

-- Where the first field behind the two times stands, by the version of the box.
abbrev past_times : ℕ → ℕ
past_times ver = if ver == 1 then 20 else 12

kind_of : List ℕ → Option Box → FourCc
kind_of b none = []
kind_of b (some h) =
    if leb (body_start h + 8 + 4) (end_of_box h) then four_at b (body_start h + 8) else []

unfoldable parse_trak : List ℕ → Box → Damage ⊎ Track
unfolding kind_of
parse_trak b x = do
  kids ← children b (body_start x) (end_of_box x)
  tk ← needed no_tkhd (find tkhd kids)
  ver ← u8 b (body_start tk)
  id ← u32 b (body_start tk + past_times ver)
  md ← needed no_mdia (find mdia kids)
  mk ← children b (body_start md) (end_of_box md)
  mh ← needed no_mdhd (find mdhd mk)
  ver' ← u8 b (body_start mh)
  scale ← u32 b (body_start mh + past_times ver')
  if scale == 0
      then inl zero_timescale
      else inr (record {
        id = id;
        kind = kind_of b (find hdlr mk);
        timescale = scale;
        default_sample_duration = 0;
      })

-- The loop over the boxes of moov.
pub traks : List ℕ → Tracks → List Box → Damage ⊎ Tracks
unfolding parse_trak put_track
traks b ts [] = inr ts
traks b ts (k ∷ kids) =
    if same_bytes k.typ trak
    then (do t ← parse_trak b k; traks b (put_track t ts) kids)
    else traks b ts kids

pub with_default : ℕ → Option Track → Tracks → Tracks
unfolding put_track
with_default dur none ts = ts
with_default dur (some t) ts = put_track (record t { default_sample_duration = dur }) ts

-- Both fields of a trex box are read; either may be too far.
abbrev pub either_short : Damage ⊎ ℕ → Damage ⊎ ℕ → Damage ⊎ (ℕ × ℕ)
either_short (inl d) m = inl short_trex
either_short (inr id) (inl d) = inl short_trex
either_short (inr id) (inr dur) = inr (id, dur)

-- The loop over the boxes of mvex.
pub trexes : List ℕ → Tracks → List Box → Damage ⊎ Tracks
unfolding find_track with_default
trexes b ts [] = inr ts
trexes b ts (x ∷ xs) =
    if same_bytes x.typ trex
    then (do
      p ← either_short (u32 b (body_start x + 4)) (u32 b (body_start x + 12))
      trexes b (with_default p.1 (find_track p.0 ts) ts) xs)
    else trexes b ts xs

pub defaults_of : List ℕ → Tracks → Option Box → Damage ⊎ Tracks
unfolding trexes
defaults_of b ts none = inr ts
defaults_of b ts (some m) = do xs ← children b (body_start m) (end_of_box m); trexes b ts xs

abbrev pub no_empty : Tracks → Damage ⊎ Tracks
no_empty [] = inl no_tracks
no_empty (t ∷ ts) = inr (t ∷ ts)

-- ParseInit
unfoldable pub parse_init : List ℕ → Damage ⊎ Tracks
unfolding traks defaults_of
parse_init b = do
  top ← children b 0 (length b)
  m ← needed no_moov (find moov top)
  kids ← children b (body_start m) (end_of_box m)
  found ← traks b [] kids
  ts ← no_empty found
  defaults_of b ts (find mvex kids)

-- ===== src/Hls/Given.antt =====
-- pkg/hls/hls.go: a playlist that Parse gives has a segment, so that lookup may divide by their number.
use fast_tv_playout_core.Base.{
  Bool, true, false, ◌≡◌, Bool-cases, inl, inr, ◌⊎◌, Option, none, some, List, is_nil, String,
}
use fast_tv_playout_core.Hls.{
  HlsFault, HlsPlaylist, Texts, Reading, read_lines, given_playlist, parse_playlist,
}

-- A playlist that is given has a segment.
pub Filled : HlsFault ⊎ HlsPlaylist → Type 0
Filled (inl fault) = Unit
Filled (inr pl) = is_nil pl.segments ≡ false

given_playlist-Filled :
    (failed : Bool) (o : HlsFault ⊎ Option Reading) → Filled (given_playlist failed o)
unfolding given_playlist Filled
given_playlist-Filled failed (inl fault) = tt
given_playlist-Filled true (inr o) = tt
given_playlist-Filled false (inr none) = tt
given_playlist-Filled false (inr (some r)) = elim (Bool-cases (is_nil r.pl.segments)) [
  | inl e ↦ rw e tt
  | inr e ↦ rw e e
]

-- Whatever the lines are, Parse ends with an error, or gives a playlist with a segment.
pub parse_playlist-Filled :
    (t : Texts) (lines : List String) (failed : Bool) → Filled (parse_playlist t lines failed)
unfolding parse_playlist
parse_playlist-Filled t lines failed = given_playlist-Filled failed (read_lines t lines (inr none))

-- ===== src/Source/Lookup.antt =====
-- services/engine/stitch.go: from a clip to a segment of its source. The playlists, the downloads, the init sections
-- and the tests in floating-point numbers are arguments; a number of type float64 is its 64 bits.
use fast_tv_playout_core.Base.{
  ℕ, ◌*◌, Bool, false, not, ◌&&◌, ◌||◌, Option, none, some, List, [], ◌∷◌, if◌then◌else◌, length,
  String, str_eq, pos, ltb, ltb_ℤ,
}
use fast_tv_playout_core.Hls.{HlsPlaylist}
use fast_tv_playout_core.Clock.{Instant, second, sub}

-- prefixPair
pub record PrefixPair : Type 0 where
  pub from : String
  pub to : String

-- applyMap; the parameter gives what follows a prefix.
unfoldable pub apply_map :
    (String → String → Option String)
    → (String → String → String)
    → String
    → List PrefixPair
    → String
apply_map behind join uri [] = uri
apply_map behind join uri (p ∷ m) =
    let rest = apply_map behind join uri m in
    elim (behind p.from uri) [ none ↦ rest | some tail ↦ join p.to tail ]

-- url.URL, as far as it is read: the host with and without its port, in small letters.
pub record Url : Type 0 where
  pub scheme : String
  pub host : String
  pub hostname : String
  pub path : String

pub data NotAllowed : Type 0 where
  other_host file_off broken_root broken_path outside_root unsupported : NotAllowed

unfoldable pub is_host : String → List String → Bool
is_host h [] = false
is_host h (x ∷ xs) = str_eq x h || is_host h xs

unfoldable pub under_root :
    (String → String → Bool) → Option String → Option String → Option NotAllowed
under_root is_below none p = some broken_root
under_root is_below (some root) none = some broken_path
under_root is_below (some root) (some p) =
    if not (str_eq p root) && not (is_below root p) then some outside_root else none

-- allowed: none is permission. The parameters are EvalSymlinks (none where it fails; the path is cleaned by it), and
-- whether a path begins with another one and a separator.
unfoldable pub allowed :
    (String → Option String)
    → (String → String → Bool)
    → String
    → Option (List String)
    → Url
    → Option NotAllowed
unfolding is_host under_root
allowed eval_symlinks is_below file_root hosts u =
    if str_eq u.scheme "http" || str_eq u.scheme "https"
    then elim hosts [
      | none ↦ none
      | some hs ↦
          if not (is_host u.host hs) && not (is_host u.hostname hs) then some other_host else none
    ]
    else if str_eq u.scheme "file"
    then if str_eq file_root ""
      then some file_off
      else under_root is_below (eval_symlinks file_root) (eval_symlinks u.path)
    else some unsupported

-- cacheEntry; a playlist that failed is none.
pub record CacheEntry : Type 0 where
  pub pl : Option HlsPlaylist
  pub at : Instant

-- cacheEntry.is_fresh, with okTTL and errTTL
unfoldable pub is_fresh : Instant → CacheEntry → Bool
is_fresh now e = elim e.pl [
  | none ↦ ltb_ℤ (sub now e.at) (pos (5 * second))
  | some pl ↦ ltb_ℤ (sub now e.at) (pos (600 * second))
]

abbrev pub PlaylistCache : Type 0
PlaylistCache = List (String × CacheEntry)

unfoldable pub cached_entry : String → PlaylistCache → Option CacheEntry
cached_entry src [] = none
cached_entry src ((k, e) ∷ m) = if str_eq k src then some e else cached_entry src m

unfoldable pub put_entry : String → CacheEntry → PlaylistCache → PlaylistCache
put_entry src e [] = (src, e) ∷ []
put_entry src e ((k, x) ∷ m) =
    let rest = put_entry src e m in if str_eq k src then (k, e) ∷ m else (k, x) ∷ rest

unfoldable pub fresh_entries : Instant → PlaylistCache → PlaylistCache
unfolding is_fresh
fresh_entries now [] = []
fresh_entries now ((k, e) ∷ m) =
    let rest = fresh_entries now m in if is_fresh now e then (k, e) ∷ rest else rest

-- maxCached
abbrev pub max_cached : ℕ
max_cached = 512

abbrev pub room_in : Instant → PlaylistCache → PlaylistCache
room_in now m =
    if ltb (length m) max_cached
    then m
    else (let kept = fresh_entries now m in if ltb (length kept) max_cached then kept else [])

unfoldable pub known_playlist : Instant → Option CacheEntry → Option CacheEntry
known_playlist now none = none
known_playlist now (some e) = if is_fresh now e then some e else none

-- playlist, with the answer of a download: the playlist, and the cache.
unfoldable pub playlist :
    (String → Option HlsPlaylist)
    → Instant
    → String
    → PlaylistCache
    → Option HlsPlaylist × PlaylistCache
unfolding cached_entry put_entry fresh_entries known_playlist
playlist download now src m = elim (known_playlist now (cached_entry src m)) [
  | some e ↦ (e.pl, m)
  | none ↦ (download src, put_entry src (record { pl = download src; at = now }) (room_in now m))
]

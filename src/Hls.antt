-- ===== src/Hls.antt =====
-- pkg/hls/hls.go: Parse, over the lines of a playlist, and Attr. The operations on strings and the library's parsers are
-- parameters; a number of type float64 is its 64 bits.
pub mod Given
use fast_tv_playout_core.Base.{
  ℕ, Bool, true, false, not, ◌&&◌, Option, none, some, List, [], ◌∷◌, ◌++◌, if◌then◌else◌, is_nil,
  String, str_eq, ℤ, pos, ◌⊎◌, inl, inr,
}
use Prim.Native.String.{◌++◌ as ◌<>◌}
use fast_tv_playout_core.Clock.{Instant}

-- Segment
pub record HlsSegment : Type 0 where
  pub uri : String
  pub duration : ℕ
  pub discontinuity : Bool
  pub program_date_time : Instant
  pub map_uri : String

-- Playlist
pub record HlsPlaylist : Type 0 where
  pub map_uri : String
  pub target_duration : ℕ
  pub media_sequence : ℤ
  pub discontinuity_sequence : ℤ
  pub segments : List HlsSegment
  pub ended : Bool

-- The errors of Parse.
pub data HlsFault : Type 0 where
  not_m3u8 master_given bad_target bad_sequence bad_discontinuity bad_time map_without_uri bad_uri
        bad_extinf encrypted no_extinf unreadable no_lines no_segments :
      HlsFault

-- What Parse uses of the libraries.
pub record Texts : Type 0 where
  pub trim : String → String
  -- what follows a prefix
  pub behind : String → String → Option String
  -- what follows the first place of a text, and what comes before it
  pub after_first : String → String → Option String
  pub up_to : String → String → Option String
  pub parse_float : String → Option ℕ
  pub is_negative : ℕ → Bool
  pub parse_int : String → Option ℤ
  pub parse_time : String → Option Instant
  -- resolve, against the address of the playlist
  pub resolve_uri : String → Option String

abbrev pub or_all : Option String → String → String
or_all none v = v
or_all (some x) v = x

unfoldable pub quoted_or_bare : Texts → String → Option String → String
quoted_or_bare t v (some w) = or_all (t.up_to "\"" w) w
quoted_or_bare t v none = or_all (t.up_to "," v) v

unfoldable pub attr_value : Texts → Option String → String
unfolding quoted_or_bare
attr_value t none = ""
attr_value t (some v) = quoted_or_bare t v (t.behind "\"" v)

-- Attr
unfoldable pub attr : Texts → String → String → String
unfolding attr_value
attr t line key = attr_value t (t.after_first (key <> "=") line)

-- A line by the case of the switch that it falls into, with the text behind its tag.
pub data TagLine : Type 0 where
  stream_inf target_line sequence_line break_sequence_line time_line map_line inf_line end_line
        key_line other_line :
      String → TagLine
  break_line uri_line : TagLine

pub first_case : List (Option TagLine) → TagLine
first_case [] = uri_line
first_case (none ∷ cs) = first_case cs
first_case (some c ∷ cs) = c

abbrev pub when_some : (String → TagLine) → Option String → Option TagLine
when_some f none = none
when_some f (some v) = some (f v)

unfoldable pub case_of : Texts → String → TagLine
unfolding first_case
case_of t line = first_case (
    when_some stream_inf (t.behind "#EXT-X-STREAM-INF" line)
    ∷ when_some target_line (t.behind "#EXT-X-TARGETDURATION:" line)
    ∷ when_some sequence_line (t.behind "#EXT-X-MEDIA-SEQUENCE:" line)
    ∷ when_some break_sequence_line (t.behind "#EXT-X-DISCONTINUITY-SEQUENCE:" line)
    ∷ (if str_eq line "#EXT-X-DISCONTINUITY" then some break_line else none)
    ∷ when_some time_line (t.behind "#EXT-X-PROGRAM-DATE-TIME:" line)
    ∷ when_some map_line (t.behind "#EXT-X-MAP:" line)
    ∷ when_some inf_line (t.behind "#EXTINF:" line)
    ∷ when_some end_line (t.behind "#EXT-X-ENDLIST" line)
    ∷ when_some key_line (t.behind "#EXT-X-KEY" line)
    ∷ when_some other_line (t.behind "#" line)
    ∷ [])

-- The variables of the loop.
pub record Reading : Type 0 where
  pub pl : HlsPlaylist
  pub dur : ℕ
  pub disc : Bool
  pub pdt : Instant
  pub cur_map : String

-- The bits of -1
unfoldable pub minus_one : ℕ
minus_one = 13830554455654793216

abbrev pub or_fault : {A : Type 0} → HlsFault → (A → Reading) → Option A → HlsFault ⊎ Reading
or_fault fault f none = inl fault
or_fault fault f (some v) = inr (f v)

-- One line behind the first one.
unfoldable pub read_line : Texts → String → Reading → TagLine → HlsFault ⊎ Reading
unfolding attr minus_one
read_line t line r (stream_inf v) = inl master_given
read_line t line r (target_line v) =
    or_fault bad_target (λ n. record r { pl = record r.pl { target_duration = n } })
      (t.parse_float v)
read_line t line r (sequence_line v) =
    or_fault bad_sequence (λ n. record r { pl = record r.pl { media_sequence = n } })
      (t.parse_int v)
read_line t line r (break_sequence_line v) =
    or_fault bad_discontinuity (λ n. record r { pl = record r.pl { discontinuity_sequence = n } })
      (t.parse_int v)
read_line t line r break_line = inr (record r { disc = true })
read_line t line r (time_line v) = or_fault bad_time (λ at. record r { pdt = at }) (t.parse_time v)
read_line t line r (map_line v) =
    let uri = attr t line "URI" in
    if str_eq uri ""
    then inl map_without_uri
    else or_fault bad_uri (λ abs. record r { pl = record r.pl { map_uri = abs }; cur_map = abs })
        (t.resolve_uri uri)
read_line t line r (inf_line v) =
    or_fault bad_extinf (λ d. record r { dur = d })
      (t.parse_float (t.trim (or_all (t.up_to "," v) v)))
read_line t line r (end_line v) = inr (record r { pl = record r.pl { ended = true } })
read_line t line r (key_line v) =
    let m = attr t line "METHOD" in
    if not (str_eq m "") && not (str_eq m "NONE") then inl encrypted else inr r
read_line t line r (other_line v) = inr r
read_line t line r uri_line =
    if t.is_negative r.dur
    then inl no_extinf
    else or_fault bad_uri
        (λ abs. record r {
          pl = record r.pl {
            segments =
                r.pl.segments
                ++ (record {
                  uri = abs;
                  duration = r.dur;
                  discontinuity = r.disc;
                  program_date_time = r.pdt;
                  map_uri = r.cur_map;
                }
                    ∷ []);
          };
          dur = minus_one;
          disc = false;
          pdt = 0;
        })
        (t.resolve_uri line)

abbrev pub new_reading : Reading
new_reading = record {
  pl = record {
    map_uri = "";
    target_duration = 0;
    media_sequence = pos 0;
    discontinuity_sequence = pos 0;
    segments = [];
    ended = false;
  };
  dur = minus_one;
  disc = false;
  pdt = 0;
  cur_map = "";
}

-- What a line does: nothing is read yet, or something.
unfoldable pub next_line : Texts → String → Option Reading → HlsFault ⊎ Option Reading
unfolding case_of read_line
next_line t line none = if str_eq line "#EXTM3U" then inr (some new_reading) else inl not_m3u8
next_line t line (some r) = elim (read_line t line r (case_of t line)) [
  | inl fault ↦ inl fault
  | inr r' ↦ inr (some r')
]

-- The loop over the lines.
unfoldable pub read_lines :
    Texts → List String → HlsFault ⊎ Option Reading → HlsFault ⊎ Option Reading
unfolding next_line
read_lines t lines (inl fault) = inl fault
read_lines t [] (inr o) = inr o
read_lines t (l ∷ lines) (inr o) =
    let line = t.trim l in read_lines t lines (if str_eq line "" then inr o else next_line t line o)

unfoldable pub given_playlist : Bool → HlsFault ⊎ Option Reading → HlsFault ⊎ HlsPlaylist
given_playlist failed (inl fault) = inl fault
given_playlist failed (inr o) = if failed then inl unreadable else elim o [
  | none ↦ inl no_lines
  | some r ↦ if is_nil r.pl.segments then inl no_segments else inr r.pl
]

-- Parse, of the lines that could be read, and whether reading failed behind them.
unfoldable pub parse_playlist : Texts → List String → Bool → HlsFault ⊎ HlsPlaylist
unfolding read_lines given_playlist
parse_playlist t lines failed = given_playlist failed (read_lines t lines (inr none))

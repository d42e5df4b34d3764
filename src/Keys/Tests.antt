-- ===== src/Keys/Tests.antt =====
-- A key that may read one channel.
use fast_tv_playout_core.Base.{◌≡◌, refl, false, none, some, [], ◌∷◌, str_eq, if◌then◌else◌}
use fast_tv_playout_core.Keys.{
  Key, read, command, Text, passed, forbidden, require, find_key, find_hash, allows, admit,
  has_scope, has_name, parse_keys, parse_list, with_single, default_key,
}
use fast_tv_playout_core.Keys.Parsed.{OfSome, IsKeyRing, parse_keys-IsKeyRing}
use fast_tv_playout_core.Keys.Granted.{In, MayDo, require-MayDo}

-- Every secret has one hash here.
abbrev plain : Text
plain = record {
  fields = λ s. s ∷ [];
  trim = λ s. s;
  cut = λ s. some ("viewer", s);
  split = λ s sep. if str_eq sep ":" then "topsecret" ∷ "read" ∷ "c1" ∷ [] else s ∷ [];
  bytes = λ s. 9;
  prefixed = λ s. s;
  hashed = λ s. none;
  unhex = λ s. none;
  sum256 = λ s. 4 ∷ [];
}

abbrev viewer : Key
viewer = record {
  name = "viewer";
  hash = 4 ∷ [];
  scopes = read ∷ [];
  channels = "c1" ∷ [];
  all_channels = false;
}

viewer_reads : require plain (viewer ∷ []) read "secret" "c1" ≡ passed viewer
unfolding require find_key find_hash allows admit has_scope has_name
viewer_reads = refl

viewer_commands : require plain (viewer ∷ []) command "secret" "c1" ≡ forbidden
unfolding require find_key find_hash allows admit has_scope has_name
viewer_commands = refl

require-MayDo_example :
    In viewer (viewer ∷ [])
    × (plain.sum256 "secret" ≡ viewer.hash)
    × (str_eq "secret" "" ≡ false)
    × MayDo read "c1" viewer
require-MayDo_example = require-MayDo plain (viewer ∷ []) read "secret" "c1" viewer viewer_reads

viewer_parsed : parse_keys plain "list" "" ≡ some (viewer ∷ [])
unfolding parse_keys parse_list with_single default_key has_name
viewer_parsed = refl

parse_keys-IsKeyRing_example : OfSome (IsKeyRing plain) (parse_keys plain "list" "single")
parse_keys-IsKeyRing_example = parse_keys-IsKeyRing plain "list" "single"

-- ===== src/Keys.antt =====
-- pkg/auth/auth.go: the API keys. What Go's library does to strings, and the hash, are fields of `Text`.
pub mod Granted
pub mod Parsed
mod Tests
use fast_tv_playout_core.Base.{
  ℕ, ◌==◌, Bool, true, false, not, ◌&&◌, ◌||◌, Option, none, some, List, [], ◌∷◌, ◌++◌, ltb,
  if◌then◌else◌, is_nil, length, String, str_eq,
}

pub data Scope : Type 0 where
  read schedule command admin : Scope

abbrev pub same_scope : Scope → Scope → Bool
same_scope read read = true
same_scope schedule schedule = true
same_scope command command = true
same_scope admin admin = true
same_scope read s = false
same_scope schedule s = false
same_scope command s = false
same_scope admin s = false

-- Key; a map to Booleans is the list of its keys.
pub record Key : Type 0 where
  pub name : String
  pub hash : List ℕ
  pub scopes : List Scope
  pub channels : List String
  pub all_channels : Bool

unfoldable pub has_scope : Scope → List Scope → Bool
has_scope s [] = false
has_scope s (t ∷ ts) = same_scope t s || has_scope s ts

unfoldable pub has_name : String → List String → Bool
has_name n [] = false
has_name n (x ∷ xs) = str_eq x n || has_name n xs

-- Allows
unfoldable pub allows : Key → Scope → String → Bool
unfolding has_scope has_name
allows k s channel =
    if not (has_scope s k.scopes) && not (has_scope admin k.scopes)
    then false
    else if str_eq channel "" || k.all_channels
    then true
    else has_name channel k.channels

-- strings.FieldsFunc at ';' and line feeds, strings.TrimSpace, strings.Cut at '=' (none where there is none),
-- strings.Split at a separator, the number of bytes of a string, the prefix "sha256:" put in front and taken off (none
-- where it is not there), hex.DecodeString and sha256.Sum256.
pub record Text : Type 0 where
  pub fields : String → List String
  pub trim : String → String
  pub cut : String → Option (String × String)
  pub split : String → String → List String
  pub bytes : String → ℕ
  pub prefixed : String → String
  pub hashed : String → Option String
  pub unhex : String → Option (List ℕ)
  pub sum256 : String → List ℕ

abbrev pub same_hash : List ℕ → List ℕ → Bool
same_hash [] [] = true
same_hash [] (y ∷ ys) = false
same_hash (x ∷ xs) [] = false
same_hash (x ∷ xs) (y ∷ ys) = x == y && same_hash xs ys

-- The last key with the hash.
unfoldable pub find_hash : List ℕ → List Key → Option Key → Option Key
find_hash h [] found = found
find_hash h (k ∷ ks) found = find_hash h ks (if same_hash h k.hash then some k else found)

module _ (t : Text) where
  -- The hash of a secret, which may be given itself.
  hash_of : String → Option String → Option (List ℕ)
  hash_of secret (some digits) = elim (t.unhex digits) [
    | none ↦ none
    | some raw ↦ if length raw == 32 then some raw else none
  ]
  hash_of secret none = if ltb (t.bytes secret) 8 then none else some (t.sum256 secret)

  scope_named : String → Option (List Scope)
  scope_named sc =
      if str_eq sc "*"
      then some (read ∷ schedule ∷ command ∷ admin ∷ [])
      else if str_eq sc "read"
      then some (read ∷ [])
      else if str_eq sc "schedule"
      then some (schedule ∷ [])
      else if str_eq sc "command"
      then some (command ∷ [])
      else if str_eq sc "admin"
      then some (admin ∷ [])
      else none

  -- The scopes of one word in front of those of the words behind it.
  abbrev joined_scopes : Option (List Scope) → Option (List Scope) → Option (List Scope)
  joined_scopes none rest = none
  joined_scopes (some here) none = none
  joined_scopes (some here) (some rest) = some (here ++ rest)

  scopes_of : List String → Option (List Scope)
  unfolding scope_named
  scopes_of [] = some []
  scopes_of (sc ∷ scs) = joined_scopes (scope_named (t.trim sc)) (scopes_of scs)

  has_star : List String → Bool
  has_star [] = false
  has_star (ch ∷ chs) = str_eq (t.trim ch) "*" || has_star chs

  channels_of : List String → List String
  channels_of [] = []
  channels_of (ch ∷ chs) =
      let rest = channels_of chs in
      if str_eq (t.trim ch) "*" || str_eq (t.trim ch) "" then rest else t.trim ch ∷ rest

  -- A key without scopes or without channels is refused.
  pub finished : String → List ℕ → List Scope → List String → Bool → Option Key
  finished name hash scopes channels all =
      if is_nil scopes || not all && is_nil channels
      then none
      else some (record {
        name = name;
        hash = hash;
        scopes = scopes;
        channels = channels;
        all_channels = all;
      })

  pub made_key : String → Option (List ℕ) → Option (List Scope) → List String → Option Key
  unfolding finished has_star channels_of
  made_key name none scopes chs = none
  made_key name (some hash) none chs = none
  made_key name (some hash) (some scopes) chs =
      finished name hash scopes (channels_of chs) (has_star chs)

  -- The secret and the two fields behind it.
  pub from_fields : String → String → List String → Option Key
  unfolding made_key hash_of scopes_of
  from_fields name secret [] = none
  from_fields name secret (scopes ∷ []) = none
  from_fields name secret (scopes ∷ channels ∷ []) =
      made_key (t.trim name) (hash_of secret (t.hashed secret)) (scopes_of (t.split scopes "+"))
        (t.split channels "+")
  from_fields name secret (scopes ∷ channels ∷ more ∷ rest) = none

  -- A secret of the form sha256:<hex> has a colon of its own.
  pub split_secret : String → List String → Option Key
  unfolding from_fields
  split_secret name [] = none
  split_secret name (f ∷ []) = from_fields name f []
  split_secret name (f ∷ g ∷ fs) =
      if str_eq f "sha256" then from_fields name (t.prefixed g) fs else from_fields name f (g ∷ fs)

  key_behind : Option (String × String) → Option Key
  unfolding split_secret
  key_behind none = none
  key_behind (some (name, rest)) =
      if str_eq name "" then none else split_secret name (t.split rest ":")

  -- parseKey
  unfoldable pub parse_key : String → Option Key
  unfolding key_behind
  parse_key s = key_behind (t.cut s)

  abbrev joined_keys : Option Key → Option (List Key) → Option (List Key)
  joined_keys none rest = none
  joined_keys (some k) none = none
  joined_keys (some k) (some rest) = some (k ∷ rest)

  -- The loop over the list.
  pub parse_list : List String → Option (List Key)
  unfolding parse_key
  parse_list [] = some []
  parse_list (part ∷ parts) =
      let rest = parse_list parts in
      if str_eq (t.trim part) "" then rest else joined_keys (parse_key (t.trim part)) rest

  -- The single key of the older way.
  unfoldable pub default_key : String → List Key
  default_key single =
      if str_eq single ""
      then []
      else record {
        name = "default";
        hash = t.sum256 single;
        scopes = admin ∷ [];
        channels = [];
        all_channels = true;
      }
        ∷ []

  -- No name comes twice; `seen` are those before.
  pub distinct : List String → List Key → Bool
  distinct seen [] = true
  distinct seen (k ∷ ks) =
      let rest = distinct (k.name ∷ seen) ks in if has_name k.name seen then false else rest

  pub with_single : Option (List Key) → List Key → Option (List Key)
  unfolding distinct
  with_single none single = none
  with_single (some ks) single =
      if is_nil (ks ++ single) || not (distinct [] (ks ++ single))
      then none
      else some (ks ++ single)

  -- Parse
  unfoldable pub parse_keys : String → String → Option (List Key)
  unfolding parse_list with_single
  parse_keys list single = with_single (parse_list (t.fields list)) (default_key single)

  -- Find
  unfoldable pub find_key : List Key → String → Option Key
  unfolding find_hash
  find_key ks secret = if str_eq secret "" then none else find_hash (t.sum256 secret) ks none

-- What the middleware does with a request.
pub data Access : Type 0 where
  unauthorized forbidden : Access
  passed : Key → Access

unfoldable pub admit : Scope → String → Option Key → Access
unfolding allows
admit s channel none = unauthorized
admit s channel (some k) = if not (allows k s channel) then forbidden else passed k

-- Require, for a request with a secret about a channel
unfoldable pub require : Text → List Key → Scope → String → String → Access
unfolding find_key
require t ks s secret channel = admit s channel (find_key t ks secret)

-- ===== src/Keys/Parsed.antt =====
-- What Parse of pkg/auth/auth.go makes sure of.
use fast_tv_playout_core.Base.{
  ℕ, ◌≡◌, ◌≢◌, ◌⊎◌, inl, inr, refl, Bool, true, false, Bool-cases, Option, none, some, List, [],
  ◌∷◌, ◌++◌, is_nil, String, str_eq, eq_iff, All, All-append, arith,
}
use fast_tv_playout_core.Keys.{
  Scope, Key, has_name, Text, finished, made_key, from_fields, split_secret, key_behind, parse_key,
  joined_keys, parse_list, default_key, distinct, with_single, parse_keys,
}

-- A key that can be used for something.
pub record IsUseful (k : Key) : Type 0 where
  pub scopes : is_nil k.scopes ≡ false
  pub channels : (k.all_channels ≡ true) ⊎ (is_nil k.channels ≡ false)

-- What holds of a result, where there is one.
abbrev pub OfSome : {A : Type 0} → (A → Type 0) → Option A → Type 0
OfSome P none = Unit
OfSome P (some a) = P a

-- No name comes twice, nor one of those seen before.
abbrev pub NoTwice : List String → List Key → Type 0
NoTwice seen [] = Unit
NoTwice seen (k ∷ ks) = All (λ n. n ≢ k.name) seen × NoTwice (k.name ∷ seen) ks

has_name-All : (n : String) (xs : List String) → has_name n xs ≡ false → All (λ x. x ≢ n) xs
unfolding has_name
has_name-All n [] h = tt
has_name-All n (x ∷ xs) h =
    (λ e. absurd (ground (arith, h, (eq_iff x n).1 e)), has_name-All n xs (ground (arith, h)))

module _ (t : Text) where
  finished-IsUseful :
      (name : String) (hash : List ℕ) (ss : List Scope) (chs : List String) (all : Bool)
      → OfSome IsUseful (finished t name hash ss chs all)
  unfolding finished
  finished-IsUseful name hash [] chs all = tt
  finished-IsUseful name hash (s ∷ ss) chs true = record { scopes = refl; channels = inl refl }
  finished-IsUseful name hash (s ∷ ss) [] false = tt
  finished-IsUseful name hash (s ∷ ss) (ch ∷ chs) false = record {
    scopes = refl;
    channels = inr refl;
  }

  made_key-IsUseful :
      (name : String) (h : Option (List ℕ)) (ss : Option (List Scope)) (chs : List String)
      → OfSome IsUseful (made_key t name h ss chs)
  unfolding made_key
  made_key-IsUseful name none ss chs = tt
  made_key-IsUseful name (some h) none chs = tt
  made_key-IsUseful name (some h) (some ss) chs = finished-IsUseful name h ss _ _

  from_fields-IsUseful :
      (name secret : String) (fs : List String) → OfSome IsUseful (from_fields t name secret fs)
  unfolding from_fields
  from_fields-IsUseful name secret [] = tt
  from_fields-IsUseful name secret (ss ∷ []) = tt
  from_fields-IsUseful name secret (ss ∷ chs ∷ []) = made_key-IsUseful _ _ _ _
  from_fields-IsUseful name secret (ss ∷ chs ∷ more ∷ rest) = tt

  split_secret-IsUseful :
      (name : String) (fs : List String) → OfSome IsUseful (split_secret t name fs)
  unfolding split_secret
  split_secret-IsUseful name [] = tt
  split_secret-IsUseful name (f ∷ []) = from_fields-IsUseful name f []
  split_secret-IsUseful name (f ∷ g ∷ fs) = elim (Bool-cases (str_eq f "sha256")) [
    | inl b ↦ rw b (from_fields-IsUseful name (t.prefixed g) fs)
    | inr b ↦ rw b (from_fields-IsUseful name f (g ∷ fs))
  ]

  key_behind-IsUseful : (o : Option (String × String)) → OfSome IsUseful (key_behind t o)
  unfolding key_behind
  key_behind-IsUseful none = tt
  key_behind-IsUseful (some (name, rest)) = elim (Bool-cases (str_eq name "")) [
    | inl b ↦ rw b tt
    | inr b ↦ rw b (split_secret-IsUseful name (t.split rest ":"))
  ]

  joined :
      (o : Option Key) (r : Option (List Key))
      → OfSome IsUseful o
      → OfSome (All IsUseful) r
      → OfSome (All IsUseful) (joined_keys t o r)
  joined none r h k = tt
  joined (some x) none h k = tt
  joined (some x) (some xs) h k = (h, k)

  parse_list-All : (parts : List String) → OfSome (All IsUseful) (parse_list t parts)
  unfolding parse_list parse_key
  parse_list-All [] = tt
  parse_list-All (p ∷ parts) = elim (Bool-cases (str_eq (t.trim p) "")) [
    | inl b ↦ rw b (parse_list-All parts)
    | inr b ↦ rw b (joined _ _ (key_behind-IsUseful (t.cut (t.trim p))) (parse_list-All parts))
  ]

  default_key-All : (single : String) → All IsUseful (default_key t single)
  unfolding default_key
  default_key-All single = elim (Bool-cases (str_eq single "")) [
    | inl b ↦ rw b tt
    | inr b ↦ rw b (record { scopes = refl; channels = inl refl }, tt)
  ]

  distinct-NoTwice :
      (seen : List String) (ks : List Key) → distinct t seen ks ≡ true → NoTwice seen ks
  unfolding distinct
  distinct-NoTwice seen [] h = tt
  distinct-NoTwice seen (k ∷ ks) h = elim (Bool-cases (has_name k.name seen)) [
    | inl b ↦ absurd (ground (arith, h, b))
    | inr b ↦
        (has_name-All k.name seen b, distinct-NoTwice (k.name ∷ seen) ks (ground (arith, h, b)))
  ]

  -- A set of keys that a service can start with.
  pub record IsKeyRing (ks : List Key) : Type 0 where
    pub useful : All IsUseful ks
    pub some_key : is_nil ks ≡ false
    pub names : NoTwice [] ks

  with_single-IsKeyRing :
      (o : Option (List Key)) (single : List Key)
      → OfSome (All IsUseful) o
      → All IsUseful single
      → OfSome IsKeyRing (with_single t o single)
  unfolding with_single
  with_single-IsKeyRing none single h k = tt
  with_single-IsKeyRing (some ks) single h k = elim (Bool-cases (is_nil (ks ++ single))) [
    | inl n ↦ rw n tt
    | inr n ↦ elim (Bool-cases (distinct t [] (ks ++ single))) [
      | inl d ↦
          rw (n, d)
            (record {
              useful = All-append IsUseful ks single h k;
              some_key = n;
              names = distinct-NoTwice [] (ks ++ single) d;
            })
      | inr d ↦ rw (n, d) tt
    ]
  ]

  -- Whatever the list of keys and the single key say, Parse refuses them or gives keys that a service can start
  -- with: there is one at least, no two have one name, and each has a scope, and a channel or all of them.
  pub parse_keys-IsKeyRing : (list single : String) → OfSome IsKeyRing (parse_keys t list single)
  unfolding parse_keys
  parse_keys-IsKeyRing list single =
      with_single-IsKeyRing _ _ (parse_list-All (t.fields list)) (default_key-All single)

-- ===== src/Keys/Granted.antt =====
-- Whom Require of pkg/auth/auth.go lets through.
use mathlib.Core.Bool.{false≢true}
use mathlib.Core.Option.{some-injective, none-ne-some}
use fast_tv_playout_core.Base.{
  ℕ, ◌≡◌, ◌⊎◌, inl, inr, refl, sym, ap, subst, ◌∙◌, Bool, true, false, not, Bool-cases, Option,
  none, some, List, [], ◌∷◌, if◌then◌else◌, String, str_eq, eq_iff, arith,
}
use fast_tv_playout_core.Keys.{
  Scope, read, schedule, command, admin, same_scope, Key, has_scope, has_name, allows, Text,
  same_hash, find_hash, find_key, Access, unauthorized, forbidden, passed, admit, require,
}

-- The key is one of them.
pub data In {A : Type 0} (a : A) : List A → Type 0 where
  here : {as' : List A} → In a (a ∷ as')
  there : {b : A} {as' : List A} → In a as' → In a (b ∷ as')

-- A key that may do the action on the channel.
pub record MayDo (s : Scope) (channel : String) (k : Key) : Type 0 where
  pub scope : In s k.scopes ⊎ In admin k.scopes
  pub reaches : (channel ≡ "") ⊎ ((k.all_channels ≡ true) ⊎ In channel k.channels)

same_scope-eq : (a b : Scope) → same_scope a b ≡ true → a ≡ b
same_scope-eq read read h = refl
same_scope-eq read schedule h = absurd (false≢true h)
same_scope-eq read command h = absurd (false≢true h)
same_scope-eq read admin h = absurd (false≢true h)
same_scope-eq schedule read h = absurd (false≢true h)
same_scope-eq schedule schedule h = refl
same_scope-eq schedule command h = absurd (false≢true h)
same_scope-eq schedule admin h = absurd (false≢true h)
same_scope-eq command read h = absurd (false≢true h)
same_scope-eq command schedule h = absurd (false≢true h)
same_scope-eq command command h = refl
same_scope-eq command admin h = absurd (false≢true h)
same_scope-eq admin read h = absurd (false≢true h)
same_scope-eq admin schedule h = absurd (false≢true h)
same_scope-eq admin command h = absurd (false≢true h)
same_scope-eq admin admin h = refl

has_scope-In : (s : Scope) (ts : List Scope) → has_scope s ts ≡ true → In s ts
unfolding has_scope
has_scope-In s [] h = absurd (false≢true h)
has_scope-In s (t ∷ ts) h = elim (Bool-cases (same_scope t s)) [
  | inl e ↦ subst (λ x. In x (t ∷ ts)) (same_scope-eq t s e) here
  | inr e ↦ there (has_scope-In s ts (ground (arith, h, e)))
]

has_name-In : (n : String) (xs : List String) → has_name n xs ≡ true → In n xs
unfolding has_name
has_name-In n [] h = absurd (false≢true h)
has_name-In n (x ∷ xs) h = elim (Bool-cases (str_eq x n)) [
  | inl e ↦ subst (λ y. In y (x ∷ xs)) ((eq_iff x n).0 e) here
  | inr e ↦ there (has_name-In n xs (ground (arith, h, e)))
]

same_hash-eq : (xs ys : List ℕ) → same_hash xs ys ≡ true → xs ≡ ys
same_hash-eq [] [] h = refl
same_hash-eq [] (y ∷ ys) h = absurd (false≢true h)
same_hash-eq (x ∷ xs) [] h = absurd (false≢true h)
same_hash-eq (x ∷ xs) (y ∷ ys) h =
    ap (λ z. z ∷ xs) (ground (arith, h))
    ∙ ap (λ zs. y ∷ zs) (same_hash-eq xs ys (ground (arith, h)))

-- A key that is found stands in the list and has the hash, or was found before.
find_hash-In :
    (h : List ℕ) (ks : List Key) (found : Option Key) (k : Key)
    → find_hash h ks found ≡ some k
    → (In k ks × (h ≡ k.hash)) ⊎ (found ≡ some k)
unfolding find_hash
find_hash-In h [] found k e = inr e
find_hash-In h (x ∷ ks) found k e = elim (Bool-cases (same_hash h x.hash)) [
  | inl b ↦
      elim (find_hash-In h ks (some x) k
        (ap (λ c. find_hash h ks (if c then some x else found)) (sym b) ∙ e)) [
          | inl (i, same) ↦ inl (there i, same)
          | inr now ↦
              let x-k = some-injective x k now in
              inl (
                subst (λ y. In y (x ∷ ks)) x-k here,
                same_hash-eq h x.hash b ∙ ap (λ y. y.hash) x-k,
              )
        ]
  | inr b ↦
      elim (find_hash-In h ks found k
        (ap (λ c. find_hash h ks (if c then some x else found)) (sym b) ∙ e)) [
          | inl (i, same) ↦ inl (there i, same)
          | inr before ↦ inr before
        ]
]

find_key-In :
    (t : Text) (ks : List Key) (secret : String) (k : Key)
    → find_key t ks secret ≡ some k
    → In k ks × (t.sum256 secret ≡ k.hash) × (str_eq secret "" ≡ false)
unfolding find_key
find_key-In t ks secret k e = elim (Bool-cases (str_eq secret "")) [
  | inl b ↦ absurd (
      none-ne-some k
        (ap (λ c. if c then none else find_hash (t.sum256 secret) ks none) (sym b) ∙ e))
  | inr b ↦
      elim (find_hash-In (t.sum256 secret) ks none k
        (ap (λ c. if c then none else find_hash (t.sum256 secret) ks none) (sym b) ∙ e)) [
          | inl (i, same) ↦ (i, same, b)
          | inr before ↦ absurd (none-ne-some k before)
        ]
]

allows-MayDo :
    (k : Key) (s : Scope) (channel : String) → allows k s channel ≡ true → MayDo s channel k
unfolding allows
allows-MayDo k s channel h = record { scope = may; reaches = there_too }
  where
    may : In s k.scopes ⊎ In admin k.scopes
    may = elim (Bool-cases (has_scope s k.scopes)) [
      | inl e ↦ inl (has_scope-In s k.scopes e)
      | inr e ↦ inr (has_scope-In admin k.scopes (ground (arith, h, e)))
    ]

    there_too : (channel ≡ "") ⊎ ((k.all_channels ≡ true) ⊎ In channel k.channels)
    there_too = elim (Bool-cases (str_eq channel "")) [
      | inl e ↦ inl ((eq_iff channel "").0 e)
      | inr e ↦ elim (Bool-cases k.all_channels) [
        | inl a ↦ inr (inl a)
        | inr a ↦ inr (inr (has_name-In channel k.channels (ground (arith, h, e, a))))
      ]
    ]

is_passed : Key → Access → Key
is_passed k unauthorized = k
is_passed k forbidden = k
is_passed k (passed x) = x

lets_through : Access → Bool
lets_through unauthorized = false
lets_through forbidden = false
lets_through (passed k) = true

admit-allows :
    (s : Scope) (channel : String) (o : Option Key) (k : Key)
    → admit s channel o ≡ passed k
    → (o ≡ some k) × (allows k s channel ≡ true)
unfolding admit lets_through is_passed
admit-allows s channel none k e = absurd (false≢true (ap lets_through e))
admit-allows s channel (some x) k e = elim (Bool-cases (allows x s channel)) [
  | inl b ↦
      let x-k = ap (is_passed k) (ap (λ c. if not c then forbidden else passed x) (sym b) ∙ e) in
      (ap some x-k, subst (λ y. allows y s channel ≡ true) x-k b)
  | inr b ↦
      absurd
        (false≢true (ap lets_through (ap (λ c. if not c then forbidden else passed x) (sym b) ∙ e)))
]

-- Require lets a request through with a key only if this key is one of the service, the secret of the request
-- is not empty and has the hash of the key, the key has the scope of the action or the one of an administrator,
-- and the request is about no channel, or about one of the channels of the key, or the key is for all channels.
pub require-MayDo :
    (t : Text) (ks : List Key) (s : Scope) (secret channel : String) (k : Key)
    → require t ks s secret channel ≡ passed k
    → In k ks × (t.sum256 secret ≡ k.hash) × (str_eq secret "" ≡ false) × MayDo s channel k
unfolding require
require-MayDo t ks s secret channel k e =
    let (found, may) = admit-allows s channel (find_key t ks secret) k e in
    let (i, same, given) = find_key-In t ks secret k found in
    (i, same, given, allows-MayDo k s channel may)

-- ===== src/Fmp4/Segment/Moves.antt =====
-- What Retime of pkg/fmp4/fmp4.go writes, and where.
use fast_tv_playout_core.Base.{
  ℕ, ◌+◌, ◌*◌, ◌/◌, ◌%◌, ◌^◌, ◌≤◌, ◌<◌, ◌≡◌, refl, sym, ap, subst, ◌∙◌, Bool, true, false, not,
  ◌==◌, List, [], ◌∷◌, ltb, if◌then◌else◌, length, get_or, set, ◌⊎◌, inl, inr, length-set,
  get_or-set_same, get_or-set_other, All, arith, ℤ, pos, pos_part, wrap64, ltb_ℤ, ◌+ℤ◌, ◌-ℤ◌, ◌*ℤ◌,
  wrap64_pos,
}
use fast_tv_playout_core.Fmp4.{Damage, be32, be64, tfdt_version, short_tfdt, off_grid, before_start}
use fast_tv_playout_core.Fmp4.Init.{◌>>=◌}
use fast_tv_playout_core.Fmp4.Segment.{Traf, put32, put64, drift, retimed, retime_one, retime_all}

-- A position outside of a field.
abbrev pub Outside : ℕ → ℕ → ℕ → Type 0
Outside p n i = (i < p) ⊎ (p + n ≤ i)

put32_elsewhere : (b : List ℕ) (p v i : ℕ) → Outside p 4 i → get_or (put32 b p v) i 0 ≡ get_or b i 0
unfolding put32
put32_elsewhere b p v i h =
    get_or-set_other _ (p + 3) i _ 0 (λ e. absurd (ground (arith, h, e)))
    ∙ get_or-set_other _ (p + 2) i _ 0 (λ e. absurd (ground (arith, h, e)))
    ∙ get_or-set_other _ (p + 1) i _ 0 (λ e. absurd (ground (arith, h, e)))
    ∙ get_or-set_other _ p i _ 0 (λ e. absurd (ground (arith, h, e)))

put32-length : (b : List ℕ) (p v : ℕ) → length (put32 b p v) ≡ length b
unfolding put32
put32-length b p v =
    length-set _ (p + 3) _ ∙ length-set _ (p + 2) _ ∙ length-set _ (p + 1) _ ∙ length-set b p _

put32_inside : (b : List ℕ) (p v : ℕ) → p + 4 ≤ length b → v < 2 ^ 32 → be32 (put32 b p v) p ≡ v
unfolding put32 be32
put32_inside b p v h k = ground (arith, first, second, third, fourth)
  where
    fourth : get_or (put32 b p v) (p + 3) 0 ≡ v % 256
    fourth = get_or-set_same _ (p + 3) _ 0 (
        omega (
          arith,
          h,
          length-set (set (set b p (v / 2 ^ 24 % 256)) (p + 1) (v / 2 ^ 16 % 256)) (p + 2)
              (v / 2 ^ 8 % 256),
          length-set (set b p (v / 2 ^ 24 % 256)) (p + 1) (v / 2 ^ 16 % 256),
          length-set b p (v / 2 ^ 24 % 256),
        ))

    third : get_or (put32 b p v) (p + 2) 0 ≡ v / 2 ^ 8 % 256
    third =
        get_or-set_other _ (p + 3) (p + 2) _ 0 (λ e. absurd (omega (arith, e)))
        ∙ get_or-set_same _ (p + 2) _ 0 (
            omega (
              arith,
              h,
              length-set (set b p (v / 2 ^ 24 % 256)) (p + 1) (v / 2 ^ 16 % 256),
              length-set b p (v / 2 ^ 24 % 256),
            ))

    second : get_or (put32 b p v) (p + 1) 0 ≡ v / 2 ^ 16 % 256
    second =
        get_or-set_other _ (p + 3) (p + 1) _ 0 (λ e. absurd (omega (arith, e)))
        ∙ get_or-set_other _ (p + 2) (p + 1) _ 0 (λ e. absurd (omega (arith, e)))
        ∙ get_or-set_same _ (p + 1) _ 0 (omega (arith, h, length-set b p (v / 2 ^ 24 % 256)))

    first : get_or (put32 b p v) p 0 ≡ v / 2 ^ 24 % 256
    first =
        get_or-set_other _ (p + 3) p _ 0 (λ e. absurd (omega (arith, e)))
        ∙ get_or-set_other _ (p + 2) p _ 0 (λ e. absurd (omega (arith, e)))
        ∙ get_or-set_other _ (p + 1) p _ 0 (λ e. absurd (omega (arith, e)))
        ∙ get_or-set_same b p _ 0 (omega (arith, h))

product : (a s : ℕ) → pos a *ℤ pos s ≡ pos (a * s)
unfolding ◌*ℤ◌
product a s = ground arith

moved_exact :
    (a n have : ℕ)
    → a + have < 2 ^ 63
    → n < 2 ^ 63
    → ltb_ℤ (wrap64 (pos a +ℤ wrap64 (pos have -ℤ pos n))) (pos 0) ≡ false
    → pos_part (wrap64 (pos a +ℤ wrap64 (pos have -ℤ pos n))) + n ≡ a + have
unfolding wrap64 ◌+ℤ◌ ◌-ℤ◌
moved_exact a n have h k l = ground (arith, l)

retimed_plain :
    (a n s have : ℕ)
    → a * s + have < 2 ^ 63
    → n * s < 2 ^ 63
    → retimed (pos a) (pos n) s have ≡ wrap64 (pos (a * s) +ℤ wrap64 (pos have -ℤ pos (n * s)))
retimed_plain a n s have h k =
    rw
      (
        product a s,
        product n s,
        wrap64_pos (a * s) (omega (arith, h)),
        wrap64_pos (n * s) k,
        wrap64_pos have (omega (arith, h)),
      )
      refl

retimed_exact :
    (a n s have : ℕ)
    → a * s + have < 2 ^ 63
    → n * s < 2 ^ 63
    → ltb_ℤ (retimed (pos a) (pos n) s have) (pos 0) ≡ false
    → pos_part (retimed (pos a) (pos n) s have) + n * s ≡ a * s + have
retimed_exact a n s have h k l =
    let plain = retimed_plain a n s have h k in
    ap (λ z. pos_part z + n * s) plain
    ∙ moved_exact (a * s) (n * s) have h k (ap (λ z. ltb_ℤ z (pos 0)) (sym plain) ∙ l)

put64_elsewhere : (b : List ℕ) (p v i : ℕ) → Outside p 8 i → get_or (put64 b p v) i 0 ≡ get_or b i 0
unfolding put64
put64_elsewhere b p v i h =
    put32_elsewhere _ (p + 4) _ i (further h) ∙ put32_elsewhere b p _ i (nearer h)
  where
    further : Outside p 8 i → Outside (p + 4) 4 i
    further (inl l) = inl (omega (arith, l))
    further (inr r) = inr (omega (arith, r))

    nearer : Outside p 8 i → Outside p 4 i
    nearer (inl l) = inl (omega (arith, l))
    nearer (inr r) = inr (omega (arith, r))

pub put64-length : (b : List ℕ) (p v : ℕ) → length (put64 b p v) ≡ length b
unfolding put64
put64-length b p v = put32-length _ (p + 4) _ ∙ put32-length b p _

-- The same four bytes are the same number.
be32_congr :
    (b b' : List ℕ) (q : ℕ)
    → ((i : ℕ) → q ≤ i → i < q + 4 → get_or b i 0 ≡ get_or b' i 0)
    → be32 b q ≡ be32 b' q
unfolding be32
be32_congr b b' q h =
    rw
      (
        h q (omega arith) (omega arith),
        h (q + 1) (omega arith) (omega arith),
        h (q + 2) (omega arith) (omega arith),
        h (q + 3) (omega arith) (omega arith),
      )
      refl

-- Two fields of eight bytes that do not overlap.
abbrev pub Apart : ℕ → ℕ → Type 0
Apart p q = (q + 8 ≤ p) ⊎ (p + 8 ≤ q)

Apart-Outside : (p q i : ℕ) → Apart p q → q ≤ i → i < q + 8 → Outside p 8 i
Apart-Outside p q i (inl l) h k = inl (omega (arith, l, h, k))
Apart-Outside p q i (inr r) h k = inr (omega (arith, r, h, k))

pub be64_elsewhere : (b : List ℕ) (p v q : ℕ) → Apart p q → be64 (put64 b p v) q ≡ be64 b q
unfolding be64
be64_elsewhere b p v q h =
    rw
      (
        be32_congr (put64 b p v) b q
            (λ i l u. put64_elsewhere b p v i (Apart-Outside p q i h l (omega (arith, u)))),
        be32_congr (put64 b p v) b (q + 4) (λ i l u.
            put64_elsewhere b p v i (Apart-Outside p q i h (omega (arith, l)) (omega (arith, u)))),
      )
      refl

put64_inside : (b : List ℕ) (p v : ℕ) → p + 8 ≤ length b → v < 2 ^ 64 → be64 (put64 b p v) p ≡ v
unfolding put64 be64
put64_inside b p v h k =
    rw
      (
        be32_congr (put32 (put32 b p (v / 2 ^ 32)) (p + 4) (v % 2 ^ 32)) (put32 b p (v / 2 ^ 32)) p
            (λ i l u. put32_elsewhere _ (p + 4) _ i (inl (omega (arith, u)))),
        put32_inside b p (v / 2 ^ 32) (omega (arith, h)) (omega (arith, k)),
        put32_inside (put32 b p (v / 2 ^ 32)) (p + 4) (v % 2 ^ 32)
            (omega (arith, h, put32-length b p (v / 2 ^ 32))) (omega arith),
      )
      (omega arith)

-- The field of a fragment, of which version, length and distance are in order.
abbrev pub field : Traf → ℕ
field tf = tf.base + 4

abbrev pub scale_of : Traf → ℕ
scale_of tf = tf.track.timescale

-- The times are numbers of 63 bits.
abbrev pub Fits : ℕ → ℕ → List ℕ → Traf → Type 0
Fits a n b tf = (a * scale_of tf + be64 b (field tf) < 2 ^ 63) × (n * scale_of tf < 2 ^ 63)

-- The field of a fragment moved by a whole number of seconds.
abbrev pub Moved : ℕ → ℕ → List ℕ → List ℕ → Traf → Type 0
Moved a n b b' tf = be64 b' (field tf) + n * scale_of tf ≡ a * scale_of tf + be64 b (field tf)

abbrev pub Separate : List Traf → Type 0
Separate [] = Unit
Separate (tf ∷ tfs) = All (λ t. Apart (field tf) (field t)) tfs × Separate tfs

-- A result, where there is one.
abbrev pub Gives : {A : Type 0} → (A → Type 0) → Damage ⊎ A → Type 0
Gives P (inl d) = Unit
Gives P (inr a) = P a

if-Gives :
    (P : List ℕ → Type 0) (b : Bool) (d : Damage) (y : Damage ⊎ List ℕ)
    → (b ≡ false → Gives P y)
    → Gives P (if b then inl d else y)
if-Gives P true d y h = tt
if-Gives P false d y h = h refl

-- One step: its field is moved, and the rest of the bytes are kept.
abbrev pub Steps : ℕ → ℕ → List ℕ → Traf → List ℕ → Type 0
Steps a n b tf b' = (v : ℕ) × (b' ≡ put64 b (field tf) v) × Moved a n b b' tf

map-Gives :
    (P Q : List ℕ → Type 0) (r : Damage ⊎ List ℕ)
    → ((b : List ℕ) → P b → Q b)
    → Gives P r
    → Gives Q r
map-Gives P Q (inl d) f h = tt
map-Gives P Q (inr b) f h = f b h

bind-Gives :
    (P Q : List ℕ → Type 0) (r : Damage ⊎ List ℕ) (f : List ℕ → Damage ⊎ List ℕ)
    → Gives P r
    → ((b : List ℕ) → P b → Gives Q (f b))
    → Gives Q (r >>= f)
bind-Gives P Q (inl d) f h k = tt
bind-Gives P Q (inr b) f h k = k b h

-- What all steps do: the fields are moved, and the bytes outside of them are kept.
abbrev pub AllMoved : ℕ → ℕ → List ℕ → List Traf → List ℕ → Type 0
AllMoved a n b tfs b' =
    All (Moved a n b b') tfs
    × ((i : ℕ) → All (λ t. Outside (field t) 8 i) tfs → get_or b' i 0 ≡ get_or b i 0)
    × (length b' ≡ length b)

be64_congr :
    (b b' : List ℕ) (q : ℕ)
    → ((i : ℕ) → q ≤ i → i < q + 8 → get_or b i 0 ≡ get_or b' i 0)
    → be64 b q ≡ be64 b' q
unfolding be64
be64_congr b b' q h =
    rw
      (
        be32_congr b b' q (λ i l u. h i l (omega (arith, u))),
        be32_congr b b' (q + 4) (λ i l u. h i (omega (arith, l)) (omega (arith, u))),
      )
      refl

Apart-sym : (p q : ℕ) → Apart p q → Apart q p
Apart-sym p q (inl l) = inr l
Apart-sym p q (inr r) = inl r

every_elsewhere :
    (p i : ℕ) (tfs : List Traf)
    → All (λ t. Apart p (field t)) tfs
    → p ≤ i
    → i < p + 8
    → All (λ t. Outside (field t) 8 i) tfs
every_elsewhere p i [] h l u = tt
every_elsewhere p i (t ∷ tfs) h l u =
    (Apart-Outside (field t) p i (Apart-sym p (field t) h.0) l u, every_elsewhere p i tfs h.1 l u)

-- The other fields are read as before.
every_fitting :
    (a n p v : ℕ) (b : List ℕ) (tfs : List Traf)
    → All (λ t. Apart p (field t)) tfs
    → All (Fits a n b) tfs
    → All (Fits a n (put64 b p v)) tfs
every_fitting a n p v b [] h f = tt
every_fitting a n p v b (t ∷ tfs) h f = (
  subst (λ x. (a * scale_of t + x < 2 ^ 63) × (n * scale_of t < 2 ^ 63))
      (sym (be64_elsewhere b p v (field t) h.0)) f.0,
  every_fitting a n p v b tfs h.1 f.1,
)

every_shifted :
    (a n p v : ℕ) (b b' : List ℕ) (tfs : List Traf)
    → All (λ t. Apart p (field t)) tfs
    → All (Moved a n (put64 b p v) b') tfs
    → All (Moved a n b b') tfs
every_shifted a n p v b b' [] h m = tt
every_shifted a n p v b b' (t ∷ tfs) h m = (
  m.0 ∙ ap (λ x. a * scale_of t + x) (be64_elsewhere b p v (field t) h.0),
  every_shifted a n p v b b' tfs h.1 m.1,
)

-- A step and those behind it.
joined :
    (a n v : ℕ) (b b' : List ℕ) (tf : Traf) (tfs : List Traf)
    → All (λ t. Apart (field tf) (field t)) tfs
    → Moved a n b (put64 b (field tf) v) tf
    → AllMoved a n (put64 b (field tf) v) tfs b'
    → AllMoved a n b (tf ∷ tfs) b'
joined a n v b b' tf tfs h m (moved, kept, len) = (
  (
    ap (λ x. x + n * scale_of tf)
          (be64_congr b' (put64 b (field tf) v) (field tf)
            (λ i l u. kept i (every_elsewhere (field tf) i tfs h l u)))
        ∙ m,
    every_shifted a n (field tf) v b b' tfs h moved,
  ),
  λ i o. kept i o.1 ∙ put64_elsewhere b (field tf) v i o.0,
  len ∙ put64-length b (field tf) v,
)

module _ (is_off : ℤ → ℕ → Bool) where
  retime_one-Steps :
      (a n : ℕ) (b : List ℕ) (tf : Traf)
      → Fits a n b tf
      → Gives (Steps a n b tf) (retime_one is_off (pos a) (pos n) b tf)
  unfolding retime_one
  retime_one-Steps a n b tf f =
      let P = Steps a n b tf in
      let v = retimed (pos a) (pos n) (scale_of tf) (be64 b (field tf)) in
      let put : Damage ⊎ List ℕ = inr (put64 b (field tf) (pos_part v)) in
      let not_early : Damage ⊎ List ℕ = if ltb_ℤ v (pos 0) then inl before_start else put in
      let off = is_off (drift (pos n) (scale_of tf) (be64 b (field tf))) (scale_of tf) in
      let on_grid : Damage ⊎ List ℕ = if off then inl off_grid else not_early in
      let in_range : Damage ⊎ List ℕ =
        if ltb (length b) (tf.base + 12) then inl short_tfdt else on_grid in
      if-Gives P (not (tf.version == 1)) tfdt_version in_range (λ version.
        if-Gives P (ltb (length b) (tf.base + 12)) short_tfdt on_grid (λ long.
          if-Gives P off off_grid not_early (λ near.
            if-Gives P (ltb_ℤ v (pos 0)) before_start put (λ later.
              let exact = retimed_exact a n (scale_of tf) (be64 b (field tf)) f.0 f.1 later in
              (
                pos_part v,
                refl,
                ap (λ x. x + n * scale_of tf)
                      (put64_inside b (field tf) (pos_part v) (ground (arith, long))
                        (omega (arith, exact, f.0)))
                    ∙ exact,
              )))))

  pub retime_all-AllMoved :
      (a n : ℕ) (b : List ℕ) (tfs : List Traf)
      → Separate tfs
      → All (Fits a n b) tfs
      → Gives (AllMoved a n b tfs) (retime_all is_off (pos a) (pos n) b tfs)
  unfolding retime_all
  retime_all-AllMoved a n b [] s f = (tt, λ i h. refl, refl)
  retime_all-AllMoved a n b (tf ∷ tfs) s f =
      bind-Gives (Steps a n b tf) (AllMoved a n b (tf ∷ tfs))
        (retime_one is_off (pos a) (pos n) b tf) (λ out. retime_all is_off (pos a) (pos n) out tfs)
        (retime_one-Steps a n b tf f.0)
        (λ out (v, e, m).
          let fit =
            subst (λ x. All (Fits a n x) tfs) (sym e)
              (every_fitting a n (field tf) v b tfs s.0 f.1) in
          map-Gives (AllMoved a n out tfs) (AllMoved a n b (tf ∷ tfs))
            (retime_all is_off (pos a) (pos n) out tfs)
            (λ b' h.
              joined a n v b b' tf tfs s.0 (subst (λ x. Moved a n b x tf) e m)
                (subst (λ x. AllMoved a n x tfs b') e h))
            (retime_all-AllMoved a n out tfs s.1 fit))

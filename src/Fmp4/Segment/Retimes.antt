-- ===== src/Fmp4/Segment/Retimes.antt =====
-- When Retime of pkg/fmp4/fmp4.go has a result, and which.
use fast_tv_playout_core.Base.{
  ℕ, ◌+◌, ◌≤◌, ◌≡◌, refl, sym, ap, subst, ◌∙◌, Bool, false, not, ◌==◌, List, [], ◌∷◌, ltb, length,
  inr, All, arith, ℤ, pos, pos_part, ltb_ℤ,
}
use fast_tv_playout_core.Fmp4.{be64}
use fast_tv_playout_core.Fmp4.Init.{Tracks, ◌>>=◌}
use fast_tv_playout_core.Fmp4.Segment.{
  Traf, put64, drift, retimed, retime_one, retime_all, retime, walk_segment,
}
use fast_tv_playout_core.Fmp4.Segment.Moves.{
  field, scale_of, Apart, Separate, Fits, AllMoved, Gives, be64_elsewhere, put64-length,
  retime_all-AllMoved,
}

module _ (is_off : ℤ → ℕ → Bool) where
  -- A fragment that Retime can move.
  pub record IsUsable (a n : ℕ) (b : List ℕ) (tf : Traf) : Type 0 where
    pub version : tf.version ≡ 1
    pub long : tf.base + 12 ≤ length b
    pub near : is_off (drift (pos n) (scale_of tf) (be64 b (field tf))) (scale_of tf) ≡ false
    pub later : ltb_ℤ (retimed (pos a) (pos n) (scale_of tf) (be64 b (field tf))) (pos 0) ≡ false

  retime_one-put64 :
      (a n : ℕ) (b : List ℕ) (tf : Traf)
      → IsUsable a n b tf
      → retime_one is_off (pos a) (pos n) b tf
        ≡ inr (
            put64 b
              (field tf)
              (pos_part (retimed (pos a) (pos n) (scale_of tf) (be64 b (field tf)))))
  unfolding retime_one
  retime_one-put64 a n b tf u =
      let version : not (tf.version == 1) ≡ false = ground (arith, u.version) in
      let long : ltb (length b) (tf.base + 12) ≡ false = ground (arith, u.long) in
      rw (version, long, u.near, u.later) refl

  still_movable :
      (a n p v : ℕ) (b : List ℕ) (tf : Traf)
      → Apart p (field tf)
      → IsUsable a n b tf
      → IsUsable a n (put64 b p v) tf
  still_movable a n p v b tf h u =
      let same = sym (be64_elsewhere b p v (field tf) h) in
      record {
        version = u.version;
        long = subst (λ x. tf.base + 12 ≤ x) (sym (put64-length b p v)) u.long;
        near =
            subst (λ x. is_off (drift (pos n) (scale_of tf) x) (scale_of tf) ≡ false) same u.near;
        later =
            subst (λ x. ltb_ℤ (retimed (pos a) (pos n) (scale_of tf) x) (pos 0) ≡ false) same
              u.later;
      }

  every_movable :
      (a n p v : ℕ) (b : List ℕ) (tfs : List Traf)
      → All (λ t. Apart p (field t)) tfs
      → All (IsUsable a n b) tfs
      → All (IsUsable a n (put64 b p v)) tfs
  every_movable a n p v b [] h u = tt
  every_movable a n p v b (t ∷ tfs) h u =
      (still_movable a n p v b t h.0 u.0, every_movable a n p v b tfs h.1 u.1)

  retime_all-total :
      (a n : ℕ) (b : List ℕ) (tfs : List Traf)
      → Separate tfs
      → All (IsUsable a n b) tfs
      → (b' : List ℕ) × (retime_all is_off (pos a) (pos n) b tfs ≡ inr b')
  unfolding retime_all
  retime_all-total a n b [] s u = (b, refl)
  retime_all-total a n b (tf ∷ tfs) s u =
      let v = pos_part (retimed (pos a) (pos n) (scale_of tf) (be64 b (field tf))) in
      let (b', done) =
        retime_all-total a n (put64 b (field tf) v) tfs s.1
          (every_movable a n (field tf) v b tfs s.0 u.1) in
      (
        b',
        ap (λ r. r >>= λ out. retime_all is_off (pos a) (pos n) out tfs)
              (retime_one-put64 a n b tf u.0)
            ∙ done,
      )

  -- When the fragments that are found in a segment have time fields that do not overlap, version 1, enough bytes,
  -- a time scale and times that stay below 2^63, a distance within the tolerance and a new time not below zero,
  -- Retime has a result of the same length: in every fragment the decode time is moved by exactly the seconds
  -- between the anchor and the nominal second, and every byte outside of these fields is kept.
  pub retime-AllMoved :
      (a n : ℕ) (seg : List ℕ) (ts : Tracks) (tfs : List Traf)
      → walk_segment seg ts ≡ inr tfs
      → Separate tfs
      → All (Fits a n seg) tfs
      → All (IsUsable a n seg) tfs
      → (out : List ℕ) × (retime is_off seg ts (pos a) (pos n) ≡ inr out) × AllMoved a n seg tfs out
  unfolding retime
  retime-AllMoved a n seg ts tfs w s f u =
      let (out, done) = retime_all-total a n seg tfs s u in
      (
        out,
        ap (λ r. r >>= λ x. retime_all is_off (pos a) (pos n) seg x) w ∙ done,
        subst (Gives (AllMoved a n seg tfs)) done (retime_all-AllMoved is_off a n seg tfs s f),
      )

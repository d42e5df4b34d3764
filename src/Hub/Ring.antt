-- ===== src/Hub/Ring.antt =====
-- The ring of a hub holds the newest events, numbered one after the other.
use fast_tv_playout_core.Base.{
  ℕ, zero, suc, ◌+◌, ◌-◌, ◌≤◌, ◌<◌, ◌≡◌, refl, subst, ◌∙◌, ◌⊎◌, inl, inr, List, [], ◌∷◌, ◌++◌,
  String, ltb, if◌then◌else◌, length, drop, arith, length-append, length-drop, dec_lt, Bool-cases,
}
use Prim.Native.Nat.{max, min}
use native.Mathlib.Nat.{add-zero}
use fast_tv_playout_core.Clock.{Instant}
use fast_tv_playout_core.Hub.{Event, Hub, new_hub, publish, keep_last, newer}

-- The events have the numbers from the first up to the second, which is left out.
abbrev pub Numbered : {D : Type 0} → ℕ → ℕ → List (Event D) → Type 0
Numbered a b [] = a ≡ b
Numbered a b (e ∷ es) = (e.id ≡ a) × Numbered (suc a) b es

module _ {D : Type 0} where
  pub Numbered-le : (a b : ℕ) (es : List (Event D)) → Numbered a b es → a + length es ≡ b
  Numbered-le a b [] n = omega arith
  Numbered-le a b (e ∷ es) n = omega (arith, Numbered-le (suc a) b es n.1)

  pub Numbered-append :
      (a b c : ℕ) (xs ys : List (Event D))
      → Numbered a b xs
      → Numbered b c ys
      → Numbered a c (xs ++ ys)
  Numbered-append a b c [] ys n m = rw n m
  Numbered-append a b c (x ∷ xs) ys n m = (n.0, Numbered-append (suc a) b c xs ys n.1 m)

  pub Numbered-drop :
      (k a b : ℕ) (es : List (Event D))
      → Numbered a b es
      → k ≤ length es
      → Numbered (a + k) b (drop k es)
  Numbered-drop zero a b es n h = rw add-zero n
  Numbered-drop (suc k) a b [] n h = absurd (omega arith)
  Numbered-drop (suc k) a b (e ∷ es) n h =
      subst (λ t. Numbered t b (drop k es)) (omega arith)
        (Numbered-drop k (suc a) b es n.1 (omega arith))

  newer_all :
      (after a b : ℕ) (es : List (Event D)) → Numbered a b es → after < a → newer after es ≡ es
  unfolding newer
  newer_all after a b [] n h = refl
  newer_all after a b (e ∷ es) n h = ground (arith, newer_all after (suc a) b es n.1)

  newer_none :
      (after : ℕ) (e : Event D) (es : List (Event D))
      → e.id ≤ after
      → newer after (e ∷ es) ≡ newer after es
  unfolding newer
  newer_none after e es h = ground arith

  -- What is newer than a number, of events numbered one after the other.
  pub newer-Numbered :
      (after a b : ℕ) (es : List (Event D))
      → Numbered a b es
      → after < b
      → Numbered (max a (suc after)) b (newer after es)
  newer-Numbered after a b [] n h = unfold newer in omega arith
  newer-Numbered after a b (e ∷ es) n h =
      let more = newer-Numbered after (suc a) b es n.1 h in
      elim (dec_lt after a) [
        | yes g ↦
            rw (newer_all after a b (e ∷ es) n g)
              (subst (λ t. Numbered t b (e ∷ es)) (omega arith) n)
        | no g ↦
            rw (newer_none after e es (omega arith))
              (subst (λ t. Numbered t b (newer after es)) (omega arith) more)
      ]

  pub newer-nothing :
      (after a b : ℕ) (es : List (Event D)) → Numbered a b es → b ≤ after → newer after es ≡ []
  unfolding newer
  newer-nothing after a b [] n h = refl
  newer-nothing after a b (e ∷ es) n h =
      ground (arith, newer-nothing after (suc a) b es n.1, Numbered-le (suc a) b es n.1)

-- A hub whose ring holds the newest events.
pub record IsRing {D : Type 0} (h : Hub D) : Type 0 where
  pub oldest : ℕ
  pub numbered : Numbered oldest h.next_id h.ring
  pub positive : 0 < oldest
  pub bounded : length h.ring ≤ h.cap
  -- no event that fits is forgotten
  pub full : (oldest ≡ 1) ⊎ (length h.ring ≡ h.cap)

pub new_hub-IsRing : {D : Type 0} (n : ℕ) → IsRing (new_hub {D = D} n)
unfolding new_hub
new_hub-IsRing n = record {
  oldest = 1;
  numbered = refl;
  positive = omega arith;
  bounded = omega arith;
  full = inl refl;
}

module _ {D : Type 0} where
  keep_last_start : (cap a : ℕ) (es : List (Event D)) → ℕ
  keep_last_start cap a es = if ltb cap (length es) then a + (length es - cap) else a

  keep_last_start_all :
      (cap a : ℕ) (es : List (Event D)) → length es ≤ cap → keep_last_start cap a es ≡ a
  unfolding keep_last_start
  keep_last_start_all cap a es h = ground arith

  keep_last-Numbered :
      (cap a b : ℕ) (es : List (Event D))
      → Numbered a b es
      → Numbered (keep_last_start cap a es) b (keep_last cap es)
  unfolding keep_last keep_last_start
  keep_last-Numbered cap a b es n = elim (Bool-cases (ltb cap (length es))) [
    | inl h ↦ rw h (Numbered-drop (length es - cap) a b es n (omega arith))
    | inr h ↦ rw h n
  ]

  length-keep_last :
      (cap : ℕ) (es : List (Event D)) → length (keep_last cap es) ≡ min cap (length es)
  unfolding keep_last
  length-keep_last cap es = ground (arith, length-drop (length es - cap) es)

  -- Publishing keeps a ring of the newest events: they are numbered one after the other up to the newest, they
  -- are at most as many as the capacity, and events are forgotten only while the ring is full.
  pub publish-IsRing :
      (h : Hub D) (type channel : String) (body : D) (now : Instant)
      → IsRing h
      → IsRing (publish h type channel body now).0
  unfolding publish
  publish-IsRing h type channel body now r =
      let ev = (publish h type channel body now).1 in
      let all =
        Numbered-append r.oldest h.next_id (suc h.next_id) h.ring (ev ∷ []) r.numbered
          (refl, refl) in
      let len = length-keep_last h.cap (h.ring ++ ev ∷ []) in
      let grown = length-append h.ring (ev ∷ []) in
      record {
        oldest = keep_last_start h.cap r.oldest (h.ring ++ ev ∷ []);
        numbered = keep_last-Numbered h.cap r.oldest (suc h.next_id) (h.ring ++ ev ∷ []) all;
        positive = unfold keep_last_start in ground (arith, r.positive);
        bounded = omega (arith, len);
        full = elim (dec_lt h.cap (length (h.ring ++ ev ∷ []))) [
          | yes g ↦ inr (omega arith)
          | no g ↦ elim r.full [
            | inl one ↦
                inl (keep_last_start_all h.cap r.oldest (h.ring ++ ev ∷ []) (omega arith) ∙ one)
            | inr full ↦ absurd (g (omega arith))
          ]
        ];
      }

-- ===== src/Schedule/Skip/Run.antt =====
-- The loop of Skip: the entries back to back with the one that ends start earlier, up to the first gap.
use fast_tv_playout_core.Base.{
  ℕ, ◌+◌, ◌-◌, ◌%◌, ◌^◌, ◌≤◌, ◌<◌, ◌≡◌, refl, sym, ap, ◌∙◌, true, false, Option, none, some, List,
  [], ◌∷◌, ◌++◌, arith, if◌then◌else◌, pos, All, dec_lt, ltb, ◌==◌, wrap64_minus, Bool-cases, inl,
  inr, lt→ltb, le→ltb,
}
use mathlib.Core.List.{append_assoc, append-nil}
use fast_tv_playout_core.Clock.{Instant, second}
use fast_tv_playout_core.Schedule.{Entry, end_of}
use fast_tv_playout_core.Schedule.Air.{
  lasting, finish, IsSound, Follows, Follows-mono, Picture, playing, picture, end_of-finish,
  on_air_inside, on_air_over, playing_early,
}
use fast_tv_playout_core.Schedule.Skip.{Pull, pull_loop, pull_step, earlier, later_of, is_empty}

-- The entries behind a moment at which one ends, moved up to the first gap.
pub pulled_up : ℕ → Instant → List Entry → List Entry
pulled_up n end [] = []
pulled_up n end (e ∷ es) =
    let rest = pulled_up n (finish e) es in
    if e.start == end then earlier (pos n) e ∷ rest else e ∷ es

-- Where the entries that stand back to back from a moment end.
pub run_end : Instant → List Entry → Instant
run_end end [] = end
run_end end (e ∷ es) = let rest = run_end (finish e) es in if e.start == end then rest else end

pull_loop_broken :
    (n : ℕ) (p : Pull) (es : List Entry)
    → p.chain ≡ false
    → (pull_loop (pos n) p es).entries ≡ p.entries ++ es
unfolding pull_loop pull_step
pull_loop_broken n p [] h = sym (append-nil p.entries)
pull_loop_broken n p (e ∷ es) h = ground (
  arith,
  pull_loop_broken n
      (record p { chain = false; to = later_of (end_of e) p.to; entries = p.entries ++ e ∷ [] }) es,
  append_assoc p.entries (e ∷ []) es,
)

abbrev moved : ℕ → Pull → Entry → Pull
moved n p e = record {
  prev_end = end_of e;
  chain = true;
  to = later_of (end_of e) p.to;
  entries = p.entries ++ earlier (pos n) e ∷ [];
}

abbrev stopped : Pull → Entry → Pull
stopped p e = record p {
  chain = false;
  to = later_of (end_of e) p.to;
  entries = p.entries ++ e ∷ [];
}

pull_step-moved :
    (n : ℕ) (p : Pull) (e : Entry)
    → p.chain ≡ true
    → (e.start == p.prev_end) ≡ true
    → pull_step (pos n) p e ≡ moved n p e
unfolding pull_step
pull_step-moved n p e h b = ground arith

pull_step-stopped :
    (n : ℕ) (p : Pull) (e : Entry)
    → (e.start == p.prev_end) ≡ false
    → pull_step (pos n) p e ≡ stopped p e
unfolding pull_step
pull_step-stopped n p e b = ground arith

pub pull_loop_lem :
    (n : ℕ) (p : Pull) (es : List Entry)
    → p.chain ≡ true
    → Follows p.prev_end es
    → (pull_loop (pos n) p es).entries ≡ p.entries ++ pulled_up n p.prev_end es
unfolding pull_loop pulled_up
pull_loop_lem n p [] h f = sym (append-nil p.entries)
pull_loop_lem n p (e ∷ es) h f =
    let more = pull_loop_lem n (moved n p e) es refl (rw (end_of-finish e f.1) f.2) in
    elim (Bool-cases (e.start == p.prev_end)) [
      | inl b ↦
          ap (λ q. (pull_loop (pos n) q es).entries) (pull_step-moved n p e h b)
          ∙ more
          ∙ append_assoc p.entries (earlier (pos n) e ∷ []) (pulled_up n (end_of e) es)
          ∙ rw (b, end_of-finish e f.1)
      | inr b ↦
          ap (λ q. (pull_loop (pos n) q es).entries) (pull_step-stopped n p e b)
          ∙ pull_loop_broken n (stopped p e) es refl
          ∙ append_assoc p.entries (e ∷ []) es
          ∙ rw b
    ]

-- The window of the edit reaches the old end of every entry.
pub pull_loop_to :
    (n : ℕ) (p : Pull) (es : List Entry)
    → (p.to ≤ (pull_loop (pos n) p es).to) × All (λ e. end_of e ≤ (pull_loop (pos n) p es).to) es
unfolding pull_loop
pull_loop_to n p [] = (omega arith, tt)
pull_loop_to n p (e ∷ es) =
    let more = pull_loop_to n (pull_step (pos n) p e) es in
    let step = pull_step_to n p e in (omega arith, (omega arith, more.1))
  where
    pull_step_to :
        (n : ℕ) (p : Pull) (e : Entry)
        → (p.to ≤ (pull_step (pos n) p e).to) × (end_of e ≤ (pull_step (pos n) p e).to)
    pull_step_to n p e = unfold pull_step later_of in ground arith

earlier-IsSound :
    (n : ℕ) (e : Entry)
    → IsSound e
    → n % second ≡ 0
    → n ≤ e.start
    → n < 2 ^ 63
    → IsSound (earlier (pos n) e)
unfolding earlier
earlier-IsSound n e s v h k = record {
  whole = rw (wrap64_minus n k) (ground (arith, s.whole));
  duration = s.duration;
  positive = s.positive;
  short = s.short;
  offset = s.offset;
  near = s.near;
}

pub earlier-start : (n : ℕ) (e : Entry) → n < 2 ^ 63 → (earlier (pos n) e).start ≡ e.start - n
unfolding earlier
earlier-start n e k = rw (wrap64_minus n k) (ground arith)

-- From the moment on, the run plays ahead of time, then nothing until it would have ended, then the old air.
abbrev pub ahead : ℕ → Instant → List Entry → ℕ → Option Picture
ahead n end es ts =
    if ltb (ts + n) end then playing (ts + n) es else if ltb ts end then none else playing ts es

module _ (n ts : ℕ) (e : Entry) (es : List Entry) (s : IsSound e) (v : n % second ≡ 0)
    (k : n < 2 ^ 63) (l : n ≤ e.start) where
  earlier-finish : finish (earlier (pos n) e) ≡ finish e - n
  earlier-finish = ground (arith, earlier-start n e k, same_length)
    where
      same_length : lasting (earlier (pos n) e) ≡ lasting e
      same_length = unfold earlier in refl

  picture-earlier : e.start ≤ ts + n → picture ts (earlier (pos n) e) ≡ picture (ts + n) e
  unfolding earlier
  picture-earlier h = rw (wrap64_minus n k) (ground arith)

  playing-earlier_on :
      (xs : List Entry)
      → e.start ≤ ts + n
      → ts + n < finish e
      → playing ts (earlier (pos n) e ∷ xs) ≡ playing (ts + n) (e ∷ es)
  unfolding playing
  playing-earlier_on xs h j =
      rw
        (
          on_air_inside ts (earlier (pos n) e) (earlier-IsSound n e s v l k)
              (omega (arith, earlier-start n e k)) (omega (arith, earlier-finish)),
          on_air_inside (ts + n) e s h j,
        )
        (ap some (picture-earlier h))

  playing-earlier_over :
      (xs : List Entry) → finish e ≤ ts + n → playing ts (earlier (pos n) e ∷ xs) ≡ playing ts xs
  unfolding playing
  playing-earlier_over xs h = rw (
      on_air_over ts (earlier (pos n) e) (
        rw (end_of-finish (earlier (pos n) e) (earlier-IsSound n e s v l k))
          (omega (arith, earlier-finish))))

pub playing_once_over :
    (ts : ℕ) (e : Entry) (es : List Entry)
    → IsSound e
    → finish e ≤ ts
    → playing ts (e ∷ es) ≡ playing ts es
unfolding playing
playing_once_over ts e es s h = rw (on_air_over ts e (rw (end_of-finish e s) h))

pub run_end-above : (end : ℕ) (es : List Entry) → Follows end es → end ≤ run_end end es
unfolding run_end
run_end-above end [] f = omega arith
run_end-above end (e ∷ es) f = ground (arith, run_end-above (finish e) es f.2)

-- The entry in front is over: only the ones behind it count.
pub ahead-cons :
    (n g ts : ℕ) (e : Entry) (es : List Entry)
    → IsSound e
    → finish e ≤ g
    → finish e ≤ ts + n
    → ahead n g es ts ≡ ahead n g (e ∷ es) ts
ahead-cons n g ts e es s h j = elim (dec_lt (ts + n) g) [
  | yes q ↦ rw (lt→ltb (ts + n) g q) (sym (playing_once_over (ts + n) e es s j))
  | no q ↦ elim (dec_lt ts g) [
    | yes r ↦ rw (le→ltb (ts + n) g (omega arith), lt→ltb ts g r)
    | no r ↦
        rw (le→ltb (ts + n) g (omega arith), le→ltb ts g (omega arith))
          (sym (playing_once_over ts e es s (omega arith)))
  ]
]

nothing_left : (n end ts : ℕ) → playing ts [] ≡ ahead n end [] ts
unfolding playing
nothing_left n end ts = ground arith

pub playing-pulled_up :
    (n end ts : ℕ) (es : List Entry)
    → n % second ≡ 0
    → n < 2 ^ 63
    → n ≤ end
    → end ≤ ts + n
    → Follows end es
    → playing ts (pulled_up n end es) ≡ ahead n (run_end end es) es ts
unfolding pulled_up run_end
playing-pulled_up n end ts [] v k l h f = nothing_left n end ts
playing-pulled_up n end ts (e ∷ es) v k l h f = elim (Bool-cases (e.start == end)) [
  | inl b ↦ rw b (elim (dec_lt (ts + n) (finish e)) [
    | yes q ↦
        rw
          (lt→ltb (ts + n) (run_end (finish e) es) (omega (arith, run_end-above (finish e) es f.2)))
          (playing-earlier_on n ts e es f.1 v k (ground arith) _ (ground arith) q)
    | no q ↦
        playing-earlier_over n ts e es f.1 v k (ground arith) _ (omega arith)
        ∙ playing-pulled_up n (finish e) ts es v k (ground arith) (omega arith) f.2
        ∙ ahead-cons n (run_end (finish e) es) ts e es f.1 (run_end-above (finish e) es f.2)
            (omega arith)
  ])
  | inr b ↦
      rw (b, le→ltb (ts + n) end h)
        (elim (dec_lt ts end) [
          | yes q ↦ rw (lt→ltb ts end q) (playing_early ts end (e ∷ es) f q)
          | no q ↦ rw (le→ltb ts end (omega arith))
        ])
]

pub Follows-pulled_up :
    (n end : ℕ) (es : List Entry)
    → n % second ≡ 0
    → n < 2 ^ 63
    → n ≤ end
    → Follows end es
    → Follows (end - n) (pulled_up n end es)
unfolding pulled_up
Follows-pulled_up n end [] v k l f = tt
Follows-pulled_up n end (e ∷ es) v k l f = elim (Bool-cases (e.start == end)) [
  | inl b ↦ rw b (
    omega (arith, earlier-start n e k, f.0),
    earlier-IsSound n e f.1 v (ground arith) k,
    Follows-mono _ _ (Follows-pulled_up n (finish e) es v k (ground arith) f.2)
        (omega (arith, earlier-finish n 0 e es f.1 v k (ground arith))),
  )
  | inr b ↦ rw b (omega (arith, f.0), f.1, f.2)
]

pub is_empty-pulled_up :
    (n end : ℕ) (xs : List Entry) (e : Entry) (es : List Entry)
    → is_empty (xs ++ pulled_up n end (e ∷ es)) ≡ false
unfolding is_empty pulled_up
is_empty-pulled_up n end [] e es = ground arith
is_empty-pulled_up n end (x ∷ xs) e es = refl

-- ===== src/Webhook/Attempts.antt =====
-- The loop of deliver of pkg/events/webhook.go against what its receiver answers.
use mathlib.Core.Option.{some-injective, none-ne-some}
use fast_tv_playout_core.Base.{
  ℕ, zero, suc, ◌*◌, ◌^◌, ◌≢◌, ◌⊎◌, ◌==◌, ◌&&◌, ◌||◌, ltb, leb, false, pos, wrap64_pos, ◌*ℤ◌, sym,
  ◌+◌, ◌≤◌, ◌<◌, ◌≡◌, refl, ap, ◌∙◌, Bool, true, List, [], ◌∷◌, length, Option, none, some, arith,
  Bool-cases, inl, inr, subst, dec_lt,
}
use fast_tv_playout_core.Clock.{Duration}
use fast_tv_playout_core.Webhook.{
  Sender, Reply, no_request, unreachable, status, Verdict, delivered, refused, no_request_made,
  gave_up, stopped, judge, Delivery, after_reply, retry_loop, deliver, doubled,
}

-- A verdict on the answer to an attempt that is final.
pub data Final : Reply → Verdict → Type 0 where
  success : (n : ℕ) → 200 ≤ n → n < 300 → Final (status n) delivered
  refusal :
      (n : ℕ) → n < 500 → n ≢ 408 → n ≢ 429 → (n < 200) ⊎ (300 ≤ n) → Final (status n) (refused n)
  not_sent : Final no_request no_request_made

-- An answer after which the receiver may be tried again.
pub data Passing : Reply → Type 0 where
  not_reached : Passing unreachable
  timed_out : Passing (status 408)
  throttled : Passing (status 429)
  server_error : (n : ℕ) → 500 ≤ n → Passing (status n)

-- Pauses in nanoseconds, each twice as long as the one before.
abbrev pub doublings : ℕ → ℕ → List Duration
doublings zero d = []
doublings (suc n) d = pos d ∷ doublings n (2 * d)

double_pos : (d : ℕ) → 2 * d < 2 ^ 63 → doubled (pos d) ≡ pos (2 * d)
unfolding ◌*ℤ◌
double_pos d h = ground (arith, wrap64_pos (2 * d) h)

-- The bound of the pauses, one pause further.
bound_step : (d n : ℕ) → d * 2 ^ suc n < 2 ^ 63 → (2 * d) * 2 ^ n < 2 ^ 63
bound_step d n h = grind (arith, h)

bound_next : (d n : ℕ) → d * 2 ^ suc n < 2 ^ 63 → 2 * d < 2 ^ 63
bound_next d zero h = grind (arith, h)
bound_next d (suc n) h = bound_next d n (grind (arith, h))

judge-Final : (r : Reply) (v : Verdict) → judge r ≡ some v → Final r v
unfolding judge
judge-Final no_request v h = subst (Final no_request) (some-injective no_request_made v h) not_sent
judge-Final unreachable v h = absurd (none-ne-some v h)
judge-Final (status n) v h = elim (Bool-cases (leb 200 n && ltb n 300)) [
  | inl e ↦
      subst (Final (status n)) (some-injective delivered v (sym (first e) ∙ h))
        (success n (ground (arith, e)) (ground (arith, e)))
  | inr e ↦ elim (Bool-cases (n == 408 || n == 429 || leb 500 n)) [
    | inl f ↦ absurd (none-ne-some v (sym (second e f) ∙ h))
    | inr f ↦ subst (Final (status n)) (some-injective (refused n) v (sym (third e f) ∙ h)) (
        refusal n (ground (arith, f)) (λ q. ground (arith, f, q)) (λ q. ground (arith, f, q))
          (ground (arith, e)))
  ]
]
  where
    first : (leb 200 n && ltb n 300) ≡ true → judge (status n) ≡ some delivered
    first e = unfold judge in rw e refl

    second :
        (leb 200 n && ltb n 300) ≡ false
        → (n == 408 || n == 429 || leb 500 n) ≡ true
        → judge (status n) ≡ none
    second e f = unfold judge in rw (e, f) refl

    third :
        (leb 200 n && ltb n 300) ≡ false
        → (n == 408 || n == 429 || leb 500 n) ≡ false
        → judge (status n) ≡ some (refused n)
    third e f = unfold judge in rw (e, f) refl

judge-Passing : (r : Reply) → judge r ≡ none → Passing r
unfolding judge
judge-Passing no_request h = absurd (none-ne-some no_request_made (sym h))
judge-Passing unreachable h = not_reached
judge-Passing (status n) h = elim (dec_lt n 500) [
  | no big ↦ server_error n (omega (arith, big))
  | yes small ↦ elim (Bool-cases (n == 408)) [
    | inl e ↦ subst (λ m. Passing (status m)) (ground (arith, e)) timed_out
    | inr e ↦ elim (Bool-cases (n == 429)) [
      | inl f ↦ subst (λ m. Passing (status m)) (ground (arith, f)) throttled
      | inr f ↦ absurd (ground (arith, e, f, small, h))
    ]
  ]
]

module _ (reply : ℕ → Reply) (halts : ℕ → Bool) where
  -- Why the attempts end: an attempt was answered for good, all were made, or the sender was stopped before one.
  -- `limit` counts the attempts that may be made, `made` those that were.
  pub data Ends (limit made : ℕ) : Verdict → Type 0 where
    answered :
        (last : ℕ) (v : Verdict)
        → made ≡ suc last
        → last < limit
        → Final (reply last) v
        → Ends limit made v
    exhausted : made ≡ limit → Ends limit made gave_up
    halted : made < limit → halts made ≡ true → Ends limit made stopped

  -- The attempts from one on: why they end, that those before the last called for another, and the pauses.
  pub record IsExplained (from limit pause : ℕ) (d : Delivery) : Type 0 where
    pub ends : Ends limit (from + d.attempts) d.verdict
    pub retried : (i : ℕ) → from ≤ i → suc i < from + d.attempts → Passing (reply i)
    pub within : d.attempts + from ≤ limit
    pub paused : d.pauses ≡ doublings (length d.pauses) pause

  Ends-congr : (limit m m' : ℕ) (v : Verdict) → m ≡ m' → Ends limit m v → Ends limit m' v
  Ends-congr limit m m' v e h = subst (λ x. Ends limit x v) e h

  -- An attempt in front of those that follow it.
  after_reply-IsExplained :
      (from limit pause : ℕ) (o : Option Verdict) (rest : Delivery)
      → judge (reply from) ≡ o
      → suc from ≤ limit
      → IsExplained (suc from) limit pause rest
      → IsExplained from limit pause (after_reply reply halts o rest)
  unfolding after_reply
  after_reply-IsExplained from limit pause (some v) rest e l h = record {
    ends = answered from v (omega arith) (omega (arith, l)) (judge-Final (reply from) v e);
    retried = λ i lo up. absurd (omega (arith, lo, up));
    within = omega (arith, l);
    paused = refl;
  }
  after_reply-IsExplained from limit pause none rest e l h = record {
    ends = Ends-congr limit _ _ _ (omega arith) h.ends;
    retried = λ i lo up. elim (dec_lt from i) [
      | yes more ↦ h.retried i (omega (arith, more)) (omega (arith, up))
      | no same ↦
          subst (λ x. Passing (reply x)) (omega (arith, same, lo)) (judge-Passing (reply from) e)
    ];
    within = omega (arith, h.within);
    paused = h.paused;
  }

  -- The pause before an attempt.
  after_pause :
      (from limit pause : ℕ) (d : Delivery)
      → IsExplained from limit (2 * pause) d
      → IsExplained from limit pause (record d { pauses = pos pause ∷ d.pauses })
  after_pause from limit pause d h = record {
    ends = h.ends;
    retried = h.retried;
    within = h.within;
    paused = ap (λ ps. pos pause ∷ ps) h.paused;
  }

  retry_loop-IsExplained :
      (left from pause : ℕ)
      → pause * 2 ^ left < 2 ^ 63
      → IsExplained from (from + left) pause (retry_loop reply halts left from (pos pause))
  unfolding retry_loop
  retry_loop-IsExplained zero from pause small = record {
    ends = exhausted (omega arith);
    retried = λ i lo up. absurd (omega (arith, lo, up));
    within = omega arith;
    paused = refl;
  }
  retry_loop-IsExplained (suc left) from pause small = elim (Bool-cases (halts from)) [
    | inl b ↦ rw b (record {
      ends = halted (omega arith) (ap halts (omega arith) ∙ b);
      retried = λ i lo up. absurd (omega (arith, lo, up));
      within = omega arith;
      paused = refl;
    })
    | inr b ↦
        rw (b, double_pos pause (bound_next pause left small))
          (after_pause from (from + suc left) pause _ (
            after_reply-IsExplained from (from + suc left) (2 * pause) (judge (reply from)) _ refl
              (omega arith)
              (subst
                (λ m.
                  IsExplained (suc from) m (2 * pause)
                    (retry_loop reply halts left (suc from) (pos (2 * pause))))
                (omega arith)
                (retry_loop-IsExplained left (suc from) (2 * pause)
                  (bound_step pause left small)))))
  ]

  -- For a first pause that is not negative and, doubled once for every retry, stays below 2^63 nanoseconds:
  -- deliver makes at most one attempt more than its retries, and ends for a reason: an attempt was answered with
  -- a status from 200 to 299, or was refused with any other status below 500 but 408 and 429, or could not be
  -- made into a request, or all attempts were made, or the sender was stopped before one. Every attempt before
  -- the last did not reach the receiver or was answered with 408, 429 or a status from 500 on. The pauses are the
  -- first one, and then each exactly twice as long as the one before it.
  pub deliver-IsExplained :
      (s : Sender) (pause : ℕ)
      → s.backoff ≡ pos pause
      → pause * 2 ^ s.retries < 2 ^ 63
      → IsExplained 0 (1 + s.retries) pause (deliver reply halts s)
  unfolding deliver
  deliver-IsExplained s pause q small = rw q (
      after_reply-IsExplained 0 (1 + s.retries) pause (judge (reply 0)) _ refl (omega arith)
        (retry_loop-IsExplained s.retries 1 pause small))

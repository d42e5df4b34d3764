-- ===== src/Broker/Settled.antt =====
-- services/engine/ads.go: a break that was given up stays filled with slate.
use mathlib.Core.Bool.{false≢true}
use mathlib.Core.Option.{some-injective, none-ne-some}
use fast_tv_playout_core.Base.{
  ℕ, zero, suc, ◌<◌, ◌≡◌, refl, sym, ap, subst, ◌∙◌, true, false, not, ◌&&◌, Bool-cases, inl, inr,
  ◌==◌, ==_same, Option, none, some, List, [], ◌∷◌, ◌++◌, if◌then◌else◌, length, get_or, All,
  length-set, length-append, get_or-set_same, get_or-set_other, ltb_ℤ, pos, arith,
}
use fast_tv_playout_core.Clock.{Instant, before, add, sub, minus}
use fast_tv_playout_core.Model.{TimelineEntry, AdItem}
use fast_tv_playout_core.Pods.{PodState, ready, pending, failed}
use fast_tv_playout_core.Broker.{
  PodEntry, AdBroker, new_broker, find_start, no_entry, entry_at, with_entry, with_new, is_failed,
  is_pending, asked_again, kept_for, retry_every, request_for, request, settled_entry, settle,
  give_up_at, give_up, recent, evict, BrokerStep, asks, ends, gives_up, evicts, ad_broker,
}
use fast_tv_playout_core.Broker.Flights.{IsBroker, Reaches, Reaches-IsBroker}

-- The break is known, and its pod is ready and empty.
pub record IsSlate (t : Instant) (b : AdBroker) : Type 0 where
  pub spot : ℕ
  pub found : find_start t b.pods ≡ some spot
  pub within : spot < length b.store
  pub items : (entry_at b spot).items ≡ []
  pub state : (entry_at b spot).state ≡ ready

-- A step that does not evict the break of a moment.
unfoldable pub Spares : Instant → {b c : AdBroker} → BrokerStep b c → Type 0
Spares t (evicts now) = before t (add now (minus (pos kept_for))) ≡ false
Spares t (asks e now) = Unit
Spares t (ends i now r n f) = Unit
Spares t (gives_up u) = Unit

-- Steps that do not.
pub data Later (t : Instant) (b : AdBroker) : AdBroker → Type 0 where
  same : Later t b b
  after : {c d : AdBroker} → Later t b c → (s : BrokerStep c d) → Spares t s → Later t b d

get_or-append :
    (xs : List PodEntry) (v : PodEntry) (i : ℕ) (d : PodEntry)
    → i < length xs
    → get_or (xs ++ (v ∷ [])) i d ≡ get_or xs i d
get_or-append [] v i d h = absurd (omega (arith, h))
get_or-append (x ∷ xs) v zero d h = refl
get_or-append (x ∷ xs) v (suc i) d h = get_or-append xs v i d (omega (arith, h))

get_or-last : (xs : List PodEntry) (v d : PodEntry) → get_or (xs ++ (v ∷ [])) (length xs) d ≡ v
get_or-last [] v d = refl
get_or-last (x ∷ xs) v d = get_or-last xs v d

found-known :
    (t : Instant) (n : ℕ) (pods : List (Instant × ℕ)) (i : ℕ)
    → find_start t pods ≡ some i
    → All (λ p. p.1 < n) pods
    → i < n
unfolding find_start
found-known t n [] i e a = absurd (none-ne-some i e)
found-known t n ((k, j) ∷ pods) i e a = elim (Bool-cases (t == k)) [
  | inl s ↦ omega (
    arith,
    a.0,
    some-injective j i (sym (ap (λ c. if c then some j else find_start t pods) s) ∙ e),
  )
  | inr s ↦
      found-known t n pods i (sym (ap (λ c. if c then some j else find_start t pods) s) ∙ e) a.1
]

-- An entry that takes the place of another.
entry_at-with :
    (b : AdBroker) (i : ℕ) (en : PodEntry)
    → i < length b.store
    → entry_at (with_entry b i en) i ≡ en
entry_at-with b i en h = get_or-set_same b.store i en no_entry h

-- A break keeps its empty pod when some entry becomes ready and empty, if it is that of the break.
with_entry-IsSlate :
    (t : Instant) (b : AdBroker) (i : ℕ) (en : PodEntry) (v : IsSlate t b)
    → (i ≡ v.spot → (en.items ≡ []) × (en.state ≡ ready))
    → IsSlate t (with_entry b i en)
with_entry-IsSlate t b i en v h = elim (Bool-cases (i == v.spot)) [
  | inl e ↦
      let q : i ≡ v.spot = ground (arith, e) in
      let at : entry_at (with_entry b i en) v.spot ≡ en =
        subst (λ k. entry_at (with_entry b i en) k ≡ en) q
          (entry_at-with b i en (omega (arith, q, v.within))) in
      record {
        spot = v.spot;
        found = v.found;
        within = omega (arith, v.within, length-set b.store i en);
        items = ap (λ x. x.items) at ∙ (h q).0;
        state = ap (λ x. x.state) at ∙ (h q).1;
      }
  | inr e ↦
      let at : entry_at (with_entry b i en) v.spot ≡ entry_at b v.spot =
        get_or-set_other b.store i v.spot en no_entry (λ q. ground (arith, e, q)) in
      record {
        spot = v.spot;
        found = v.found;
        within = omega (arith, v.within, length-set b.store i en);
        items = ap (λ x. x.items) at ∙ v.items;
        state = ap (λ x. x.state) at ∙ v.state;
      }
]

with_new-IsSlate :
    (t u : Instant) (b : AdBroker) (en : PodEntry)
    → find_start u b.pods ≡ none
    → IsSlate t b
    → IsSlate t (with_new b u en)
unfolding find_start
with_new-IsSlate t u b en e v = elim (Bool-cases (t == u)) [
  | inl s ↦
      let q : t ≡ u = ground (arith, s) in
      absurd (none-ne-some v.spot (sym e ∙ ap (λ w. find_start w b.pods) (sym q) ∙ v.found))
  | inr s ↦
      let at = get_or-append b.store en v.spot no_entry v.within in
      record {
        spot = v.spot;
        found = ap (λ c. if c then some (length b.store) else find_start t b.pods) s ∙ v.found;
        within = omega (arith, v.within, length-append b.store (en ∷ []));
        items = ap (λ x. x.items) at ∙ v.items;
        state = ap (λ x. x.state) at ∙ v.state;
      }
]

request_for-IsSlate :
    (t u now : Instant) (b : AdBroker) (o : Option ℕ)
    → find_start u b.pods ≡ o
    → IsSlate t b
    → IsSlate t (request_for u now b o).0
unfolding request_for
request_for-IsSlate t u now b none e v = with_new-IsSlate t u b (asked_again no_entry) e v
request_for-IsSlate t u now b (some i) e v =
    let en = entry_at b i in
    elim (Bool-cases (is_failed en.state && not (ltb_ℤ (sub now en.failed_at) (pos retry_every)))) [
      | inr c ↦ rw c v
      | inl c ↦ rw c (
          with_entry-IsSlate t b i (asked_again en) v
            (λ q. absurd (false≢true (sym (is_ready q) ∙ (ground (arith, c))))))
    ]
  where
    is_ready : i ≡ v.spot → is_failed (entry_at b i).state ≡ false
    is_ready q = ap (λ k. is_failed (entry_at b k).state) q ∙ ap is_failed v.state

settled_entry-ready :
    (now : Instant) (r : Option (List AdItem)) (en : PodEntry)
    → (en.items ≡ [])
    → (en.state ≡ ready)
    → ((settled_entry now r en).items ≡ []) × ((settled_entry now r en).state ≡ ready)
unfolding settled_entry
settled_entry-ready now r en i s = over en.state s
  where
    over :
        (q : PodState)
        → q ≡ ready
        → ((settled_entry now r (record {
          items = en.items;
          state = q;
          failed_at = en.failed_at;
          flights = en.flights;
        })).items
            ≡ [])
          × ((settled_entry now r (record {
            items = en.items;
            state = q;
            failed_at = en.failed_at;
            flights = en.flights;
          })).state
              ≡ ready)
    over ready q = unfold settled_entry in (i, refl)
    over pending q = absurd (false≢true (sym (ap is_pending q)))
    over failed q = absurd (false≢true (sym (ap is_failed q)))

give_up_at-IsSlate :
    (t u : Instant) (b : AdBroker) (o : Option ℕ)
    → find_start u b.pods ≡ o
    → IsSlate t b
    → IsSlate t (give_up_at u b o)
unfolding give_up_at
give_up_at-IsSlate t u b none e v = with_new-IsSlate t u b no_entry e v
give_up_at-IsSlate t u b (some i) e v =
    with_entry-IsSlate t b i (record (entry_at b i) { items = []; state = ready }) v
      (λ q. (refl, refl))

find_start-recent :
    (t cutoff : Instant) (pods : List (Instant × ℕ)) (i : ℕ)
    → before t cutoff ≡ false
    → find_start t pods ≡ some i
    → find_start t (recent cutoff pods) ≡ some i
unfolding find_start recent
find_start-recent t cutoff [] i h e = e
find_start-recent t cutoff ((k, j) ∷ pods) i h e = elim (Bool-cases (before k cutoff)) [
  | inl c ↦ rw c (
      find_start-recent t cutoff pods i h
        (sym (ap (λ a. if a then some j else find_start t pods) (other c)) ∙ e))
  | inr c ↦ rw c (elim (Bool-cases (t == k)) [
    | inl a ↦
        ap (λ a. if a then some j else find_start t (recent cutoff pods)) a
        ∙ sym (ap (λ a. if a then some j else find_start t pods) a)
        ∙ e
    | inr a ↦
        ap (λ a. if a then some j else find_start t (recent cutoff pods)) a
        ∙ find_start-recent t cutoff pods i h
            (sym (ap (λ a. if a then some j else find_start t pods) a) ∙ e)
  ])
]
  where
    other : before k cutoff ≡ true → t == k ≡ false
    other c = ground (arith, c, h)

BrokerStep-IsSlate :
    (t : Instant) {b c : AdBroker} (s : BrokerStep b c) → Spares t s → IsSlate t b → IsSlate t c
unfolding Spares
BrokerStep-IsSlate t {b} (asks e now) h v =
    unfold request in request_for-IsSlate t e.start now b (find_start e.start b.pods) refl v
BrokerStep-IsSlate t {b} (ends i now r n f) h v =
    unfold settle in
    with_entry-IsSlate t b i (settled_entry now r (entry_at b i)) v (λ q.
      settled_entry-ready now r (entry_at b i) (ap (λ k. (entry_at b k).items) q ∙ v.items)
        (ap (λ k. (entry_at b k).state) q ∙ v.state))
BrokerStep-IsSlate t {b} (gives_up u) h v =
    unfold give_up in give_up_at-IsSlate t u b (find_start u b.pods) refl v
BrokerStep-IsSlate t {b} (evicts now) h v =
    unfold evict in
    record {
      spot = v.spot;
      found = find_start-recent t (add now (minus (pos kept_for))) b.pods v.spot h v.found;
      within = v.within;
      items = v.items;
      state = v.state;
    }

Later-IsSlate : (t : Instant) {b c : AdBroker} → Later t b c → IsSlate t b → IsSlate t c
Later-IsSlate t same v = v
Later-IsSlate t (after l s p) v = BrokerStep-IsSlate t s p (Later-IsSlate t l v)

given_up-IsSlate :
    (t : Instant) (b : AdBroker) (o : Option ℕ)
    → find_start t b.pods ≡ o
    → IsBroker b
    → IsSlate t (give_up_at t b o)
unfolding give_up_at find_start
given_up-IsSlate t b none e k =
    let at = get_or-last b.store no_entry no_entry in
    record {
      spot = length b.store;
      found = ap (λ c. if c then some (length b.store) else find_start t b.pods) (==_same t t refl);
      within = omega (arith, length-append b.store (no_entry ∷ []));
      items = ap (λ x. x.items) at;
      state = ap (λ x. x.state) at;
    }
given_up-IsSlate t b (some i) e k =
    let en : PodEntry = record (entry_at b i) { items = []; state = ready } in
    let l = found-known t (length b.store) b.pods i e k.known in
    let at = entry_at-with b i en l in
    record {
      spot = i;
      found = e;
      within = omega (arith, l, length-set b.store i en);
      items = ap (λ x. x.items) at;
      state = ap (λ x. x.state) at;
    }

answer-IsSlate :
    (t now : Instant) (e : TimelineEntry) (b : AdBroker) (v : IsSlate t b)
    → e.start ≡ t
    → request e now b ≡ (b, v.spot)
unfolding request request_for
answer-IsSlate t now e b v q =
    ap (λ o. request_for e.start now b o) (ap (λ u. find_start u b.pods) q ∙ v.found)
    ∙ ap (λ c. (if c then with_entry b v.spot (asked_again (entry_at b v.spot)) else b, v.spot))
        (ap (λ c. c && not (ltb_ℤ (sub now (entry_at b v.spot).failed_at) (pos retry_every)))
          (ap is_failed v.state))

-- After giveUp has filled a break with slate, the broker answers every further call of pod for it that does not
-- wait with an empty pod that is ready, and starts no request, whatever requests, answers, and other breaks
-- come in between, as long as evict is not called at a moment from which the start of the break is more than an
-- hour ago.
pub give_up-Later :
    (b c : AdBroker) (t now : Instant) (e : TimelineEntry) (meanwhile : AdBroker → AdBroker)
    → Reaches new_broker b
    → Later t (give_up t b) c
    → e.start ≡ t
    → let a = (ad_broker now meanwhile).pod e false c in
      (a.items ≡ []) × (a.state ≡ ready) × (a.source ≡ c)
give_up-Later b c t now e meanwhile r l q =
    let v =
      Later-IsSlate t l
        (unfold give_up in given_up-IsSlate t b (find_start t b.pods) refl (Reaches-IsBroker r)) in
    let a = answer-IsSlate t now e c v q in
    (
      ap (λ p. (entry_at p.0 p.1).items) a ∙ v.items,
      ap (λ p. (entry_at p.0 p.1).state) a ∙ v.state,
      ap (λ p. p.0) a,
    )

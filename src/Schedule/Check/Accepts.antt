-- ===== src/Schedule/Check/Accepts.antt =====
-- What CheckEntries accepts, said without its loop.
use fast_tv_playout_core.Base.{
  ℕ, suc, ◌*◌, ◌%◌, ◌^◌, ◌≤◌, ◌<◌, ◌≡◌, ◌≢◌, ◌↔◌, refl, ◌⊎◌, inl, inr, true, false, ◌&&◌, Option,
  none, some, List, [], ◌∷◌, arith, length, sort_stable, String, str_eq, eq_iff, pos, Bool-cases,
  insert_by,
}
use fast_tv_playout_core.Clock.{Instant, second, seconds_wrapped}
use fast_tv_playout_core.Schedule.{Entry, Fault, ok, end_of}
use fast_tv_playout_core.Schedule.Air.{lasting, skipped}
use fast_tv_playout_core.Schedule.Check.{
  valid_type, asset_fault, value_fault, overlap_fault, entry_fault, check_loop, check_entries,
  max_entries, starts_before,
}

-- An entry has a source exactly if the ads service does not choose one.
pub data HasSource (e : Entry) : Type 0 where
  program :
      ((e.type ≡ "content") ⊎ (e.type ≡ "bumper"))
      → ((e.asset_id ≢ "") ⊎ (e.uri ≢ ""))
      → HasSource e
  slate : e.type ≡ "slate" → HasSource e
  ad_break : e.type ≡ "ad_break" → e.asset_id ≡ "" → e.uri ≡ "" → HasSource e

-- An entry that may stand in the window, by itself.
pub record IsFit (from to : Instant) (e : Entry) : Type 0 where
  pub source : HasSource e
  pub duration : e.duration_s ≡ pos (lasting e)
  pub positive : 0 < lasting e
  pub offset : e.offset_s ≡ pos (skipped e)
  pub whole : e.start % second ≡ 0
  pub lower : from ≤ e.start
  pub upper : e.start < to

-- Each entry is fit, and starts when the one before it has ended or later.
abbrev pub Accepts : Instant → Instant → Option Entry → List Entry → Type 0
Accepts from to prev [] = Unit {0}
Accepts from to none (e ∷ es) = IsFit from to e × Accepts from to (some e) es
Accepts from to (some p) (e ∷ es) =
    (end_of p ≤ e.start) × IsFit from to e × Accepts from to (some e) es

abbrev type_fault : Entry → Option Fault
type_fault e = elim (valid_type e.type) [ true ↦ asset_fault e | false ↦ some Fault.bad_type ]

value_fault-none :
    (from to : ℕ) (e : Entry)
    → value_fault from to e ≡ none
    → (e.duration_s ≡ pos (lasting e))
      × (0 < lasting e)
      × (e.offset_s ≡ pos (skipped e))
      × (e.start % second ≡ 0)
      × (from ≤ e.start)
      × (e.start < to)
unfolding value_fault
value_fault-none from to e h = ground arith

value_fault_fit : (from to : ℕ) (e : Entry) → IsFit from to e → value_fault from to e ≡ none
unfolding value_fault
value_fault_fit from to e f =
    ground (arith, f.duration, f.positive, f.offset, f.whole, f.lower, f.upper)

ne_of_test : (a b : String) → str_eq a b ≡ false → a ≢ b
ne_of_test a b h = ground (arith, eq_iff a b)

some_source :
    (e : Entry)
    → (str_eq e.asset_id "" && str_eq e.uri "") ≡ false
    → (e.asset_id ≢ "") ⊎ (e.uri ≢ "")
some_source e h = elim (Bool-cases (str_eq e.asset_id "")) [
  | inl t ↦ inr (ne_of_test e.uri "" (ground arith))
  | inr t ↦ inl (ne_of_test e.asset_id "" t)
]

source_of : (e : Entry) → valid_type e.type ≡ true → asset_fault e ≡ none → HasSource e
unfolding asset_fault
source_of e v h = elim (Bool-cases (str_eq e.type "content")) [
  | inl t ↦ program (inl ((eq_iff e.type "content").0 t)) (some_source e (ground arith))
  | inr t ↦ elim (Bool-cases (str_eq e.type "bumper")) [
    | inl u ↦ program (inr ((eq_iff e.type "bumper").0 u)) (some_source e (ground arith))
    | inr u ↦ elim (Bool-cases (str_eq e.type "ad_break")) [
      | inl w ↦
          ad_break ((eq_iff e.type "ad_break").0 w) (ground (arith, eq_iff e.asset_id ""))
            (ground (arith, eq_iff e.uri ""))
      | inr w ↦ slate (ground (arith, eq_iff e.type "slate"))
    ]
  ]
]

valid_of : (e : Entry) → HasSource e → valid_type e.type ≡ true
valid_of e (program (inl t) a) = rw t
valid_of e (program (inr t) a) = rw t
valid_of e (slate t) = rw t
valid_of e (ad_break t a b) = rw t

asset_fault-none : (e : Entry) → HasSource e → asset_fault e ≡ none
unfolding asset_fault
asset_fault-none e (program (inl t) a) =
    rw t (ground (arith, eq_iff e.asset_id "", eq_iff e.uri ""))
asset_fault-none e (program (inr t) a) =
    rw t (ground (arith, eq_iff e.asset_id "", eq_iff e.uri ""))
asset_fault-none e (slate t) = rw t
asset_fault-none e (ad_break t a b) = rw (t, a, b)

entry_fault-IsFit :
    (from to : ℕ) (prev : Option Entry) (e : Entry)
    → entry_fault from to prev e ≡ none
    → IsFit from to e × (overlap_fault prev e ≡ none)
unfolding entry_fault
entry_fault-IsFit from to prev e h =
    let v = value_fault-none from to e (ground arith) in
    (
      record {
        source = source_of e (ground arith) (ground arith);
        duration = v.0;
        positive = v.1;
        offset = v.2;
        whole = v.3;
        lower = v.4;
        upper = v.5;
      },
      ground arith,
    )

IsFit-entry_fault :
    (from to : ℕ) (prev : Option Entry) (e : Entry)
    → IsFit from to e
    → overlap_fault prev e ≡ none
    → entry_fault from to prev e ≡ none
unfolding entry_fault
IsFit-entry_fault from to prev e f h =
    ground (arith, valid_of e f.source, asset_fault-none e f.source, value_fault_fit from to e f)

check_loop-Accepts :
    (from to i : ℕ) (prev : Option Entry) (es : List Entry)
    → check_loop from to i prev es ≡ none
    → Accepts from to prev es
unfolding check_loop overlap_fault
check_loop-Accepts from to i prev [] h = tt
check_loop-Accepts from to i none (e ∷ es) h =
    let head = entry_fault-IsFit from to none e (ground arith) in
    (head.0, check_loop-Accepts from to (suc i) (some e) es (ground arith))
check_loop-Accepts from to i (some p) (e ∷ es) h =
    let head = entry_fault-IsFit from to (some p) e (ground arith) in
    (ground arith, head.0, check_loop-Accepts from to (suc i) (some e) es (ground arith))

Accepts-check_loop :
    (from to i : ℕ) (prev : Option Entry) (es : List Entry)
    → Accepts from to prev es
    → check_loop from to i prev es ≡ none
unfolding check_loop overlap_fault
Accepts-check_loop from to i prev [] a = refl
Accepts-check_loop from to i none (e ∷ es) a =
    rw (IsFit-entry_fault from to none e a.0 refl, check_loop)
      (Accepts-check_loop from to (suc i) (some e) es a.1)
Accepts-check_loop from to i (some p) (e ∷ es) a =
    rw (IsFit-entry_fault from to (some p) e a.1 (ground arith), check_loop)
      (Accepts-check_loop from to (suc i) (some e) es a.2)

-- CheckEntries returns a list if and only if there are at most MaxEntries entries and the list is these entries
-- sorted by their starts, equal starts in the given order, each of them fit, and none starting before the end
-- of the one before it.
pub check_entries_iff :
    (es out : List Entry) (from to : ℕ)
    → (check_entries es from to ≡ ok out) ↔ (
        (length es ≤ max_entries) × (out ≡ sort_stable starts_before es) × Accepts from to none out)
unfolding check_entries
check_entries_iff es out from to = (
  λ h. (ground arith, ground arith, check_loop-Accepts from to 0 none out (ground arith)),
  λ h. ground (arith, h.1, Accepts-check_loop from to 0 none out h.2),
)

end_of_wrapped :
    (e : Entry)
    → e.duration_s ≡ pos (lasting e)
    → 2 ^ 63 ≤ lasting e * second
    → lasting e * second < 2 ^ 64
    → end_of e ≤ e.start
unfolding end_of
end_of_wrapped e d h k = ground (arith, d, seconds_wrapped (lasting e) h k)

-- CheckEntries accepts two fit entries of which the second starts after the first and the duration of the first
-- is 2^63 to 2^64 nanoseconds: the duration overflows, so that the first ends before the second starts, even
-- where the second starts inside it.
pub check_entries_overflow :
    (e x : Entry) (from to : ℕ)
    → IsFit from to e
    → IsFit from to x
    → e.start < x.start
    → 2 ^ 63 ≤ lasting e * second
    → lasting e * second < 2 ^ 64
    → check_entries (e ∷ x ∷ []) from to ≡ ok (e ∷ x ∷ [])
check_entries_overflow e x from to fe fx b h k =
    (check_entries_iff (e ∷ x ∷ []) (e ∷ x ∷ []) from to).1 (
      omega arith,
      unfold sort_stable insert_by in ground arith,
      (fe, (omega (arith, end_of_wrapped e fe.duration h k), fx, tt)),
    )

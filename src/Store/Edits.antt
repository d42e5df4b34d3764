-- ===== src/Store/Edits.antt =====
-- What an edit leaves: the table in its order, and the database as it was where nothing was changed.
use mathlib.Core.Bool.{false≢true}
use fast_tv_playout_core.Base.{
  ℕ, suc, ◌≤◌, ◌≡◌, refl, sym, ap, subst, ◌∙◌, Bool, true, false, ◌&&◌, Bool-cases, inl, inr, ◌⊎◌,
  Option, none, some, List, [], ◌∷◌, ltb, leb, arith, insert_by, ltb→lt, String, str_eq,
}
use fast_tv_playout_core.Clock.{Instant, before}
use fast_tv_playout_core.Schedule.{Entry}
use fast_tv_playout_core.Store.{
  Db, Stored, Asset, Change, Reader, ApplyResult, Outcome, gives, fails, stopped, StoreFault,
  edit_schedule, answered_edit, fresh_edit, decide_edit, finish_edit, remember, keep_answer,
  response_of, commit, known_answer, replace_in_tx, replaced, next_row, insert_rows, row_fault,
  has_start, starts_first, delete_range, reader, mismatch,
}

-- The rows of a channel stand in the order of their starts, no two at one start.
abbrev pub IsTable : Instant → List Entry → Type 0
IsTable lo [] = Unit
IsTable lo (e ∷ es) = (lo ≤ e.start) × IsTable (suc e.start) es

IsTable-mono : (lo hi : ℕ) (es : List Entry) → lo ≤ hi → IsTable hi es → IsTable lo es
IsTable-mono lo hi [] h t = tt
IsTable-mono lo hi (e ∷ es) h t = (omega (arith, t.0), t.1)

insert_by-IsTable :
    (lo : ℕ) (e : Entry) (rows : List Entry)
    → has_start e.start rows ≡ false
    → lo ≤ e.start
    → IsTable lo rows
    → IsTable lo (insert_by starts_first e rows)
unfolding insert_by has_start
insert_by-IsTable lo e [] n l t = (l, tt)
insert_by-IsTable lo e (y ∷ rows) n l t = elim (Bool-cases (before y.start e.start)) [
  | inl b ↦ rw b (
    t.0,
    insert_by-IsTable (suc y.start) e rows (ground (arith, n)) (ltb→lt y.start e.start b) t.1,
  )
  | inr b ↦ rw b (l, (ground (arith, n), t.1))
]

delete_range-IsTable :
    (lo from to : ℕ) (rows : List Entry) → IsTable lo rows → IsTable lo (delete_range from to rows)
unfolding delete_range
delete_range-IsTable lo from to [] t = tt
delete_range-IsTable lo from to (e ∷ rows) t =
    elim (Bool-cases (leb from e.start && ltb e.start to)) [
      | inl b ↦ rw b (
          IsTable-mono lo (suc e.start) _ (omega (arith, t.0))
            (delete_range-IsTable (suc e.start) from to rows t.1))
      | inr b ↦ rw b (t.0, delete_range-IsTable (suc e.start) from to rows t.1)
    ]

row_fault-none :
    (assets : List (String × Asset)) (rows : List Entry) (e : Entry)
    → row_fault assets rows e ≡ none
    → has_start e.start rows ≡ false
unfolding row_fault
row_fault-none assets rows e h = elim (Bool-cases (has_start e.start rows)) [
  | inl b ↦ absurd (ground (arith, b))
  | inr b ↦ b
]

-- What holds of a result, where there is one.
abbrev Of : {A : Type 0} → (A → Type 0) → StoreFault ⊎ A → Type 0
Of P (inl f) = Unit
Of P (inr a) = P a

next_row-Of :
    (o : Option StoreFault) (P : List Entry → Type 0) (rest : StoreFault ⊎ List Entry)
    → (o ≡ none → Of P rest)
    → Of P (next_row o rest)
unfolding next_row
next_row-Of none P rest h = h refl
next_row-Of (some f) P rest h = tt

insert_rows-IsTable :
    (assets : List (String × Asset)) (entries rows : List Entry)
    → IsTable 0 rows
    → Of (IsTable 0) (insert_rows assets entries rows)
unfolding insert_rows
insert_rows-IsTable assets [] rows t = t
insert_rows-IsTable assets (e ∷ entries) rows t =
    next_row-Of (row_fault assets rows e) (IsTable 0) _ (λ n.
      insert_rows-IsTable assets entries (insert_by starts_first e rows)
        (insert_by-IsTable 0 e rows (row_fault-none assets rows e n) (omega arith) t))

-- A table one version on.
abbrev Raised : Db → Db → Type 0
Raised db db' = IsTable 0 db'.rows × (db'.version ≡ suc db.version)

replaced-Raised :
    (db : Db) (r : StoreFault ⊎ List Entry) → Of (IsTable 0) r → Of (Raised db) (replaced db r)
unfolding replaced
replaced-Raised db (inl f) t = tt
replaced-Raised db (inr rows) t = (t, refl)

replace_in_tx-Raised :
    (ch : Change) (db : Db) → IsTable 0 db.rows → Of (Raised db) (replace_in_tx ch db)
unfolding replace_in_tx
replace_in_tx-Raised ch db t =
    replaced-Raised db _
      (insert_rows-IsTable db.assets ch.entries _ (delete_range-IsTable 0 ch.from ch.to db.rows t))

-- The rows of a database in which a change has replaced those of its range.
abbrev pub Replaces : Change → Db → List Entry → Type 0
Replaces ch db rows =
    insert_rows db.assets ch.entries (delete_range ch.from ch.to db.rows) ≡ inr rows

rows_of : StoreFault ⊎ Db → List Entry
rows_of (inl f) = []
rows_of (inr db) = db.rows

unfoldable pub is_right : {A B : Type 0} → A ⊎ B → Bool
is_right (inl a) = false
is_right (inr b) = true

replaced-rows :
    (db db' : Db) (r : StoreFault ⊎ List Entry) → replaced db r ≡ inr db' → r ≡ inr db'.rows
unfolding replaced rows_of is_right
replaced-rows db db' (inl f) h = absurd (false≢true (ap is_right h))
replaced-rows db db' (inr rows) h = ap inr (ap rows_of h)

pub replace_in_tx-Replaces :
    (ch : Change) (db db' : Db) → replace_in_tx ch db ≡ inr db' → Replaces ch db db'.rows
unfolding replace_in_tx
replace_in_tx-Replaces ch db db' h = replaced-rows db db' _ h

keep_answer-same :
    (key hash : String) (now : Instant) (db db' : Db) (o : Option String)
    → keep_answer key hash now db o ≡ inr db'
    → (rows_of (inr db') ≡ db.rows) × (db'.version ≡ db.version)
unfolding keep_answer rows_of is_right
keep_answer-same key hash now db db' none h = absurd (false≢true (ap is_right h))
keep_answer-same key hash now db db' (some text) h = (sym (ap rows_of h), sym (ap version_in h))
  where
    version_in : StoreFault ⊎ Db → ℕ
    version_in (inl f) = db.version
    version_in (inr d) = d.version

pub remember_kept :
    (key hash : String) (now : Instant) (ch : Change) (db : Db)
    → str_eq key "" ≡ false
    → remember key hash now ch db
      ≡ keep_answer key hash now db (db.jsonb (response_of ch db.version))
unfolding remember
remember_kept key hash now ch db k = rw k refl

pub remember-same :
    (key hash : String) (now : Instant) (ch : Change) (db db' : Db)
    → remember key hash now ch db ≡ inr db'
    → (db'.rows ≡ db.rows) × (db'.version ≡ db.version)
unfolding rows_of
remember-same key hash now ch db db' h = elim (Bool-cases (str_eq key "")) [
  | inl k ↦ go k
  | inr k ↦ keep_answer-same key hash now db db' (db.jsonb (response_of ch db.version)) (other k)
]
  where
    same : str_eq key "" ≡ true → remember key hash now ch db ≡ inr db
    same k = unfold remember in rw k refl

    version_in : StoreFault ⊎ Db → ℕ
    version_in (inl f) = db.version
    version_in (inr d) = d.version

    go : str_eq key "" ≡ true → (db'.rows ≡ db.rows) × (db'.version ≡ db.version)
    go k = let e = sym h ∙ same k in (ap rows_of e, ap version_in e)

    other :
        str_eq key "" ≡ false
        → keep_answer key hash now db (db.jsonb (response_of ch db.version)) ≡ inr db'
    other k = sym (remember_kept key hash now ch db k) ∙ h

-- What an answer with a version leaves, if it is given again and if it is new.
abbrev pub Kept : Db → ℕ → Db → Bool → Type 0
Kept db v db' true = db' ≡ db
Kept db v db' false = IsTable 0 db'.rows × (db'.version ≡ suc db.version) × (v ≡ db'.version)

module _ (E : Type 0) where
  -- What an edit may leave: a schedule one version on, which is the version it answers with, or what was there.
  abbrev pub Leaves : Db → Outcome E ApplyResult × Db → Type 0
  Leaves db (gives r, db') = Kept db r.version db' r.replayed
  Leaves db (fails f, db') = db' ≡ db
  Leaves db (stopped e, db') = db' ≡ db

  commit-Leaves :
      (db db' : Db) (r : StoreFault ⊎ Db)
      → Raised db db'
      → ((d : Db) → r ≡ inr d → (d.rows ≡ db'.rows) × (d.version ≡ db'.version))
      → Leaves db (commit db r)
  unfolding commit
  commit-Leaves db db' (inl f) h k = refl
  commit-Leaves db db' (inr d) (t, v) k =
      let (rows, version) = k d refl in (subst (IsTable 0) (sym rows) t, version ∙ v, refl)

  finish_edit-Leaves :
      (key hash : String) (now : Instant) (ch : Change) (db : Db) (r : StoreFault ⊎ Db)
      → Of (Raised db) r
      → Leaves db (finish_edit key hash now ch db r)
  unfolding finish_edit
  finish_edit-Leaves key hash now ch db (inl f) h = refl
  finish_edit-Leaves key hash now ch db (inr db') h =
      commit-Leaves db db' (remember key hash now ch db') h (remember-same key hash now ch db')

  decide_edit-Leaves :
      (key hash : String) (now : Instant) (db : Db) (c : Change ⊎ E)
      → IsTable 0 db.rows
      → Leaves db (decide_edit key hash now db c)
  unfolding decide_edit
  decide_edit-Leaves key hash now db (inr e) t = refl
  decide_edit-Leaves key hash now db (inl ch) t =
      finish_edit-Leaves key hash now ch db _ (replace_in_tx-Raised ch db t)

  answered_edit-Leaves :
      (hash : String) (o : Option Stored) (db : Db) (new : Outcome E ApplyResult × Db)
      → Leaves db new
      → Leaves db (answered_edit hash o db new)
  unfolding answered_edit
  answered_edit-Leaves hash none db new h = h
  answered_edit-Leaves hash (some a) db new h = elim (Bool-cases (str_eq a.body_hash hash)) [
    | inl s ↦ rw s refl
    | inr s ↦ rw s refl
  ]

  fresh_edit-Leaves :
      (if_match : Option ℕ) (key hash : String) (now : Instant) (decide : Reader → Change ⊎ E)
      (db : Db)
      → IsTable 0 db.rows
      → Leaves db (fresh_edit if_match key hash now decide db)
  unfolding fresh_edit
  fresh_edit-Leaves if_match key hash now decide db t =
      elim (Bool-cases (mismatch if_match db.version)) [
        | inl m ↦ rw m refl
        | inr m ↦ rw m (decide_edit-Leaves key hash now db (decide (reader db)) t)
      ]

  -- For a channel whose rows stand in the order of their starts, no two at one start, an edit that ends with an
  -- error of the database or of the function that decides, or with the answer of an earlier request, leaves the
  -- database as it is; one that gives a new answer leaves rows in that order and a version one higher, which is
  -- the version in the answer.
  pub edit_schedule-Leaves :
      (if_match : Option ℕ) (key hash : String) (now : Instant) (decide : Reader → Change ⊎ E)
      (db : Db)
      → IsTable 0 db.rows
      → Leaves db (edit_schedule if_match key hash now decide db)
  unfolding edit_schedule
  edit_schedule-Leaves if_match key hash now decide db t =
      answered_edit-Leaves hash (known_answer key db) db _
        (fresh_edit-Leaves if_match key hash now decide db t)

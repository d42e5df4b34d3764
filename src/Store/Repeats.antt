-- ===== src/Store/Repeats.antt =====
-- Requests that are repeated: the answer of the first is given again, and nothing changes.
use fast_tv_playout_core.Base.{
  ℕ, ◌-◌, ◌≡◌, refl, sym, ap, subst, ◌∙◌, Bool, true, false, not, Bool-cases, inl, inr, ◌⊎◌, Option,
  none, some, List, [], if◌then◌else◌, arith, le→ltb, String, str_eq, eq_iff,
}
use mathlib.Core.Bool.{false≢true}
use fast_tv_playout_core.Clock.{Instant}
use fast_tv_playout_core.Store.Edits.{is_right, remember_kept, remember-same}
use fast_tv_playout_core.Schedule.{Entry}
use fast_tv_playout_core.Store.{
  Db, Stored, Change, Reader, ApplyResult, Outcome, gives, fails, stopped, StoreFault,
  idempotency_conflict, version_mismatch, edit_schedule, answered_edit, fresh_edit, decide_edit,
  finish_edit, remember, keep_answer, response_of, commit, replaced, find_answer, delete_old, day,
  known_answer, replace_in_tx, mismatch, reader,
}

module _ {E : Type 0} where
  -- A key that is known answers the request, whatever else it asks for.
  edit_schedule_known :
      (if_match : Option ℕ) (key hash : String) (now : Instant) (decide : Reader → Change ⊎ E)
      (db : Db) (a : Stored)
      → str_eq key "" ≡ false
      → find_answer key db.answers ≡ some a
      → edit_schedule if_match key hash now decide db ≡ (
          if not (str_eq a.body_hash hash)
          then (fails idempotency_conflict, db)
          else (gives (record { version = a.version; replayed = true; response = a.response }), db))
  unfolding edit_schedule answered_edit
  edit_schedule_known if_match key hash now decide db a k f =
      ap (λ o. answered_edit hash o db (fresh_edit if_match key hash now decide db)) (known k f)
    where
      known :
          str_eq key "" ≡ false → find_answer key db.answers ≡ some a → known_answer key db ≡ some a
      known k f = rw k f

-- A key that is new leaves the answer that it was given, as jsonb gives it.
abbrev Remembers : String → String → ℕ → Change → Db → Db → Type 0
Remembers key hash now ch db db' =
    (text : String) × (db.jsonb (response_of ch db.version) ≡ some text)
    × (find_answer key db'.answers
        ≡ some (record {
          key = key;
          body_hash = hash;
          version = db.version;
          response = text;
          created_at = now;
        }))

keep_answer-Remembers :
    (key hash : String) (now : ℕ) (ch : Change) (db db' : Db) (o : Option String)
    → db.jsonb (response_of ch db.version) ≡ o
    → keep_answer key hash now db o ≡ inr db'
    → Remembers key hash now ch db db'
keep_answer-Remembers key hash now ch db db' none j h =
    absurd (false≢true (unfold keep_answer is_right in ap is_right h))
keep_answer-Remembers key hash now ch db db' (some text) j h = (text, j, sym (found h) ∙ first)
  where
    answers_in : StoreFault ⊎ Db → List Stored
    answers_in (inl f) = []
    answers_in (inr d) = d.answers

    found :
        keep_answer key hash now db (some text) ≡ inr db'
        → find_answer key (answers_in (keep_answer key hash now db (some text)))
          ≡ find_answer key db'.answers
    found h = ap (λ r. find_answer key (answers_in r)) h

    first :
        find_answer key (answers_in (keep_answer key hash now db (some text)))
        ≡ some (record {
          key = key;
          body_hash = hash;
          version = db.version;
          response = text;
          created_at = now;
        })
    first =
        unfold keep_answer delete_old find_answer in
        rw (le→ltb now (now - day) (omega arith), (eq_iff key key).1 refl) refl

remember-Remembers :
    (key hash : String) (now : ℕ) (ch : Change) (db db' : Db)
    → str_eq key "" ≡ false
    → remember key hash now ch db ≡ inr db'
    → Remembers key hash now ch db db'
remember-Remembers key hash now ch db db' k h =
    keep_answer-Remembers key hash now ch db db' (db.jsonb (response_of ch db.version)) refl
      (sym (remember_kept key hash now ch db k) ∙ h)

module _ {E : Type 0} where
  abbrev pub is_new : Outcome E ApplyResult → Bool
  is_new (gives r) = not r.replayed
  is_new (fails f) = false
  is_new (stopped e) = false

  abbrev pub version_of : Outcome E ApplyResult → ℕ
  version_of (gives r) = r.version
  version_of (fails f) = 0
  version_of (stopped e) = 0

  -- What a change leaves that was made and kept.
  abbrev pub Completes :
      String → String → Instant → Change → Db → Outcome E ApplyResult × Db → Type 0
  Completes key hash now ch db p =
      (db' : Db) × (replace_in_tx ch db ≡ inr db')
      × ((d : Db) × (remember key hash now ch db' ≡ inr d)
          × (p ≡ (gives (record { version = d.version; replayed = false; response = "" }), d)))

  commit_done :
      (db : Db) (r : StoreFault ⊎ Db)
      → is_new (commit {E = E} db r).0 ≡ true
      → (d : Db) × (r ≡ inr d)
        × (commit {E = E} db r
            ≡ (gives (record { version = d.version; replayed = false; response = "" }), d))
  unfolding commit
  commit_done db (inl f) h = absurd (false≢true h)
  commit_done db (inr d) h = (d, refl, refl)

  finish_edit_done :
      (key hash : String) (now : Instant) (ch : Change) (db : Db) (r : StoreFault ⊎ Db)
      → replace_in_tx ch db ≡ r
      → is_new (finish_edit {E = E} key hash now ch db r).0 ≡ true
      → Completes key hash now ch db (finish_edit {E = E} key hash now ch db r)
  unfolding finish_edit
  finish_edit_done key hash now ch db (inl f) e h = absurd (false≢true h)
  finish_edit_done key hash now ch db (inr db') e h =
      (db', e, commit_done db (remember key hash now ch db') h)

  answered_edit_done :
      (hash : String) (o : Option Stored) (db : Db) (new : Outcome E ApplyResult × Db)
      → is_new (answered_edit hash o db new).0 ≡ true
      → (o ≡ none) × (answered_edit hash o db new ≡ new)
  unfolding answered_edit
  answered_edit_done hash none db new h = (refl, refl)
  answered_edit_done hash (some a) db new h = absurd (ground (arith, h))

  fresh_edit_matched :
      (if_match : Option ℕ) (key hash : String) (now : Instant) (decide : Reader → Change ⊎ E)
      (db : Db)
      → mismatch if_match db.version ≡ false
      → fresh_edit if_match key hash now decide db
        ≡ decide_edit key hash now db (decide (reader db))
  unfolding fresh_edit
  fresh_edit_matched if_match key hash now decide db m = rw m refl

  fresh_edit_mismatched :
      (if_match : Option ℕ) (key hash : String) (now : Instant) (decide : Reader → Change ⊎ E)
      (db : Db)
      → mismatch if_match db.version ≡ true
      → fresh_edit if_match key hash now decide db ≡ (fails (version_mismatch db.version), db)
  unfolding fresh_edit
  fresh_edit_mismatched if_match key hash now decide db m = rw m refl

  fresh_edit_done :
      (if_match : Option ℕ) (key hash : String) (now : Instant) (decide : Reader → Change ⊎ E)
      (db : Db) (ch : Change)
      → decide (reader db) ≡ inl ch
      → is_new (fresh_edit if_match key hash now decide db).0 ≡ true
      → (mismatch if_match db.version ≡ false)
        × (fresh_edit if_match key hash now decide db
            ≡ finish_edit key hash now ch db (replace_in_tx ch db))
  unfolding decide_edit
  fresh_edit_done if_match key hash now decide db ch d h =
      elim (Bool-cases (mismatch if_match db.version)) [
        | inl m ↦ absurd (
            false≢true (
              ap (λ p. is_new p.0) (sym (fresh_edit_mismatched if_match key hash now decide db m))
              ∙ h))
        | inr m ↦ (
          m,
          fresh_edit_matched if_match key hash now decide db m ∙ ap (decide_edit key hash now db) d,
        )
      ]

  -- An edit that changed the schedule: its version fitted, and this is what it left.
  pub edit_schedule_done :
      (if_match : Option ℕ) (key hash : String) (now : Instant) (decide : Reader → Change ⊎ E)
      (db : Db) (ch : Change)
      → decide (reader db) ≡ inl ch
      → is_new (edit_schedule if_match key hash now decide db).0 ≡ true
      → (mismatch if_match db.version ≡ false)
        × Completes key hash now ch db (edit_schedule if_match key hash now decide db)
  unfolding edit_schedule
  edit_schedule_done if_match key hash now decide db ch d h =
      let (_, first) =
        answered_edit_done hash (known_answer key db) db
          (fresh_edit if_match key hash now decide db) h in
      let (m, second) =
        fresh_edit_done if_match key hash now decide db ch d
          (ap (λ p. is_new p.0) (sym first) ∙ h) in
      let third =
        finish_edit_done key hash now ch db (replace_in_tx ch db) refl
          (ap (λ p. is_new p.0) (sym (first ∙ second)) ∙ h) in
      (m, subst (λ p. Completes key hash now ch db p) (sym (first ∙ second)) third)

  decide_edit_made :
      (key hash : String) (now : Instant) (db : Db) (made : Change ⊎ E)
      → is_new (decide_edit key hash now db made).0 ≡ true
      → (ch : Change) × (made ≡ inl ch)
  unfolding decide_edit
  decide_edit_made key hash now db (inl ch) h = (ch, refl)
  decide_edit_made key hash now db (inr e) h = absurd (false≢true h)

  -- An edit that changed the schedule was decided upon.
  pub edit_schedule_made :
      (if_match : Option ℕ) (key hash : String) (now : Instant) (decide : Reader → Change ⊎ E)
      (db : Db)
      → is_new (edit_schedule if_match key hash now decide db).0 ≡ true
      → (ch : Change) × (decide (reader db) ≡ inl ch)
  unfolding edit_schedule
  edit_schedule_made if_match key hash now decide db h =
      let (_, first) =
        answered_edit_done hash (known_answer key db) db
          (fresh_edit if_match key hash now decide db) h in
      let new : is_new (fresh_edit if_match key hash now decide db).0 ≡ true =
        ap (λ p. is_new p.0) (sym first) ∙ h in
      elim (Bool-cases (mismatch if_match db.version)) [
        | inl m ↦ absurd (
            false≢true (
              ap (λ p. is_new p.0) (sym (fresh_edit_mismatched if_match key hash now decide db m))
              ∙ new))
        | inr m ↦ decide_edit_made key hash now db (decide (reader db)) (
            ap (λ p. is_new p.0) (sym (fresh_edit_matched if_match key hash now decide db m)) ∙ new)
      ]

replaced-jsonb :
    (db db' : Db) (r : StoreFault ⊎ List Entry) → replaced db r ≡ inr db' → db'.jsonb ≡ db.jsonb
unfolding replaced is_right
replaced-jsonb db db' (inl f) h = absurd (false≢true (ap is_right h))
replaced-jsonb db db' (inr rows) h = sym (ap jsonb_in h)
  where
    jsonb_in : StoreFault ⊎ Db → String → Option String
    jsonb_in (inl f) = db.jsonb
    jsonb_in (inr d) = d.jsonb

replace_in_tx-jsonb :
    (ch : Change) (db db' : Db) → replace_in_tx ch db ≡ inr db' → db'.jsonb ≡ db.jsonb
unfolding replace_in_tx
replace_in_tx-jsonb ch db db' h = replaced-jsonb db db' _ h

swapped {ℓ} : {A : Type ℓ} (b : Bool) (x y : A) → (if not b then x else y) ≡ (if b then y else x)
swapped true x y = refl
swapped false x y = refl

module _ {E : Type 0} where
  -- After an edit with a key that is not empty has changed the schedule, another edit with that key changes
  -- nothing, whatever version it asks for and whatever it would decide: with the same hash of the request it
  -- gives the version of the first edit and its answer as the column of type jsonb gives the stored text back,
  -- with another hash the error for a key that was used.
  pub edit_schedule_repeats :
      {F : Type 0} (if_match if_match' : Option ℕ) (key hash hash' : String) (now now' : Instant)
      (decide : Reader → Change ⊎ E) (decide' : Reader → Change ⊎ F) (db : Db) (ch : Change)
      → str_eq key "" ≡ false
      → decide (reader db) ≡ inl ch
      → is_new (edit_schedule if_match key hash now decide db).0 ≡ true
      → let (answer, db') = edit_schedule if_match key hash now decide db in
        (text : String) × (db.jsonb (response_of ch (version_of answer)) ≡ some text)
        × (edit_schedule if_match' key hash' now' decide' db' ≡ (
            if str_eq hash hash'
            then (
              gives (record { version = version_of answer; replayed = true; response = text }),
              db',
            )
            else (fails idempotency_conflict, db')))
  edit_schedule_repeats {F} if_match if_match' key hash hash' now now' decide decide' db ch k d h =
      let (m, (db', e, (kept, r, done))) =
        edit_schedule_done if_match key hash now decide db ch d h in
      subst (λ (p : Outcome E ApplyResult × Db). Again p) (sym done)
        (again db' kept e r (remember-Remembers key hash now ch db' kept k r))
    where
      Again : Outcome E ApplyResult × Db → Type 0
      Again p =
          (text : String) × (db.jsonb (response_of ch (version_of p.0)) ≡ some text)
          × (edit_schedule if_match' key hash' now' decide' p.1 ≡ (
              if str_eq hash hash'
              then (
                gives (record { version = version_of p.0; replayed = true; response = text }),
                p.1,
              )
              else (fails idempotency_conflict, p.1)))

      again :
          (db' kept : Db)
          → replace_in_tx ch db ≡ inr db'
          → remember key hash now ch db' ≡ inr kept
          → Remembers key hash now ch db' kept
          → Again (gives (record { version = kept.version; replayed = false; response = "" }), kept)
      again db' kept e r w =
          let (text, j, f) = w in
          let same = (remember-same key hash now ch db' kept r).1 in
          let stored : Stored = record {
            key = key;
            body_hash = hash;
            version = kept.version;
            response = text;
            created_at = now;
          } in
          (
            text,
            ap (λ v. db.jsonb (response_of ch v)) same
                ∙ ap (λ g. g (response_of ch db'.version)) (sym (replace_in_tx-jsonb ch db db' e))
                ∙ j,
            edit_schedule_known if_match' key hash' now' decide' kept stored k
                  (f ∙ ap (λ v. some (record stored { version = v })) (sym same))
                ∙ swapped (str_eq hash hash') _ _,
          )

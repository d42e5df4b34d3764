-- ===== src/Store.antt =====
-- pkg/storage: the schedule of one channel in the database, and EditSchedule as one transaction on it. The SQL statements
-- are read as operations on the rows; a failing connection is left out.
pub mod Edits
pub mod Repeats
mod Tests
use fast_tv_playout_core.Base.{
  ℕ, suc, ◌+◌, ◌-◌, ◌*◌, ◌^◌, ◌≤◌, Bool, true, false, not, ◌&&◌, ◌||◌, ◌==◌, Option, none, some,
  List, [], ◌∷◌, ltb, leb, if◌then◌else◌, String, str_eq, ℤ, pos, negsuc, pos_part, neg_part, ltb_ℤ,
  insert_by, ◌⊎◌, inl, inr,
}
use fast_tv_playout_core.Clock.{Instant, second, before}
use fast_tv_playout_core.Schedule.{Entry}

-- A row of asset, as far as a schedule uses it.
pub record Asset : Type 0 where
  pub uri : String
  pub duration_s : ℤ

-- A row of idempotency.
pub record Stored : Type 0 where
  pub key : String
  pub body_hash : String
  pub version : ℕ
  pub response : String
  pub created_at : Instant

-- The rows that concern a channel; those of timeline_entry stand in the order of start_at. What PostgreSQL makes of a
-- text in a column of type jsonb is a parameter: the text that is read back, none where it is no JSON.
pub record Db : Type 0 where
  pub version : ℕ
  pub rows : List Entry
  pub assets : List (String × Asset)
  pub answers : List Stored
  pub jsonb : String → Option String

pub data StoreFault : Type 0 where
  not_found conflict unknown_reference idempotency_conflict bad_row bad_json : StoreFault
  version_mismatch : ℕ → StoreFault

-- What an edit gives; `stopped` is an error of the function that decides.
pub data Outcome (E A : Type 0) : Type 0 where
  gives : A → Outcome E A
  fails : StoreFault → Outcome E A
  stopped : E → Outcome E A

pub find_asset : String → List (String × Asset) → Option Asset
find_asset id [] = none
find_asset id ((k, a) ∷ assets) = if str_eq id k then some a else find_asset id assets

-- start_at + make_interval(secs => duration_s)
abbrev pub row_end : Entry → Instant
row_end e = e.start + pos_part e.duration_s * second - neg_part e.duration_s * second

-- COALESCE(NULLIF(t.uri,''), a.uri, '')
unfoldable pub with_uri : List (String × Asset) → Entry → Entry
with_uri assets e =
    if not (str_eq e.uri "")
    then e
    else elim (find_asset e.asset_id assets) [ none ↦ e | some a ↦ record e { uri = a.uri } ]

-- queryRange
pub query_range : List (String × Asset) → Instant → Instant → List Entry → List Entry
unfolding with_uri
query_range assets from to [] = []
query_range assets from to (e ∷ rows) =
    let rest = query_range assets from to rows in
    if before e.start to && before from (row_end e) then with_uri assets e ∷ rest else rest

-- Horizon: the end of the last entry, or the first second of 1970.
pub horizon : Instant → List Entry → Instant
horizon end [] = end
horizon end (e ∷ rows) = horizon (if ltb end (row_end e) then row_end e else end) rows

abbrev pub epoch : Instant
epoch = 62135596800 * second

pub last_row_end : List Entry → Instant
unfolding horizon
last_row_end [] = epoch
last_row_end (e ∷ rows) = horizon (row_end e) rows

-- What an edit sees of the schedule.
pub record Reader : Type 0 where
  pub range : Instant → Instant → List Entry
  pub horizon : Instant
  pub version : ℕ

pub record Change : Type 0 where
  pub from : Instant
  pub to : Instant
  pub entries : List Entry
  pub response : Option (ℕ → String)

pub record ApplyResult : Type 0 where
  pub version : ℕ
  pub replayed : Bool
  pub response : String

-- DELETE ... WHERE start_at >= from AND start_at < to
pub delete_range : Instant → Instant → List Entry → List Entry
delete_range from to [] = []
delete_range from to (e ∷ rows) =
    let rest = delete_range from to rows in
    if leb from e.start && ltb e.start to then rest else e ∷ rest

pub has_start : Instant → List Entry → Bool
has_start t [] = false
has_start t (e ∷ rows) = e.start == t || has_start t rows

abbrev pub starts_first : Entry → Entry → Bool
starts_first a b = before a.start b.start

abbrev pub fits_int4 : ℤ → Bool
fits_int4 n = ltb_ℤ n (pos (2 ^ 31)) && ltb_ℤ (negsuc (2 ^ 31)) n

-- One INSERT: the checks of the table, its foreign key and its primary key.
unfoldable pub row_fault : List (String × Asset) → List Entry → Entry → Option StoreFault
row_fault assets rows e =
    if not (
      str_eq e.type "content"
      || str_eq e.type "ad_break"
      || str_eq e.type "bumper"
      || str_eq e.type "slate")
    then some bad_row
    else if not (fits_int4 e.duration_s && fits_int4 e.offset_s)
    then some bad_row
    else if has_start e.start rows
    then some conflict
    else if str_eq e.asset_id ""
    then none
    else elim (find_asset e.asset_id assets) [ none ↦ some unknown_reference | some a ↦ none ]

-- The next row, or the error at this one.
pub next_row : Option StoreFault → StoreFault ⊎ List Entry → StoreFault ⊎ List Entry
next_row none rest = rest
next_row (some f) rest = inl f

pub insert_rows : List (String × Asset) → List Entry → List Entry → StoreFault ⊎ List Entry
unfolding next_row
insert_rows assets [] rows = inr rows
insert_rows assets (e ∷ entries) rows =
    next_row (row_fault assets rows e) (insert_rows assets entries (insert_by starts_first e rows))

pub replaced : Db → StoreFault ⊎ List Entry → StoreFault ⊎ Db
replaced db (inl f) = inl f
replaced db (inr rows) = inr (record db { rows = rows; version = suc db.version })

-- replaceInTx: the rows of the range are replaced and the version is raised.
unfoldable pub replace_in_tx : Change → Db → StoreFault ⊎ Db
unfolding insert_rows delete_range replaced
replace_in_tx ch db =
    replaced db (insert_rows db.assets ch.entries (delete_range ch.from ch.to db.rows))

pub find_answer : String → List Stored → Option Stored
find_answer key [] = none
find_answer key (a ∷ answers) = if str_eq key a.key then some a else find_answer key answers

abbrev pub day : ℕ
day = 24 * 3600 * second

-- DELETE FROM idempotency WHERE created_at < now() - interval '24 hours'
pub delete_old : Instant → List Stored → List Stored
delete_old now [] = []
delete_old now (a ∷ answers) =
    let rest = delete_old now answers in if before a.created_at (now - day) then rest else a ∷ rest

-- The answer to a change, as text.
abbrev pub response_of : Change → ℕ → String
response_of ch v = elim ch.response [ none ↦ "{}" | some r ↦ r v ]

-- INSERT INTO idempotency, with the text that jsonb gives, and the removal of old answers.
pub keep_answer : String → String → Instant → Db → Option String → StoreFault ⊎ Db
unfolding delete_old
keep_answer key hash now db none = inl bad_json
keep_answer key hash now db (some text) =
    let kept : Stored = record {
      key = key;
      body_hash = hash;
      version = db.version;
      response = text;
      created_at = now;
    } in
    inr (record db { answers = delete_old now (kept ∷ db.answers) })

-- The answer of a change is kept under its key.
unfoldable pub remember : String → String → Instant → Change → Db → StoreFault ⊎ Db
unfolding keep_answer
remember key hash now ch db =
    if str_eq key ""
    then inr db
    else keep_answer key hash now db (db.jsonb (response_of ch db.version))

pub reader : Db → Reader
unfolding query_range last_row_end
reader db = record {
  range = λ from to. query_range db.assets from to db.rows;
  horizon = last_row_end db.rows;
  version = db.version;
}

abbrev pub mismatch : Option ℕ → ℕ → Bool
mismatch none v = false
mismatch (some w) v = not (w == v)

abbrev pub known_answer : String → Db → Option Stored
known_answer key db = if str_eq key "" then none else find_answer key db.answers

module _ {E : Type 0} where
  -- The end of the transaction: an error rolls it back.
  pub commit : Db → StoreFault ⊎ Db → Outcome E ApplyResult × Db
  commit db (inl f) = (fails f, db)
  commit db (inr db') =
      (gives (record { version = db'.version; replayed = false; response = "" }), db')

  pub finish_edit :
      String → String → Instant → Change → Db → StoreFault ⊎ Db → Outcome E ApplyResult × Db
  unfolding commit
  finish_edit key hash now ch db (inl f) = (fails f, db)
  finish_edit key hash now ch db (inr db') = commit db (remember key hash now ch db')

  pub decide_edit : String → String → Instant → Db → Change ⊎ E → Outcome E ApplyResult × Db
  unfolding finish_edit
  decide_edit key hash now db (inr e) = (stopped e, db)
  decide_edit key hash now db (inl ch) = finish_edit key hash now ch db (replace_in_tx ch db)

  pub fresh_edit :
      Option ℕ → String → String → Instant → (Reader → Change ⊎ E) → Db → Outcome E ApplyResult × Db
  unfolding decide_edit reader
  fresh_edit if_match key hash now decide db =
      if mismatch if_match db.version
      then (fails (version_mismatch db.version), db)
      else decide_edit key hash now db (decide (reader db))

  -- A key that is known is answered as before, or refused where the request is another one.
  pub answered_edit :
      String → Option Stored → Db → Outcome E ApplyResult × Db → Outcome E ApplyResult × Db
  answered_edit hash none db new = new
  answered_edit hash (some a) db new =
      if not (str_eq a.body_hash hash)
      then (fails idempotency_conflict, db)
      else (gives (record { version = a.version; replayed = true; response = a.response }), db)

  unfoldable pub edit_schedule :
      Option ℕ → String → String → Instant → (Reader → Change ⊎ E) → Db → Outcome E ApplyResult × Db
  unfolding answered_edit fresh_edit
  edit_schedule if_match key hash now decide db =
      answered_edit hash (known_answer key db) db (fresh_edit if_match key hash now decide db)

  -- ApplySchedule
  unfoldable pub apply_schedule :
      Option ℕ → String → String → Instant → Change → Db → Outcome E ApplyResult × Db
  apply_schedule if_match key hash now ch db = edit_schedule if_match key hash now (λ r. inl ch) db

-- The transaction on the row of the channel, if there is one.
unfoldable pub edit_channel :
    {E : Type 0}
    → Option ℕ
    → String
    → String
    → Instant
    → (Reader → Change ⊎ E)
    → Option Db
    → Outcome E ApplyResult × Option Db
edit_channel if_match key hash now decide none = (fails not_found, none)
edit_channel if_match key hash now decide (some db) =
    let r = edit_schedule if_match key hash now decide db in (r.0, some r.1)

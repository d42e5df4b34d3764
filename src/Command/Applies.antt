-- ===== src/Command/Applies.antt =====
-- What runCommand of services/control-api/commands.go leaves, over EditSchedule of pkg/storage.
use mathlib.Core.Bool.{true≢false}
use fast_tv_playout_core.Base.{
  ℕ, suc, ◌%◌, ◌≤◌, ◌≡◌, refl, sym, ap, subst, ◌∙◌, Bool, true, false, not, ◌&&◌, ◌||◌, Bool-cases,
  inl, inr, ◌⊎◌, Option, none, some, List, if◌then◌else◌, ltb, arith, String, str_eq, length,
}
use fast_tv_playout_core.Clock.{Instant, second, has_fraction, before}
use fast_tv_playout_core.Schedule.{Entry, Edit, Result, ok, err}
use fast_tv_playout_core.Schedule.Check.{check_entries, max_entries}
use fast_tv_playout_core.Schedule.Insert.{insert_shift, break_airs}
use fast_tv_playout_core.Schedule.Skip.{skip}
use fast_tv_playout_core.Store.{
  Db, Change, Reader, ApplyResult, Outcome, gives, fails, stopped, edit_schedule, reader,
}
use fast_tv_playout_core.Store.Edits.{
  IsTable, Leaves, edit_schedule-Leaves, Kept, Replaces, is_right, replace_in_tx-Replaces,
  remember-same,
}
use fast_tv_playout_core.Store.Repeats.{is_new, edit_schedule_done, edit_schedule_made}
use fast_tv_playout_core.Command.{
  Server, Asked, Misuse, CommandResult, earliest, given_moment, moment, checked, to_change,
  upcoming, decide, left, out_of, answer, too_long, no_break, run_with, run_at, run_command,
  known_type, unknown_type,
}

earliest_whole : (s : Server) → earliest s % second ≡ 0
unfolding earliest
earliest_whole s = ground arith

-- A moment at which a command may take effect.
abbrev pub Timely : Server → Instant → Type 0
Timely s at = (earliest s ≤ at) × (at % second ≡ 0)

abbrev Right : {A B : Type 0} → (B → Type 0) → A ⊎ B → Type 0
Right P (inl a) = Unit
Right P (inr b) = P b

given_moment-Right :
    (s : Server) (o : Option Instant) → Right (Timely s) (given_moment (earliest s) o)
unfolding given_moment
given_moment-Right s none = tt
given_moment-Right s (some t) = elim (Bool-cases (has_fraction t)) [
  | inl f ↦ rw f tt
  | inr f ↦ elim (Bool-cases (before t (earliest s))) [
    | inl b ↦ rw (f, b) tt
    | inr b ↦ rw (f, b) (ground (arith, b), ground (arith, f))
  ]
]

moment-Right : (s : Server) (c : Asked) → Right (Timely s) (moment s c)
unfolding moment
moment-Right s c = elim (Bool-cases (str_eq c.at "" || str_eq c.at "now")) [
  | inl b ↦ rw b (omega arith, earliest_whole s)
  | inr b ↦ rw b (given_moment-Right s (s.parse_time c.at))
]

-- A change whose entries pass CheckEntries.
abbrev pub Passes : Change → Type 0
Passes ch = (out : List Entry) × (check_entries ch.entries ch.from ch.to ≡ ok out)

abbrev Left : {A B : Type 0} → (A → Type 0) → A ⊎ B → Type 0
Left P (inl a) = P a
Left P (inr b) = Unit

checked-Left :
    (s : Server) (c : Asked) (at : Instant) (ed : Edit) (r : Result (List Entry))
    → check_entries ed.entries ed.from ed.to ≡ r
    → Left Passes (checked s c at ed r)
unfolding checked
checked-Left s c at ed (err f) h = tt
checked-Left s c at ed (ok out) h = (out, h)

to_change-Left :
    (s : Server) (c : Asked) (at : Instant) (r : Result Edit) → Left Passes (to_change s c at r)
unfolding to_change
to_change-Left s c at (err f) = tt
to_change-Left s c at (ok ed) = checked-Left s c at ed _ refl

unless-Left :
    (b : Bool) (m : Misuse) (y : Change ⊎ Misuse)
    → Left Passes y
    → Left Passes (if b then inr m else y)
unless-Left true m y l = tt
unless-Left false m y l = l

if-Left :
    (b : Bool) (x y : Change ⊎ Misuse)
    → Left Passes x
    → Left Passes y
    → Left Passes (if b then x else y)
if-Left true x y l r = l
if-Left false x y l r = r

decide-Left :
    (s : Server) (c : Asked) (at : Instant) (ins : Entry) (rd : Reader)
    → Left Passes (decide s c at ins rd)
unfolding decide
decide-Left s c at ins rd =
    let existing = upcoming at rd in
    unless-Left (ltb max_entries (length existing)) too_long _ (
      if-Left (str_eq c.type "skip") _ _
        (unless-Left (c.only_break && not (break_airs at existing)) no_break _
          (to_change-Left s c at (skip existing at)))
        (to_change-Left s c at (insert_shift existing at ins)))

-- What is left by a command that has changed the schedule.
abbrev pub Changed : Server → Db → CommandResult → Db → Type 0
Changed s db r db' =
    Timely s r.effective_at
    × (db'.version ≡ suc db.version)
    × (r.version ≡ db'.version)
    × IsTable 0 db'.rows
    × ((ch : Change) × (length ch.entries ≡ r.entries) × Passes ch × Replaces ch db db'.rows)

abbrev pub ChangedUnless : Server → Db → CommandResult → Db → Bool → Type 0
ChangedUnless s db r db' true = db' ≡ db
ChangedUnless s db r db' false = Changed s db r db'

abbrev pub Applies : Server → Db → Outcome Misuse CommandResult × Db → Type 0
Applies s db (gives r, db') = ChangedUnless s db r db' r.replayed
Applies s db (fails f, db') = db' ≡ db
Applies s db (stopped m, db') = db' ≡ db

-- A new answer comes from a change, which has been made.
abbrev Made : Db → Change ⊎ Misuse → Db → Bool → Type 0
Made db made db' b =
    b ≡ true → (ch : Change) × (made ≡ inl ch) × Passes ch × Replaces ch db db'.rows

changed :
    (s : Server) (c : Asked) (db db' : Db) (at : Instant) (made : Change ⊎ Misuse) (v : ℕ)
    (stored : String) (b b' : Bool)
    → Timely s at
    → Kept db v db' b
    → Made db made db' (not b)
    → ChangedUnless s db
        (record (out_of c at made b) { version = v; replayed = b'; stored = stored })
        db'
        b
unfolding out_of left is_right
changed s c db db' at made v stored true b' t k m = k
changed s c db db' at (inl ch) v stored false b' t (rows, one, two) m =
    let (ch', same, passes, rep) = m refl in
    (t, one, two, rows, (ch', ap (λ x. (left c at x).entries) (sym same), passes, rep))
changed s c db db' at (inr f) v stored false b' t k m =
    let (ch, made, _, _) = m refl in absurd (true≢false (ap is_right made))

answer-Applies :
    (s : Server) (c : Asked) (db : Db) (at : Instant) (made : Change ⊎ Misuse)
    (p : Outcome Misuse ApplyResult × Db)
    → Timely s at
    → Leaves Misuse db p
    → Made db made p.1 (is_new p.0)
    → Applies s db (answer c at made p)
unfolding answer
answer-Applies s c db at made (fails f, db') t l m = l
answer-Applies s c db at made (stopped f, db') t l m = l
answer-Applies s c db at made (gives r, db') t l m =
    changed s c db db' at made r.version r.response r.replayed r.replayed t l m

edit_schedule-Made :
    (s : Server) (c : Asked) (key hash : String) (db : Db) (at : Instant) (ins : Entry)
    → let p = edit_schedule none key hash s.now (decide s c at ins) db in
      Made db (decide s c at ins (reader db)) p.1 (is_new p.0)
edit_schedule-Made s c key hash db at ins new =
    let (ch, made) = edit_schedule_made none key hash s.now (decide s c at ins) db new in
    let (_, (db', done, (kept, r, all))) =
      edit_schedule_done none key hash s.now (decide s c at ins) db ch made new in
    (
      ch,
      made,
      subst (Left Passes) made (decide-Left s c at ins (reader db)),
      subst (Replaces ch db)
          (sym (ap (λ p. p.1.rows) all ∙ (remember-same key hash s.now ch db' kept r).0))
          (replace_in_tx-Replaces ch db db' done),
    )

run_with-Applies :
    (s : Server) (c : Asked) (key hash : String) (db : Db) (at : Instant) (r : Misuse ⊎ Entry)
    → Timely s at
    → IsTable 0 db.rows
    → Applies s db (run_with s c key hash db at r)
unfolding run_with
run_with-Applies s c key hash db at (inl m) t i = refl
run_with-Applies s c key hash db at (inr ins) t i =
    answer-Applies s c db at _ _ t
      (edit_schedule-Leaves Misuse none key hash s.now (decide s c at ins) db i)
      (edit_schedule-Made s c key hash db at ins)

run_at-Applies :
    (s : Server) (c : Asked) (key hash : String) (db : Db) (r : Misuse ⊎ Instant)
    → Right (Timely s) r
    → IsTable 0 db.rows
    → Applies s db (run_at s c key hash db r)
unfolding run_at
run_at-Applies s c key hash db (inl m) t i = refl
run_at-Applies s c key hash db (inr at) t i = run_with-Applies s c key hash db at _ t i

if-Applies :
    (s : Server) (db : Db) (b : Bool) (m : Misuse) (p : Outcome Misuse CommandResult × Db)
    → Applies s db p
    → Applies s db (if b then (stopped m, db) else p)
if-Applies s db true m p h = refl
if-Applies s db false m p h = h

-- For a channel whose rows stand in the order of their starts, no two at one start, runCommand either leaves
-- the database as it is (an error, or the answer to a repeated request), or answers with the raised version of
-- a schedule whose rows are again in that order: the moment of the command is a whole second, not before the
-- earliest one, and the rows are those in which a change, of as many entries as the answer says and that pass
-- CheckEntries with its window, has replaced what started in the window.
pub run_command-Applies :
    (s : Server) (c : Asked) (key hash : String) (db : Db)
    → IsTable 0 db.rows
    → Applies s db (run_command s c key hash db)
unfolding run_command
run_command-Applies s c key hash db i =
    if-Applies s db (not (known_type c.type)) unknown_type _
      (run_at-Applies s c key hash db _ (moment-Right s c) i)

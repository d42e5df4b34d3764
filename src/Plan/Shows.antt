-- ===== src/Plan/Shows.antt =====
-- What a clip of a program shows: the frame that the schedule puts on the air at its moment.
use fast_tv_playout_core.Base.{
  ℕ, ◌+◌, ◌-◌, ◌/◌, ◌%◌, ◌≤◌, ◌<◌, ◌≡◌, refl, ap, sym, ◌∙◌, subst, inl, inr, Bool, true, false,
  ◌||◌, some, List, [], ◌∷◌, arith, pos, String, str_eq, eq_iff, Bool-cases, wrap64_pos, ◌+ℤ◌,
}
use fast_tv_playout_core.Clock.{second, sub_pos}
use fast_tv_playout_core.Model.{TimelineEntry, ClipItem}
use fast_tv_playout_core.Config.{Config}
use fast_tv_playout_core.Pods.{PodSource}
use fast_tv_playout_core.Schedule.{end_of, on_air}
use fast_tv_playout_core.Schedule.Air.{
  Picture, picture, playing, Follows, IsSound, finish, skipped, end_of-finish,
}
use fast_tv_playout_core.Plan.{find_entry, plan_entry, program_clip, finish_clip}

-- The entry that findEntry finds is the one that is on the air.
find_entry-playing :
    (ts lo : ℕ) (es : List TimelineEntry) (p : Picture)
    → Follows lo es
    → playing ts es ≡ some p
    → (e : TimelineEntry) × (find_entry ts es ≡ some e)
      × IsSound e
      × (e.start ≤ ts)
      × (ts < finish e)
      × (p ≡ picture ts e)
unfolding find_entry playing end_of
find_entry-playing ts lo [] p f h = cc
find_entry-playing ts lo (e ∷ es) p f h = elim (Bool-cases (on_air ts e)) [
  | inl b ↦ (e, ground arith, f.1, ground arith, ground (arith, end_of-finish e f.1), ground arith)
  | inr b ↦
      let (x, found, sound, low, high, shown) =
        find_entry-playing ts (finish e) es p f.2 (ground arith) in
      (x, ground arith, sound, low, high, shown)
]

program_offset :
    (cfg : Config) (ts : ℕ) (e : TimelineEntry)
    → IsSound e
    → ts % second ≡ 0
    → e.start ≤ ts
    → ts < finish e
    → (program_clip cfg ts e).offset_s ≡ pos ((picture ts e).position / second)
unfolding program_clip ◌+ℤ◌
program_offset cfg ts e s w l h = ground (
  arith,
  sub_pos ts e.start,
  s.offset,
  s.short,
  s.near,
  s.whole,
  wrap64_pos ((ts - e.start) / second + skipped e),
)

abbrev pub is_program : String → Bool
is_program t = str_eq t "content" || str_eq t "bumper"

program_not_slate : (t : String) → is_program t ≡ true → str_eq t "slate" ≡ false
program_not_slate t h = elim (Bool-cases (str_eq t "content")) [
  | inl c ↦ rw ((eq_iff t "content").0 c)
  | inr n ↦ rw ((eq_iff t "bumper").0 (ground arith))
]

found_program :
    (cfg : Config) (ts : ℕ) (e : TimelineEntry) (prev : String)
    → is_program e.type ≡ true
    → let f = finish_clip ts prev (program_clip cfg ts e) in
      (f.type ≡ e.type) × (f.uri ≡ e.uri) × (f.offset_s ≡ (program_clip cfg ts e).offset_s)
unfolding finish_clip program_clip
found_program cfg ts e prev t = (refl, refl, ground (arith, program_not_slate e.type t))

-- A content or bumper entry that a schedule of sound entries, one following the other, has on the air at a
-- whole second is planned as it is: the clip has its type and its source, and as its offset the whole second of
-- the source that the schedule has reached; the ad pods are not asked.
pub plan_entry-playing :
    {S : Type 0} (pods : PodSource S) (cfg : Config) (now ts : ℕ) (entries : List TimelineEntry)
    (s : S) (prev : String) (p : Picture)
    → Follows 0 entries
    → ts % second ≡ 0
    → playing ts entries ≡ some p
    → is_program p.type ≡ true
    → (c : ClipItem) × ((plan_entry pods cfg now ts (find_entry ts entries) s) ≡ (some c, s))
      × (let f = finish_clip ts prev c in
          (f.type ≡ p.type) × (f.uri ≡ p.uri) × (f.offset_s ≡ pos (p.position / second)))
unfolding plan_entry
plan_entry-playing pods cfg now ts entries s prev p f w h t =
    let (e, found, sound, low, high, shown) = find_entry-playing ts 0 entries p f h in
    let same : e.type ≡ p.type = ap (λ (q : Picture). q.type) (sym shown) in
    let t' : is_program e.type ≡ true = subst (λ x. is_program x ≡ true) (sym same) t in
    let fields = found_program cfg ts e prev t' in
    (
      program_clip cfg ts e,
      rw (found, t'),
      (
        fields.0 ∙ same,
        fields.1 ∙ ap (λ (q : Picture). q.uri) (sym shown),
        fields.2
            ∙ program_offset cfg ts e sound w low high
            ∙ ap (λ (q : Picture). pos (q.position / second)) (sym shown),
      ),
    )

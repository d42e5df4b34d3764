-- ===== src/Stitch/Served.antt =====
-- Whoever has read the playlist finds its files.
use mathlib.Core.Bool.{false≢true}
use fast_tv_playout_core.Base.{
  ℕ, ◌+◌, ◌*◌, ◌^◌, ◌≤◌, ◌<◌, ◌≡◌, refl, sym, ap, subst, ◌∙◌, true, not, ◌&&◌, Bool-cases, inl, inr,
  ◌⊎◌, Option, none, some, List, [], ◌∷◌, ◌++◌, if◌then◌else◌, String, str_eq, All, arith, ℤ, pos,
}
use fast_tv_playout_core.Clock.{second, seconds, seconds_pos, is_zero, after}
use fast_tv_playout_core.Config.{Config}
use fast_tv_playout_core.Model.{ClipItem}
use fast_tv_playout_core.Stitch.{SegmentMeta, Retimed, trimmed, append, Stitcher, new_stitcher}
use fast_tv_playout_core.Stitch.Files.{
  Disk, has_file, with_file, write_files, names_of, all_names, cleanup_loop, retire, cleanup,
}
use fast_tv_playout_core.Stitch.Add.{
  Prepare, Handed, resolve, segment_of, place_segment, write_and_place, add_clip, add_all,
}
use fast_tv_playout_core.Stitch.Retain.{
  Holds, Holds-head, Holds-tail, Holds-cases, Holds-left, Holds-right, Holds-either,
  all_names-append, trim_items-split, Findable, retire-Findable, cleanup_loop-Findable,
  cleanup_loop-window,
}

with_file-Holds : (n x : String) (files : List String) → Holds n files → Holds n (with_file x files)
with_file-Holds n x files h = elim (Bool-cases (has_file x files)) [
  | inl e ↦ rw e h
  | inr e ↦ rw e (Holds-tail n x files h)
]

with_file-itself : (x : String) (files : List String) → Holds x (with_file x files)
with_file-itself x files = elim (Bool-cases (has_file x files)) [
  | inl e ↦ rw e e
  | inr e ↦ rw e (Holds-head x x files refl)
]

-- Writing loses no file.
write_files-Holds :
    (n seg_name init_name : String) (disk : Disk) (files : List String)
    → Holds n files
    → Holds n (write_files disk seg_name init_name files).1
unfolding write_files
write_files-Holds n seg_name init_name disk files h = elim (Bool-cases disk.directory) [
  | inr d ↦ rw d h
  | inl d ↦ elim (Bool-cases (not (has_file init_name files) && not disk.init)) [
    | inl i ↦ rw (d, i) h
    | inr i ↦ elim (Bool-cases disk.segment) [
      | inr g ↦ rw (d, i, g) (with_file-Holds n init_name files h)
      | inl g ↦ rw (d, i, g) (with_file-Holds n seg_name _ (with_file-Holds n init_name files h))
    ]
  ]
]

-- What a write that succeeds has written.
write_files-written :
    (seg_name init_name : String) (disk : Disk) (files : List String)
    → (write_files disk seg_name init_name files).0 ≡ true
    → (write_files disk seg_name init_name files).1 ≡ with_file seg_name (with_file init_name files)
unfolding write_files
write_files-written seg_name init_name disk files h = elim (Bool-cases disk.directory) [
  | inr d ↦ absurd (ground (arith, h, d))
  | inl d ↦ elim (Bool-cases (not (has_file init_name files) && not disk.init)) [
    | inl i ↦ absurd (ground (arith, h, d, i))
    | inr i ↦ elim (Bool-cases disk.segment) [
      | inr g ↦ absurd (ground (arith, h, d, i, g))
      | inl g ↦ rw (d, i, g) refl
    ]
  ]
]

all_names-right :
    (n : String) (xs ys : List SegmentMeta)
    → Holds n (all_names ys)
    → Holds n (all_names (xs ++ ys))
unfolding all_names
all_names-right n [] ys h = h
all_names-right n (x ∷ xs) ys h =
    Holds-right n (names_of x) (all_names (xs ++ ys)) (all_names-right n xs ys h)

all_names-left :
    (n : String) (xs ys : List SegmentMeta)
    → Holds n (all_names xs)
    → Holds n (all_names (xs ++ ys))
unfolding all_names
all_names-left n [] ys h = absurd (false≢true (unfold has_file in h))
all_names-left n (x ∷ xs) ys h = elim (Holds-either n (names_of x) (all_names xs) h) [
  | inl a ↦ Holds-left n (names_of x) (all_names (xs ++ ys)) a
  | inr b ↦ Holds-right n (names_of x) (all_names (xs ++ ys)) (all_names-left n xs ys b)
]

-- The names of one segment are its two files.
names_of-cases :
    (n : String) (m : SegmentMeta)
    → Holds n (all_names (m ∷ []))
    → (m.uri.name ≡ n) ⊎ (m.map_uri.name ≡ n)
unfolding all_names
names_of-cases n m h = elim (Bool-cases (str_eq m.map_uri.name "")) [
  | inl b ↦
      elim (Holds-cases n m.uri.name [] (
        ap
          (λ b'.
            has_file n ((if b' then m.uri.name ∷ [] else m.uri.name ∷ m.map_uri.name ∷ []) ++ []))
          (sym b)
        ∙ h)) [ inl e ↦ inl e | inr k ↦ absurd (false≢true (unfold has_file in k)) ]
  | inr b ↦
      elim (Holds-cases n m.uri.name (m.map_uri.name ∷ []) (
        ap
          (λ b'.
            has_file n ((if b' then m.uri.name ∷ [] else m.uri.name ∷ m.map_uri.name ∷ []) ++ []))
          (sym b)
        ∙ h)) [
          | inl e ↦ inl e
          | inr k ↦ elim (Holds-cases n m.map_uri.name [] k) [
            | inl e ↦ inr e
            | inr j ↦ absurd (false≢true (unfold has_file in j))
          ]
        ]
]

-- The files of the window are there.
abbrev pub WindowThere : Stitcher → Type 0
WindowThere s = (x : String) → Holds x (all_names s.win.items) → Holds x s.files

module _ (cfg : Config) (k : ℕ) (long : k < 2 ^ 62) (keep : seconds cfg.retain_s ≡ pos k) where
  place_segment-Findable :
      (n : String) (t : ℕ) (c : ClipItem) (m : SegmentMeta) (init_name : String) (s : Stitcher)
      → t ≤ c.start_at
      → c.start_at < t + k
      → Findable n t (s.win.items ++ (m ∷ [])) s.retired
      → Holds n s.files
      → let s' = place_segment cfg c m init_name s in
        Findable n t s'.win.items s'.retired × Holds n s'.files
  unfolding place_segment cleanup append trimmed
  place_segment-Findable n t c m init_name s l u f h =
      let w = trimmed s.win m in
      subst
        (λ d.
          let r =
            cleanup_loop d c.start_at w.kept (retire w.removed c.start_at s.retired) s.files in
          Findable n t w.kept r.0 × Holds n r.1)
        (sym keep)
        (cleanup_loop-Findable n t k c.start_at w.kept (retire w.removed c.start_at s.retired)
          s.files long u
          (retire-Findable n t c.start_at w.kept w.removed s.retired l (
            subst (λ xs. Findable n t xs s.retired)
              (sym (trim_items-split s.win.max_size (s.win.items ++ (m ∷ [])) s.win.disc_seq)) f))
          h)

  place_segment-window :
      (n : String) (c : ClipItem) (m : SegmentMeta) (init_name : String) (s : Stitcher)
      → ((x : String) → Holds x (all_names (s.win.items ++ (m ∷ []))) → Holds x s.files)
      → Holds n (all_names (place_segment cfg c m init_name s).win.items)
      → Holds n (place_segment cfg c m init_name s).files
  unfolding place_segment cleanup append trimmed
  place_segment-window n c m init_name s all h =
      let w = trimmed s.win m in
      subst
        (λ d.
          Holds n
            (cleanup_loop d c.start_at w.kept (retire w.removed c.start_at s.retired) s.files).1)
        (sym keep)
        (cleanup_loop-window n k c.start_at w.kept (retire w.removed c.start_at s.retired) s.files h
          (all n (
            subst (λ xs. Holds n (all_names xs))
              (trim_items-split s.win.max_size (s.win.items ++ (m ∷ [])) s.win.disc_seq)
              (all_names-right n w.removed w.kept h))))

  module _ (parse : String → Option (List ℕ)) (seg_name : ℤ → String) where
    write_and_place-Findable :
        (n : String) (t : ℕ) (disk : Disk) (s : Stitcher) (c : ClipItem) (o : Option Retimed)
        → t ≤ c.start_at
        → c.start_at < t + k
        → t ≤ s.last_start
        → Findable n t s.win.items s.retired
        → Holds n s.files
        → let s' = (write_and_place parse seg_name cfg disk s c o).1 in
          Findable n t s'.win.items s'.retired × Holds n s'.files × (t ≤ s'.last_start)
    unfolding write_and_place
    write_and_place-Findable n t disk s c none l u i f h = (f, h, i)
    write_and_place-Findable n t disk s c (some rt) l u i f h =
        let m = segment_of parse seg_name cfg s c rt in
        let w = write_files disk m.uri.name rt.init_name s.files in
        let there = write_files-Holds n m.uri.name rt.init_name disk s.files h in
        elim (Bool-cases w.0) [
          | inr e ↦ rw e (f, there, i)
          | inl e ↦ rw e (
              let (g, j) =
                place_segment-Findable n t c m rt.init_name (record s { files = w.1 }) l u
                  (appended m f) there in
              (g, j, unfold place_segment in l))
        ]
      where
        appended :
            (m : SegmentMeta)
            → Findable n t s.win.items s.retired
            → Findable n t (s.win.items ++ (m ∷ [])) s.retired
        appended m (inl a) = inl (all_names-left n s.win.items (m ∷ []) a)
        appended m (inr p) = inr p

    write_and_place-there :
        (disk : Disk) (s : Stitcher) (c : ClipItem) (o : Option Retimed)
        → WindowThere s
        → WindowThere (write_and_place parse seg_name cfg disk s c o).1
    unfolding write_and_place segment_of
    write_and_place-there disk s c none all = all
    write_and_place-there disk s c (some rt) all =
        let m = segment_of parse seg_name cfg s c rt in
        let w = write_files disk m.uri.name rt.init_name s.files in
        elim (Bool-cases w.0) [
          | inr e ↦ rw e (λ x h. write_files-Holds x m.uri.name rt.init_name disk s.files (all x h))
          | inl e ↦ rw e (λ x h.
              place_segment-window x c m rt.init_name (record s { files = w.1 })
                (λ y g. there m rt.init_name e y g) h)
        ]
      where
        there :
            (m : SegmentMeta) (init_name : String)
            → (write_files disk m.uri.name m.map_uri.name s.files).0 ≡ true
            → (y : String) → Holds y (all_names (s.win.items ++ (m ∷ [])))
            → Holds y (write_files disk m.uri.name m.map_uri.name s.files).1
        there m init_name e y g = elim (all_names-append y s.win.items (m ∷ []) g) [
          | inl old ↦ write_files-Holds y m.uri.name m.map_uri.name disk s.files (all y old)
          | inr new ↦
              subst (Holds y) (sym (write_files-written m.uri.name m.map_uri.name disk s.files e))
                (elim (names_of-cases y m new) [
                  | inl seg ↦
                      subst (λ z. Holds z (with_file m.uri.name (with_file m.map_uri.name s.files)))
                        seg (with_file-itself m.uri.name _)
                  | inr init ↦
                      subst (λ z. Holds z (with_file m.uri.name (with_file m.map_uri.name s.files)))
                        init
                        (with_file-Holds m.map_uri.name m.uri.name _
                          (with_file-itself m.map_uri.name s.files))
                ])
        ]

    add_clip-there :
        (prepare : Prepare) (disk : Disk) (s : Stitcher) (c : ClipItem)
        → WindowThere s
        → WindowThere (add_clip parse seg_name prepare cfg disk s c).2
    unfolding add_clip
    add_clip-there prepare disk s c all =
        elim (Bool-cases (not (is_zero s.last_start) && not (after c.start_at s.last_start))) [
          | inl e ↦ rw e all
          | inr e ↦ rw e (write_and_place-there disk s c (resolve prepare cfg c).found all)
        ]

    add_clip-Findable :
        (n : String) (t : ℕ) (prepare : Prepare) (disk : Disk) (s : Stitcher) (c : ClipItem)
        → c.start_at < t + k
        → t ≤ s.last_start
        → Findable n t s.win.items s.retired
        → Holds n s.files
        → let s' = (add_clip parse seg_name prepare cfg disk s c).2 in
          Findable n t s'.win.items s'.retired × Holds n s'.files × (t ≤ s'.last_start)
    unfolding add_clip
    add_clip-Findable n t prepare disk s c u i f h =
        elim (Bool-cases (not (is_zero s.last_start) && not (after c.start_at s.last_start))) [
          | inl e ↦ rw e (f, h, i)
          | inr e ↦ rw e (
              write_and_place-Findable n t disk s c (resolve prepare cfg c).found
                (ground (arith, e, i)) u i f h)
        ]

    add_all-there :
        (s : Stitcher) (hs : List Handed)
        → WindowThere s
        → WindowThere (add_all parse seg_name cfg s hs)
    unfolding add_all
    add_all-there s [] all = all
    add_all-there s (h ∷ hs) all =
        add_all-there (add_clip parse seg_name h.prepare cfg h.disk s h.clip).2 hs
          (add_clip-there h.prepare h.disk s h.clip all)

    add_all-Holds :
        (n : String) (t : ℕ) (s : Stitcher) (hs : List Handed)
        → All (λ h. h.clip.start_at < t + k) hs
        → t ≤ s.last_start
        → Findable n t s.win.items s.retired
        → Holds n s.files
        → Holds n (add_all parse seg_name cfg s hs).files
    unfolding add_all
    add_all-Holds n t s [] u i f there = there
    add_all-Holds n t s (h ∷ hs) u i f there =
        let (g, now, l) = add_clip-Findable n t h.prepare h.disk s h.clip u.0 i f there in
        add_all-Holds n t (add_clip parse seg_name h.prepare cfg h.disk s h.clip).2 hs u.1 l g now

new-there : (cfg : Config) (files : List String) → WindowThere (new_stitcher cfg files)
unfolding new_stitcher all_names
new-there cfg files x h = absurd (false≢true (unfold has_file in h))

-- When a name stands in the playlist after some clips were handed to a new stitcher, as a segment or as an init
-- section, its file is there after further clips, as long as each of them starts less than RETAIN_S after the
-- last clip that the playlist then had: a player that has read the playlist can download what it names.
-- RETAIN_S is below 2^32.
pub add_all-serves :
    (parse : String → Option (List ℕ)) (seg_name : ℤ → String) (cfg : Config) (retain : ℕ)
    (files : List String) (earlier later : List Handed) (name : String)
    → cfg.retain_s ≡ pos retain
    → retain < 2 ^ 32
    → Holds name (all_names (add_all parse seg_name cfg (new_stitcher cfg files) earlier).win.items)
    → All
        (λ h.
          h.clip.start_at
          < (add_all parse seg_name cfg (new_stitcher cfg files) earlier).last_start
            + retain * second)
        later
    → Holds name
        (add_all parse seg_name cfg
          (add_all parse seg_name cfg (new_stitcher cfg files) earlier)
          later).files
add_all-serves parse seg_name cfg retain files earlier later name r b w l =
    let keep = ap seconds r ∙ seconds_pos retain b in
    let long : retain * second < 2 ^ 62 = omega (arith, b) in
    let s = add_all parse seg_name cfg (new_stitcher cfg files) earlier in
    let all =
      add_all-there cfg (retain * second) long keep parse seg_name (new_stitcher cfg files) earlier
        (new-there cfg files) in
    add_all-Holds cfg (retain * second) long keep parse seg_name name s.last_start s later l
      (omega arith) (inl w) (all name w)

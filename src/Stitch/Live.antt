-- ===== src/Stitch/Live.antt =====
-- The live window: the newest segments, in the order of their times and with numbers one after the other.
use Prim.Native.Nat.{min}
use fast_tv_playout_core.Base.{
  ℕ, suc, ◌+◌, ◌≤◌, ◌<◌, ◌≡◌, refl, ap, subst, ◌∙◌, true, not, ◌&&◌, Bool-cases, inl, inr, ◌⊎◌,
  Option, none, some, List, [], ◌∷◌, ◌++◌, ltb, if◌then◌else◌, length, length-append, String, All,
  arith, ℤ, pos, pos_part, wrap64, ◌+ℤ◌,
}
use fast_tv_playout_core.Clock.{Instant, is_zero, after}
use fast_tv_playout_core.Config.{Config}
use fast_tv_playout_core.Model.{ClipItem}
use fast_tv_playout_core.Stitch.{
  SegmentMeta, Retimed, Window, trim_items, trimmed, append, Stitcher, new_stitcher,
}
use fast_tv_playout_core.Stitch.Files.{Disk, write_files, cleanup}
use fast_tv_playout_core.Stitch.Add.{
  Prepare, Handed, resolve, segment_of, number_for, is_zero_ℤ, place_segment, write_and_place,
  add_clip, add_all,
}
use fast_tv_playout_core.Stitch.Retain.{trim_items-split}

-- The discontinuities among some segments.
abbrev pub discontinuities : List SegmentMeta → ℕ
discontinuities [] = 0
discontinuities (it ∷ items) =
    if it.discontinuity then suc (discontinuities items) else discontinuities items

trim_items-discontinuities :
    (k : ℕ) (items : List SegmentMeta) (d : ℕ)
    → (trim_items k items d).disc_seq ≡ d + discontinuities (trim_items k items d).removed
unfolding trim_items
trim_items-discontinuities k [] d = omega arith
trim_items-discontinuities k (it ∷ items) d = elim (Bool-cases (ltb k (length (it ∷ items)))) [
  | inr e ↦ rw e (omega arith)
  | inl e ↦ elim (Bool-cases it.discontinuity) [
    | inl b ↦ rw (e, b) (omega (arith, trim_items-discontinuities k items (suc d)))
    | inr b ↦ rw (e, b) (trim_items-discontinuities k items d)
  ]
]

trim_items-length :
    (k : ℕ) (items : List SegmentMeta) (d : ℕ)
    → length (trim_items k items d).kept ≡ min k (length items)
unfolding trim_items
trim_items-length k [] d = omega arith
trim_items-length k (it ∷ items) d = elim (Bool-cases (ltb k (length (it ∷ items)))) [
  | inl e ↦
      rw e (ground (arith, e, trim_items-length k items (if it.discontinuity then suc d else d)))
  | inr e ↦ rw e (ground (arith, e))
]

-- append splits the window with the new segment behind it into what leaves and what stays: what stays is as
-- long as the window may be, or all of it, and the counter grows by the discontinuities among what leaves.
pub append_newest :
    (w : Window) (m : SegmentMeta)
    → let (w', removed) = append w m in
      (removed ++ w'.items ≡ w.items ++ (m ∷ []))
      × (length w'.items ≡ min w.max_size (suc (length w.items)))
      × (w'.disc_seq ≡ w.disc_seq + discontinuities removed)
unfolding append trimmed
append_newest w m = (
  trim_items-split w.max_size (w.items ++ (m ∷ [])) w.disc_seq,
  trim_items-length w.max_size (w.items ++ (m ∷ [])) w.disc_seq
      ∙ ap (min w.max_size) (length-append w.items (m ∷ []) ∙ omega arith),
  trim_items-discontinuities w.max_size (w.items ++ (m ∷ [])) w.disc_seq,
)

-- The number behind another one, with the wrap-around of 64 bits.
abbrev pub behind : ℤ → ℤ
behind n = wrap64 (n +ℤ pos 1)

-- A segment that may follow another one: later, and with the next number, unless that is zero.
abbrev pub Next : SegmentMeta → SegmentMeta → Type 0
Next a b =
    (a.program_date_time < b.program_date_time)
    × ((b.seq ≡ behind a.seq) ⊎ (is_zero_ℤ (behind a.seq) ≡ true))

-- Segments that follow one another, up to a time and the number behind the last.
abbrev pub Chain : List SegmentMeta → Instant → ℤ → Type 0
Chain [] t n = Unit
Chain (a ∷ []) t n = (a.program_date_time ≡ t) × (n ≡ behind a.seq)
Chain (a ∷ b ∷ items) t n = Next a b × Chain (b ∷ items) t n

Chain-tail :
    (a : SegmentMeta) (items : List SegmentMeta) (t : Instant) (n : ℤ)
    → Chain (a ∷ items) t n
    → Chain items t n
Chain-tail a [] t n h = tt
Chain-tail a (b ∷ items) t n h = h.1

abbrev Numbers : SegmentMeta → ℤ → Type 0
Numbers m n = (m.seq ≡ n) ⊎ (is_zero_ℤ n ≡ true)

Chain-append :
    (items : List SegmentMeta) (m : SegmentMeta) (t : ℕ) (n : ℤ)
    → t < m.program_date_time
    → Numbers m n
    → Chain items t n
    → Chain (items ++ (m ∷ [])) m.program_date_time (behind m.seq)
Chain-append [] m t n l k h = (refl, refl)
Chain-append (a ∷ []) m t n l k h =
    ((omega (arith, l, h.0), subst (λ x. Numbers m x) h.1 k), (refl, refl))
Chain-append (a ∷ b ∷ items) m t n l k h = (h.0, Chain-append (b ∷ items) m t n l k h.1)

trim_items-Chain :
    (k : ℕ) (items : List SegmentMeta) (d : ℕ) (t : Instant) (n : ℤ)
    → Chain items t n
    → Chain (trim_items k items d).kept t n
unfolding trim_items
trim_items-Chain k [] d t n h = h
trim_items-Chain k (it ∷ items) d t n h = elim (Bool-cases (ltb k (length (it ∷ items)))) [
  | inl e ↦ rw e (trim_items-Chain k items _ t n (Chain-tail it items t n h))
  | inr e ↦ rw e h
]

-- The window of a stitcher.
pub record IsLive (cfg : Config) (s : Stitcher) : Type 0 where
  pub size : s.win.max_size ≡ pos_part cfg.playlist_window_max
  pub bounded : length s.win.items ≤ s.win.max_size
  pub chain : Chain s.win.items s.last_start s.next_seq

number_for-Numbers :
    (s : Stitcher) (c : ClipItem) (m : SegmentMeta) → m.seq ≡ number_for s c → Numbers m s.next_seq
number_for-Numbers s c m e = elim (Bool-cases (is_zero_ℤ s.next_seq)) [
  | inl b ↦ inr b
  | inr b ↦ inl (e ∙ ap (λ b'. if b' then c.seq else s.next_seq) b)
]

module _ (cfg : Config) where
  place_segment-IsLive :
      (c : ClipItem) (m : SegmentMeta) (init_name : String) (s : Stitcher)
      → m.seq ≡ number_for s c
      → m.program_date_time ≡ c.start_at
      → s.last_start < c.start_at
      → IsLive cfg s
      → IsLive cfg (place_segment cfg c m init_name s)
  unfolding place_segment cleanup append trimmed
  place_segment-IsLive c m init_name s q e l v = record {
    size = v.size;
    bounded =
        omega (arith, trim_items-length s.win.max_size (s.win.items ++ (m ∷ [])) s.win.disc_seq);
    chain =
        subst (λ t. Chain (trimmed s.win m).kept t (behind m.seq)) e
          (trim_items-Chain s.win.max_size (s.win.items ++ (m ∷ [])) s.win.disc_seq
            m.program_date_time (behind m.seq)
            (Chain-append s.win.items m s.last_start s.next_seq (omega (arith, e, l))
              (number_for-Numbers s c m q) v.chain));
  }

  module _ (parse : String → Option (List ℕ)) (seg_name : ℤ → String) where
    write_and_place-IsLive :
        (disk : Disk) (s : Stitcher) (c : ClipItem) (o : Option Retimed)
        → s.last_start < c.start_at
        → IsLive cfg s
        → IsLive cfg (write_and_place parse seg_name cfg disk s c o).1
    unfolding write_and_place segment_of
    write_and_place-IsLive disk s c none l v = v
    write_and_place-IsLive disk s c (some rt) l v =
        let m = segment_of parse seg_name cfg s c rt in
        let w = write_files disk m.uri.name rt.init_name s.files in
        let written : IsLive cfg (record s { files = w.1 }) = record {
          size = v.size;
          bounded = v.bounded;
          chain = v.chain;
        } in
        elim (Bool-cases w.0) [
          | inl e ↦
              rw e (
                place_segment-IsLive c m rt.init_name (record s { files = w.1 }) refl refl l
                  written)
          | inr e ↦ rw e written
        ]

    add_clip-IsLive :
        (prepare : Prepare) (disk : Disk) (s : Stitcher) (c : ClipItem)
        → 0 < c.start_at
        → IsLive cfg s
        → IsLive cfg (add_clip parse seg_name prepare cfg disk s c).2
    unfolding add_clip
    add_clip-IsLive prepare disk s c z v =
        elim (Bool-cases (not (is_zero s.last_start) && not (after c.start_at s.last_start))) [
          | inl e ↦ rw e v
          | inr e ↦ rw e (
              write_and_place-IsLive disk s c (resolve prepare cfg c).found (ground (arith, e, z))
                v)
        ]

    add_all-IsLive :
        (s : Stitcher) (hs : List Handed)
        → All (λ h. 0 < h.clip.start_at) hs
        → IsLive cfg s
        → IsLive cfg (add_all parse seg_name cfg s hs)
    unfolding add_all
    add_all-IsLive s [] z v = v
    add_all-IsLive s (h ∷ hs) z v =
        add_all-IsLive (add_clip parse seg_name h.prepare cfg h.disk s h.clip).2 hs z.1
          (add_clip-IsLive h.prepare h.disk s h.clip z.0 v)

-- For clips that start after the zero time and are handed to a new stitcher in any order, whatever the sources
-- and the file system answer: the window holds at most PLAYLIST_WINDOW_MAX segments, each starts later than the
-- one before it and has the next number, unless that is zero, and the last one starts at the last start and has
-- the number before the next.
pub new_stitcher-IsLive :
    (parse : String → Option (List ℕ)) (seg_name : ℤ → String) (cfg : Config) (files : List String)
    (hs : List Handed)
    → All (λ h. 0 < h.clip.start_at) hs
    → IsLive cfg (add_all parse seg_name cfg (new_stitcher cfg files) hs)
new_stitcher-IsLive parse seg_name cfg files hs z =
    add_all-IsLive cfg parse seg_name (new_stitcher cfg files) hs z
      (unfold new_stitcher in record { size = refl; bounded = omega arith; chain = tt })

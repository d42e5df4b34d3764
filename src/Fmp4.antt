-- ===== src/Fmp4.antt =====
-- pkg/fmp4/fmp4.go: the boxes of fragmented MP4. A file is a list of bytes, numbers below 256.
pub mod Tiling
pub mod Init
pub mod Segment
mod Tests
use fast_tv_playout_core.Base.{
  ℕ, zero, suc, ◌+◌, ◌-◌, ◌*◌, ◌^◌, Bool, true, false, ◌&&◌, ◌||◌, ◌==◌, List, [], ◌∷◌, ltb,
  if◌then◌else◌, length, take, drop, get_or, ◌⊎◌, inl, inr, Option, none, some,
}

-- The errors; out_of_fuel is none of the program's, and panics stands for a slice that goes behind the bytes (those that
-- a slice of Go may have in reserve behind its end are left out).
pub data Damage : Type 0 where
  truncated_header truncated_large_header too_large bad_size short_box : Damage
  no_moov no_tracks short_trex no_tkhd no_mdia no_mdhd zero_timescale : Damage
  no_tfhd unknown_track no_tfdt short_tfdt no_duration short_trun no_traf tfdt_version off_grid
        before_start :
      Damage
  out_of_fuel panics : Damage

-- The four bytes of a type.
abbrev pub FourCc : Type 0
FourCc = List ℕ

abbrev pub same_bytes : List ℕ → List ℕ → Bool
same_bytes [] [] = true
same_bytes [] (y ∷ ys) = false
same_bytes (x ∷ xs) [] = false
same_bytes (x ∷ xs) (y ∷ ys) = x == y && same_bytes xs ys

-- box; `head` is the field hdr.
pub record Box : Type 0 where
  pub typ : FourCc
  pub start : ℕ
  pub head : ℕ
  pub size : ℕ

abbrev pub body_start : Box → ℕ
body_start b = b.start + b.head

abbrev pub end_of_box : Box → ℕ
end_of_box b = b.start + b.size

-- The big-endian numbers at a position; what they read stands behind a test of the length.
unfoldable pub be32 : List ℕ → ℕ → ℕ
be32 b p =
    get_or b p 0 * 2 ^ 24
    + get_or b (p + 1) 0 * 2 ^ 16
    + get_or b (p + 2) 0 * 2 ^ 8
    + get_or b (p + 3) 0

unfoldable pub be64 : List ℕ → ℕ → ℕ
be64 b p = be32 b p * 2 ^ 32 + be32 b (p + 4)

abbrev pub four_at : List ℕ → ℕ → FourCc
four_at b p = take 4 (drop p b)

-- The header and the size of the box at a position, as the loop of `children` reads them.
pub record Header : Type 0 where
  pub head : ℕ
  pub size : ℕ

unfoldable pub read_header : List ℕ → ℕ → ℕ → Damage ⊎ Header
read_header b p end =
    let size = be32 b p in
    if size == 1
    then (if ltb (end - p) 16
        then inl truncated_large_header
        else if ltb (length b) (p + 16)
        then inl panics
        else if ltb (2 ^ 31 - 1) (be64 b (p + 8))
        then inl too_large
        else inr (record { head = 16; size = be64 b (p + 8) }))
    else if size == 0
    then inr (record { head = 8; size = end - p })
    else inr (record { head = 8; size = size })

abbrev pub bad_header : ℕ → ℕ → Header → Bool
bad_header p end h = ltb h.size h.head || ltb end (p + h.size)

-- A box in front of those that follow it.
pub prepend : Box → Damage ⊎ List Box → Damage ⊎ List Box
prepend x (inl d) = inl d
prepend x (inr xs) = inr (x ∷ xs)

pub place : List ℕ → ℕ → ℕ → (Box → Damage ⊎ List Box) → Damage ⊎ Header → Damage ⊎ List Box
unfolding prepend
place b p end rest (inl d) = inl d
place b p end rest (inr h) =
    if bad_header p end h
    then inl bad_size
    else let x : Box = record {
      typ = four_at b (p + 4);
      start = p;
      head = h.head;
      size = h.size;
    } in
      prepend x (rest x)

pub children_loop : ℕ → List ℕ → ℕ → ℕ → Damage ⊎ List Box
unfolding place
children_loop zero b p end = if ltb p end then inl out_of_fuel else inr []
children_loop (suc n) b p end =
    let rest : Box → Damage ⊎ List Box = λ x. children_loop n b (p + x.size) end in
    if ltb p end
    then (if ltb (end - p) 8
        then inl truncated_header
        else if ltb (length b) (p + 8)
        then inl panics
        else place b p end rest (read_header b p end))
    else inr []

-- children; a box is not empty, so that a step for every byte is enough.
unfoldable pub children : List ℕ → ℕ → ℕ → Damage ⊎ List Box
unfolding children_loop
children b start end = children_loop (end - start) b start end

pub find : FourCc → List Box → Option Box
find typ [] = none
find typ (x ∷ xs) = if same_bytes x.typ typ then some x else find typ xs

abbrev pub u8 : List ℕ → ℕ → Damage ⊎ ℕ
u8 b p = if ltb p (length b) then inr (get_or b p 0) else inl short_box

abbrev pub u32 : List ℕ → ℕ → Damage ⊎ ℕ
u32 b p = if ltb (length b) (p + 4) then inl short_box else inr (be32 b p)

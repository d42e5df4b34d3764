-- ===== src/Fmp4/Tiling.antt =====
-- The loop of `children` ends, and the boxes it finds lie one behind the other.
use fast_tv_playout_core.Base.{
  ℕ, zero, suc, ◌+◌, ◌-◌, ◌≤◌, ◌<◌, length, ◌≡◌, refl, Bool, true, false, List, [], ◌∷◌, ltb,
  if◌then◌else◌, ◌⊎◌, inl, inr, arith, leb→le, ◌==◌, ◌^◌,
}
use fast_tv_playout_core.Fmp4.{
  Damage, out_of_fuel, panics, Box, Header, read_header, bad_header, prepend, place, children_loop,
  children, truncated_large_header, too_large, be32, be64,
}

-- The boxes fill the bytes from a position to the end, each with room for its header.
abbrev pub Tiles : ℕ → ℕ → List Box → Type 0
Tiles p end [] = end ≤ p
Tiles p end (x ∷ xs) =
    (x.start ≡ p)
    × (8 ≤ x.head)
    × (x.head ≤ x.size)
    × (p + x.size ≤ end)
    × Tiles (p + x.size) end xs

-- No error that the program reports.
abbrev pub is_alien : Damage → Bool
is_alien out_of_fuel = true
is_alien panics = true
is_alien d = false

-- The boxes fill the bytes, or the program reports an error of its own.
abbrev pub Listed : ℕ → ℕ → Damage ⊎ List Box → Type 0
Listed p end (inl d) = is_alien d ≡ false
Listed p end (inr xs) = Tiles p end xs

prepend-Listed :
    (p end : ℕ) (x : Box) (r : Damage ⊎ List Box)
    → x.start ≡ p
    → 8 ≤ x.head
    → x.head ≤ x.size
    → p + x.size ≤ end
    → Listed (p + x.size) end r
    → Listed p end (prepend x r)
unfolding prepend
prepend-Listed p end x (inl d) s h z f l = l
prepend-Listed p end x (inr xs) s h z f l = (s, h, z, f, l)

-- A header that was read.
abbrev IsHeader : Damage ⊎ Header → Type 0
IsHeader (inl d) = is_alien d ≡ false
IsHeader (inr h) = 8 ≤ h.head

if-IsHeader :
    (b : Bool) (x y : Damage ⊎ Header)
    → (b ≡ true → IsHeader x)
    → (b ≡ false → IsHeader y)
    → IsHeader (if b then x else y)
if-IsHeader true x y h k = h refl
if-IsHeader false x y h k = k refl

read_header-IsHeader :
    (b : List ℕ) (p end : ℕ) → p < end → end ≤ length b → IsHeader (read_header b p end)
unfolding read_header
read_header-IsHeader b p end m w =
    if-IsHeader (be32 b p == 1) _ _
      (λ large.
        if-IsHeader (ltb (end - p) 16) (inl truncated_large_header) _ (λ short. refl)
          (λ long.
            if-IsHeader (ltb (length b) (p + 16)) (inl panics) _
              (λ over. absurd (ground (arith, long, over, m, w)))
              (λ in_bytes.
                if-IsHeader (ltb (2 ^ 31 - 1) (be64 b (p + 8))) (inl too_large)
                  (inr (record { head = 16; size = be64 b (p + 8) })) (λ big. refl)
                  (λ small. leb→le 8 16 refl))))
      (λ usual.
        if-IsHeader (be32 b p == 0) (inr (record { head = 8; size = end - p }))
          (inr (record { head = 8; size = be32 b p })) (λ z. leb→le 8 8 refl)
          (λ n. leb→le 8 8 refl))

if-Listed :
    (p end : ℕ) (b : Bool) (x y : Damage ⊎ List Box)
    → (b ≡ true → Listed p end x)
    → (b ≡ false → Listed p end y)
    → Listed p end (if b then x else y)
if-Listed p end true x y h k = h refl
if-Listed p end false x y h k = k refl

place-Listed :
    (b : List ℕ) (p end : ℕ) (rest : Box → Damage ⊎ List Box) (r : Damage ⊎ Header)
    → IsHeader r
    → ((x : Box) → 8 ≤ x.size → Listed (p + x.size) end (rest x))
    → Listed p end (place b p end rest r)
unfolding place
place-Listed b p end rest (inl d) h k = h
place-Listed b p end rest (inr r) h k =
    if-Listed p end (bad_header p end r) _ _ (λ bad. refl)
      (λ good.
        prepend-Listed p end _ _ refl h (ground (arith, good)) (ground (arith, good))
          (k _ (ground (arith, good, h))))

children_loop-Listed :
    (n : ℕ) (b : List ℕ) (p end : ℕ)
    → end ≤ length b
    → end ≤ p + n
    → Listed p end (children_loop n b p end)
unfolding children_loop
children_loop-Listed zero b p end w h =
    if-Listed p end (ltb p end) (inl out_of_fuel) (inr []) (λ more. absurd (ground (arith, more)))
      (λ over. ground (arith, over))
children_loop-Listed (suc n) b p end w h =
    if-Listed p end (ltb p end) _ _
      (λ more.
        if-Listed p end (ltb (end - p) 8) _ _ (λ short. refl)
          (λ long.
            if-Listed p end (ltb (length b) (p + 8)) _ _
              (λ over. absurd (ground (arith, long, over, more, w)))
              (λ in_bytes.
                place-Listed b p end _ _ (read_header-IsHeader b p end (ground (arith, more)) w)
                  (λ x size.
                    children_loop-Listed n b (p + x.size) end w (omega (arith, size, h))))))
      (λ over. ground (arith, over))

-- For any bytes and a range that does not end behind them, the loop of children ends by itself and takes no
-- slice that goes behind the bytes: it reports an error of the program, or boxes that lie one behind the other
-- from the start of the range to its end, each with a header of 8 bytes at least that fits in its size.
pub children-Listed :
    (b : List ℕ) (start end : ℕ) → end ≤ length b → Listed start end (children b start end)
unfolding children
children-Listed b start end w = children_loop-Listed (end - start) b start end w (omega arith)

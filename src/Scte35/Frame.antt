-- ===== src/Scte35/Frame.antt =====
-- The frame of a command: what Decode takes apart is what Encode put together.
use fast_tv_playout_core.Base.{
  ℕ, suc, zero, ◌+◌, ◌-◌, ◌*◌, ◌/◌, ◌%◌, ◌^◌, ◌≤◌, ◌<◌, ◌≡◌, refl, sym, ap, ◌∙◌, none, List, [],
  ◌∷◌, ◌++◌, length, take, drop, length-append, arith,
}
use mathlib.Core.List.{append_assoc}
use fast_tv_playout_core.Scte35.{
  crc32mpeg, crc_bytes, crc_bits, crc_bit, xor, u32_bytes, u32_of, u33_of, header, frame, index,
  decode, decode_command,
}

xor-bounded : (bits a b : ℕ) → xor bits a b < 2 ^ bits
unfolding xor
xor-bounded zero a b = omega arith
xor-bounded (suc bits) a b = omega (arith, xor-bounded bits (a / 2) (b / 2))

crc_bit-bounded : (crc : ℕ) → crc_bit crc < 2 ^ 32
unfolding crc_bit
crc_bit-bounded crc = ground (arith, xor-bounded 32 (crc * 2 % 2 ^ 32) 79764919)

crc_bits-bounded : (n crc : ℕ) → crc < 2 ^ 32 → crc_bits n crc < 2 ^ 32
unfolding crc_bits
crc_bits-bounded zero crc h = h
crc_bits-bounded (suc n) crc h = crc_bits-bounded n (crc_bit crc) (crc_bit-bounded crc)

crc_bytes-bounded : (b : List ℕ) (crc : ℕ) → crc < 2 ^ 32 → crc_bytes crc b < 2 ^ 32
unfolding crc_bytes
crc_bytes-bounded [] crc h = h
crc_bytes-bounded (x ∷ b) crc h =
    crc_bytes-bounded b (crc_bits 8 (xor 32 crc (x * 2 ^ 24)))
      (crc_bits-bounded 8 (xor 32 crc (x * 2 ^ 24)) (xor-bounded 32 crc (x * 2 ^ 24)))

pub crc32mpeg-bounded : (b : List ℕ) → crc32mpeg b < 2 ^ 32
unfolding crc32mpeg
crc32mpeg-bounded b = crc_bytes-bounded b 4294967295 (omega arith)

pub u32_bytes_back : (x : ℕ) → x < 2 ^ 32 → u32_of (u32_bytes x) 0 ≡ x
u32_bytes_back x h = omega arith

pub index-append : (xs ys : List ℕ) (i : ℕ) → index (xs ++ ys) (length xs + i) ≡ index ys i
index-append [] ys i = ap (index ys) (omega arith)
index-append (x ∷ xs) ys i = ap (index (x ∷ xs ++ ys)) shift ∙ index-append xs ys i
  where
    shift : length (x ∷ xs) + i ≡ suc (length xs + i)
    shift = omega arith

take-append : (xs ys : List ℕ) → take (length xs) (xs ++ ys) ≡ xs
take-append [] ys = refl
take-append (x ∷ xs) ys = ap (x ∷◌) (take-append xs ys)

decode_passes :
    (b cmd : List ℕ) (n : ℕ)
    → 18 ≤ length b
    → index b 0 ≡ 252
    → index b 1 % 16 * 2 ^ 8 + index b 2 + 3 ≡ length b
    → crc32mpeg (take (length b - 4) b) ≡ u32_of b (length b - 4)
    → index b 3 ≡ 0
    → index b 4 < 128
    → index b 11 % 16 * 2 ^ 8 + index b 12 ≡ n
    → n < 4095
    → n + 20 ≤ length b
    → take n (drop 14 b) ≡ cmd
    → decode b
      ≡ decode_command cmd
          (record { pts_adjustment = u33_of b 4; command_type = index b 13; insert = none })
unfolding decode
decode_passes b cmd n a1 a2 a3 a4 a5 a6 a7 a8 a9 a10 = rw (a7, a10) (ground arith)

module _ (cmd : List ℕ) (h : length cmd < 4000) where
  abbrev out : List ℕ
  out = header (13 + length cmd + 4) (length cmd) ++ cmd ++ 0 ∷ 0 ∷ []

  abbrev crc : List ℕ
  crc = u32_bytes (crc32mpeg out)

  length-out : length out ≡ length cmd + 16
  length-out = omega (arith, length-append cmd (0 ∷ 0 ∷ []))

  length-framed : length (out ++ crc) ≡ length cmd + 20
  length-framed = omega (arith, length-append out crc, length-out)

  index-crc : (i : ℕ) → index (out ++ crc) (length (out ++ crc) - 4 + i) ≡ index crc i
  index-crc i = ap (index (out ++ crc)) at_end ∙ index-append out crc i
    where
      at_end : length (out ++ crc) - 4 + i ≡ length out + i
      at_end = omega (arith, length-framed, length-out)

  take-out : take (length (out ++ crc) - 4) (out ++ crc) ≡ out
  take-out = ap (λ n. take n (out ++ crc)) at_end ∙ take-append out crc
    where
      at_end : length (out ++ crc) - 4 ≡ length out
      at_end = omega (arith, length-framed, length-out)

  -- The command of a frame is found again, and its check sum fits.
  pub decode-frame :
      decode (frame cmd)
      ≡ decode_command cmd (record { pts_adjustment = 0; command_type = 5; insert = none })
  unfolding frame
  decode-frame =
      decode_passes (out ++ crc) cmd (length cmd) (omega (arith, length-framed)) refl
        (omega (arith, length-framed)) check_sum refl (omega arith) (omega arith) (omega arith)
        (omega (arith, length-framed))
        (ap (take (length cmd)) (append_assoc cmd (0 ∷ 0 ∷ []) crc)
          ∙ take-append cmd (0 ∷ 0 ∷ [] ++ crc))
    where
      first : index (out ++ crc) (length (out ++ crc) - 4) ≡ index crc 0
      first = ap (index (out ++ crc)) (omega arith) ∙ index-crc 0

      check_sum :
          crc32mpeg (take (length (out ++ crc) - 4) (out ++ crc))
          ≡ u32_of (out ++ crc) (length (out ++ crc) - 4)
      check_sum =
          ap crc32mpeg take-out
          ∙ sym (u32_bytes_back (crc32mpeg out) (crc32mpeg-bounded out))
          ∙ omega (arith, first, index-crc 1, index-crc 2, index-crc 3)

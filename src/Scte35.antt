-- ===== src/Scte35.antt =====
-- pkg/scte35/scte35.go: the messages that mark an ad break, as lists of bytes. A byte is a number below 256; flags
-- that are set with | are bits of their own, so that they are added.
pub mod Frame
pub mod Command
pub mod RoundTrip
mod Tests
use fast_tv_playout_core.Base.{
  ℕ, suc, ◌+◌, ◌-◌, ◌*◌, ◌/◌, ◌%◌, ◌^◌, zero, Bool, true, false, not, ◌&&◌, ◌||◌, ◌==◌, Option,
  none, some, List, [], ◌∷◌, ◌++◌, ltb, leb, if◌then◌else◌, length, get_elem?, take, drop,
}

pub record SpliceInsert : Type 0 where
  pub event_id : ℕ
  pub cancel : Bool
  pub out : Bool
  pub immediate : Bool
  pub pts : Option ℕ
  pub duration_ticks : ℕ
  pub auto_return : Bool
  pub unique_program_id : ℕ
  pub avail_num : ℕ
  pub avails_expected : ℕ

pub record Section : Type 0 where
  pub pts_adjustment : ℕ
  pub command_type : ℕ
  pub insert : Option SpliceInsert

pub data Refusal : Type 0 where
  long_duration late_time no_time : Refusal
  short_section table_id section_length crc_mismatch version encrypted command_length
        command_overrun :
      Refusal
  short_insert component_splice : Refusal

pub data Answer (A : Type 0) : Type 0 where
  done : A → Answer A
  refused : Refusal → Answer A

-- byte(x >> n)
abbrev pub byte_at : ℕ → ℕ → ℕ
byte_at n x = x / 2 ^ n % 256

-- b & (1 << n) != 0
abbrev pub has_bit : ℕ → ℕ → Bool
has_bit n b = b / 2 ^ n % 2 == 1

abbrev pub when : Bool → ℕ → ℕ
when b n = if b then n else 0

-- a ^ b, on the lowest bits.
pub xor : ℕ → ℕ → ℕ → ℕ
xor zero a b = 0
xor (suc bits) a b = (a + b) % 2 + 2 * xor bits (a / 2) (b / 2)

pub crc_bit : ℕ → ℕ
crc_bit crc = if has_bit 31 crc then xor 32 (crc * 2 % 2 ^ 32) 79764919 else crc * 2 % 2 ^ 32

pub crc_bits : ℕ → ℕ → ℕ
crc_bits zero crc = crc
crc_bits (suc n) crc = crc_bits n (crc_bit crc)

pub crc_bytes : ℕ → List ℕ → ℕ
crc_bytes crc [] = crc
crc_bytes crc (x ∷ b) = crc_bytes (crc_bits 8 (xor 32 crc (x * 2 ^ 24))) b

unfoldable pub crc32mpeg : List ℕ → ℕ
unfolding crc_bytes crc_bits crc_bit xor
crc32mpeg b = crc_bytes 4294967295 b

abbrev pub u32_bytes : ℕ → List ℕ
u32_bytes x = byte_at 24 x ∷ byte_at 16 x ∷ byte_at 8 x ∷ byte_at 0 x ∷ []

-- 33 bits, the highest in a byte with reserved bits.
abbrev pub u33_bytes : ℕ → ℕ → List ℕ
u33_bytes reserved x = (reserved + x / 2 ^ 32 % 2) ∷ u32_bytes x

abbrev pub insert_flags : SpliceInsert → ℕ
insert_flags s = 15 + when s.out 128 + 64 + when (ltb 0 s.duration_ticks) 32 + when s.immediate 16

unfoldable pub encode_duration : SpliceInsert → List ℕ
encode_duration s =
    if ltb 0 s.duration_ticks then u33_bytes (126 + when s.auto_return 128) s.duration_ticks else []

abbrev pub encode_rest : SpliceInsert → List ℕ
encode_rest s =
    byte_at 8 s.unique_program_id
    ∷ byte_at 0 s.unique_program_id
    ∷ byte_at 0 s.avail_num
    ∷ byte_at 0 s.avails_expected
    ∷ []

-- The command; none is a splice that is not immediate and has no time.
unfoldable pub encode_command : SpliceInsert → Option (List ℕ)
encode_command s =
    if s.cancel
    then some (u32_bytes s.event_id ++ 255 ∷ [])
    else if s.immediate
    then some (u32_bytes s.event_id ++ 127 ∷ insert_flags s ∷ encode_duration s ++ encode_rest s)
    else elim s.pts [
      | none ↦ none
      | some p ↦ some (
          u32_bytes s.event_id
          ++ 127 ∷ insert_flags s ∷ u33_bytes 254 p
          ++ encode_duration s
          ++ encode_rest s)
    ]

-- table_id and section_length, then the body up to the command.
abbrev pub header : ℕ → ℕ → List ℕ
header len cmd_len =
    252
    ∷ (48 + len / 2 ^ 8 % 16)
    ∷ byte_at 0 len
    ∷ 0
    ∷ 0
    ∷ 0
    ∷ 0
    ∷ 0
    ∷ 0
    ∷ 255
    ∷ 255
    ∷ (240 + cmd_len / 2 ^ 8 % 16)
    ∷ byte_at 0 cmd_len
    ∷ 5
    ∷ []

unfoldable pub frame : List ℕ → List ℕ
frame cmd =
    let out = header (13 + length cmd + 4) (length cmd) ++ cmd ++ 0 ∷ 0 ∷ [] in
    out ++ u32_bytes (crc32mpeg out)

abbrev pub too_late : Option ℕ → Bool
too_late none = false
too_late (some p) = leb (2 ^ 33) p

unfoldable pub encode : SpliceInsert → Answer (List ℕ)
encode s =
    if leb (2 ^ 33) s.duration_ticks
    then refused long_duration
    else if too_late s.pts
    then refused late_time
    else elim (encode_command s) [ none ↦ refused no_time | some cmd ↦ done (frame cmd) ]

-- b[i]; every use stands behind a test of the length.
abbrev pub index : List ℕ → ℕ → ℕ
index [] i = 0
index (x ∷ b) zero = x
index (x ∷ b) (suc i) = index b i

abbrev pub u32_of : List ℕ → ℕ → ℕ
u32_of b i =
    index b i * 2 ^ 24 + index b (i + 1) * 2 ^ 16 + index b (i + 2) * 2 ^ 8 + index b (i + 3)

abbrev pub u33_of : List ℕ → ℕ → ℕ
u33_of b i = index b i % 2 * 2 ^ 32 + u32_of b (i + 1)

-- What stands behind the splice time, from a position on.
unfoldable pub decode_rest : List ℕ → ℕ → SpliceInsert → Answer SpliceInsert
decode_rest c p s =
    if ltb (length c) (p + 4)
    then refused short_insert
    else done (record s {
      unique_program_id = index c p * 2 ^ 8 + index c (p + 1);
      avail_num = index c (p + 2);
      avails_expected = index c (p + 3);
    })

unfoldable pub decode_duration : List ℕ → ℕ → SpliceInsert → Answer SpliceInsert
decode_duration c p s =
    if has_bit 5 (index c 5)
    then (if ltb (length c) (p + 5)
        then refused short_insert
        else decode_rest c (p + 5)
            (record s { auto_return = has_bit 7 (index c p); duration_ticks = u33_of c p }))
    else decode_rest c p s

unfoldable pub decode_time : List ℕ → SpliceInsert → Answer SpliceInsert
decode_time c s =
    if s.immediate
    then decode_duration c 6 s
    else if ltb (length c) 7
    then refused short_insert
    else if has_bit 7 (index c 6)
    then (if ltb (length c) 11
        then refused short_insert
        else decode_duration c 11 (record s { pts = some (u33_of c 6) }))
    else decode_duration c 7 s

-- A splice_insert of which only the number is known.
abbrev pub numbered : ℕ → SpliceInsert
numbered id = record {
  event_id = id;
  cancel = false;
  out = false;
  immediate = false;
  pts = none;
  duration_ticks = 0;
  auto_return = false;
  unique_program_id = 0;
  avail_num = 0;
  avails_expected = 0;
}

unfoldable pub decode_insert : List ℕ → Answer SpliceInsert
decode_insert c =
    if ltb (length c) 5
    then refused short_insert
    else if has_bit 7 (index c 4)
    then done (record (numbered (u32_of c 0)) { cancel = true })
    else if ltb (length c) 6
    then refused short_insert
    else if not (has_bit 6 (index c 5))
    then refused component_splice
    else decode_time c (record (numbered (u32_of c 0)) {
      out = has_bit 7 (index c 5);
      immediate = has_bit 4 (index c 5);
    })

unfoldable pub decode_command : List ℕ → Section → Answer Section
decode_command cmd s = if not (s.command_type == 5) then done s else elim (decode_insert cmd) [
  | done i ↦ done (record s { insert = some i })
  | refused r ↦ refused r
]

unfoldable pub decode : List ℕ → Answer Section
decode b =
    let cmd_len = index b 11 % 16 * 2 ^ 8 + index b 12 in
    if ltb (length b) 18
    then refused short_section
    else if not (index b 0 == 252)
    then refused table_id
    else if not (index b 1 % 16 * 2 ^ 8 + index b 2 + 3 == length b)
    then refused section_length
    else if not (crc32mpeg (take (length b - 4) b) == u32_of b (length b - 4))
    then refused crc_mismatch
    else if not (index b 3 == 0)
    then refused version
    else if has_bit 7 (index b 4)
    then refused encrypted
    else if cmd_len == 4095
    then refused command_length
    else if ltb (length b - 4 - 2) (14 + cmd_len)
    then refused command_overrun
    else decode_command (take cmd_len (drop 14 b))
        (record { pts_adjustment = u33_of b 4; command_type = index b 13; insert = none })

-- Out: the message that starts a break of some seconds at once; uint64(seconds) * TickRate wraps around.
abbrev pub tick_rate : ℕ
tick_rate = 90000

abbrev pub break_out : ℕ → ℕ → SpliceInsert
break_out id seconds = record (numbered id) {
  out = true;
  immediate = true;
  duration_ticks = seconds * tick_rate % 2 ^ 64;
  auto_return = true;
  avails_expected = 1;
}

abbrev pub break_in : ℕ → SpliceInsert
break_in id = record (numbered id) { immediate = true }

unfoldable pub out_message : ℕ → ℕ → Answer (List ℕ)
out_message id seconds = encode (break_out id seconds)

unfoldable pub in_message : ℕ → Answer (List ℕ)
in_message id = encode (break_in id)

-- Null
unfoldable pub null_message : List ℕ
null_message =
    let out = 252 ∷ 48 ∷ 17 ∷ 0 ∷ 0 ∷ 0 ∷ 0 ∷ 0 ∷ 0 ∷ 255 ∷ 255 ∷ 240 ∷ 0 ∷ 0 ∷ 0 ∷ 0 ∷ [] in
    out ++ u32_bytes (crc32mpeg out)

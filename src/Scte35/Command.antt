-- ===== src/Scte35/Command.antt =====
-- The bytes of a splice_insert, read by decodeInsert piece by piece.
use fast_tv_playout_core.Base.{
  ℕ, ◌+◌, ◌*◌, ◌^◌, ◌≤◌, ◌<◌, ◌≡◌, inl, inr, refl, sym, ap, subst, ◌∙◌, Bool, true, false, ◌&&◌,
  Bool-cases, Option, none, some, List, [], ◌∷◌, ◌++◌, length-append, ltb, length, arith,
}
use mathlib.Core.List.{append_assoc}
use fast_tv_playout_core.Scte35.{
  SpliceInsert, done, index, encode_duration, encode_rest, decode_insert, decode_time,
  decode_duration, decode_rest, numbered, has_bit, when, u32_bytes, u33_bytes, u32_of, u33_of,
  insert_flags, too_late,
}
use fast_tv_playout_core.Scte35.Frame.{u32_bytes_back, index-append}

module _ (c : List ℕ) (s : SpliceInsert) where
  decode_rest_passes :
      (p u a e : ℕ)
      → p + 4 ≤ length c
      → index c p * 2 ^ 8 + index c (p + 1) ≡ u
      → index c (p + 2) ≡ a
      → index c (p + 3) ≡ e
      → decode_rest c p s
        ≡ done (record s { unique_program_id = u; avail_num = a; avails_expected = e })
  unfolding decode_rest
  decode_rest_passes p u a e l hu ha he = rw (hu, ha, he) (ground arith)

  decode_duration_given :
      (p d : ℕ) (r : Bool)
      → has_bit 5 (index c 5) ≡ true
      → p + 5 ≤ length c
      → has_bit 7 (index c p) ≡ r
      → u33_of c p ≡ d
      → decode_duration c p s
        ≡ decode_rest c (p + 5) (record s { auto_return = r; duration_ticks = d })
  unfolding decode_duration
  decode_duration_given p d r h l hr hd = rw (hr, hd, h) (ground arith)

  decode_duration_none :
      (p : ℕ) → has_bit 5 (index c 5) ≡ false → decode_duration c p s ≡ decode_rest c p s
  unfolding decode_duration
  decode_duration_none p h = rw h refl

  decode_time_now : s.immediate ≡ true → decode_time c s ≡ decode_duration c 6 s
  unfolding decode_time
  decode_time_now h = rw h refl

  decode_time_at :
      (t : ℕ)
      → s.immediate ≡ false
      → 11 ≤ length c
      → has_bit 7 (index c 6) ≡ true
      → u33_of c 6 ≡ t
      → decode_time c s ≡ decode_duration c 11 (record s { pts = some t })
  unfolding decode_time
  decode_time_at t h l b ht = rw (h, b, ht) (ground arith)

decode_insert_full :
    (c : List ℕ) (id : ℕ) (out now : Bool)
    → 6 ≤ length c
    → index c 4 < 128
    → has_bit 6 (index c 5) ≡ true
    → u32_of c 0 ≡ id
    → has_bit 7 (index c 5) ≡ out
    → has_bit 4 (index c 5) ≡ now
    → decode_insert c ≡ decode_time c (record (numbered id) { out = out; immediate = now })
unfolding decode_insert
decode_insert_full c id out now l h b hi ho hn = rw (hi, ho, hn, b) (ground arith)

flag_out : (s : SpliceInsert) → has_bit 7 (insert_flags s) ≡ s.out
flag_out s = ground arith

flag_program : (s : SpliceInsert) → has_bit 6 (insert_flags s) ≡ true
flag_program s = ground arith

flag_duration : (s : SpliceInsert) → has_bit 5 (insert_flags s) ≡ ltb 0 s.duration_ticks
flag_duration s = ground arith

flag_immediate : (s : SpliceInsert) → has_bit 4 (insert_flags s) ≡ s.immediate
flag_immediate s = ground arith

-- The numbers of a splice_insert fit into their fields.
pub record IsRanged (s : SpliceInsert) : Type 0 where
  pub id : s.event_id < 2 ^ 32
  pub time : too_late s.pts ≡ false
  pub duration : s.duration_ticks < 2 ^ 33
  pub program : s.unique_program_id < 2 ^ 16
  pub num : s.avail_num < 2 ^ 8
  pub expected : s.avails_expected < 2 ^ 8

abbrev pub told : Option ℕ → SpliceInsert → SpliceInsert
told time s = record s {
  cancel = false;
  pts = time;
  auto_return = ltb 0 s.duration_ticks && s.auto_return;
}

abbrev pub told_first : Option ℕ → SpliceInsert → SpliceInsert
told_first time s = record (numbered s.event_id) {
  out = s.out;
  immediate = s.immediate;
  pts = time;
}

-- A position behind a part that has been read.
index_behind : (pre ys : List ℕ) (i j : ℕ) → length pre + i ≡ j → index (pre ++ ys) j ≡ index ys i
index_behind pre ys i j e = ap (index (pre ++ ys)) (sym e) ∙ index-append pre ys i

module _ (s : SpliceInsert) (r : IsRanged s) where
  -- The last four bytes, from a position on.
  rest_passes :
      (pre : List ℕ) (s' : SpliceInsert) (p : ℕ)
      → length pre ≡ p
      → decode_rest (pre ++ encode_rest s) p s'
        ≡ done (record s' {
          unique_program_id = s.unique_program_id;
          avail_num = s.avail_num;
          avails_expected = s.avails_expected;
        })
  rest_passes pre s' p l =
      decode_rest_passes (pre ++ encode_rest s) s' p s.unique_program_id s.avail_num
        s.avails_expected (omega (arith, length-append pre (encode_rest s)))
        (omega (arith, r.program, at 0 p (omega arith), at 1 (p + 1) (omega arith)))
        (omega (arith, r.num, at 2 (p + 2) (omega arith)))
        (omega (arith, r.expected, at 3 (p + 3) (omega arith)))
    where
      at : (i j : ℕ) → length pre + i ≡ j → index (pre ++ encode_rest s) j ≡ index (encode_rest s) i
      at = index_behind pre (encode_rest s)

  tail_without :
      (pre : List ℕ) (time : Option ℕ) (p : ℕ)
      → length pre ≡ p
      → ltb 0 s.duration_ticks ≡ false
      → has_bit 5 (index (pre ++ encode_rest s) 5) ≡ false
      → decode_duration (pre ++ encode_rest s) p (told_first time s) ≡ done (told time s)
  tail_without pre time p l none_given f = rw none_given (
      decode_duration_none (pre ++ encode_rest s) (told_first time s) p f
      ∙ rest_passes pre (told_first time s) p l
      ∙ ap
          (λ d.
            done (record s { cancel = false; pts = time; duration_ticks = d; auto_return = false }))
          (ground arith))

  -- The bytes of the duration.
  lasting : List ℕ
  lasting = u33_bytes (126 + when s.auto_return 128) s.duration_ticks

  tail_with :
      (pre : List ℕ) (time : Option ℕ) (p : ℕ)
      → length pre ≡ p
      → ltb 0 s.duration_ticks ≡ true
      → has_bit 5 (index (pre ++ (lasting ++ encode_rest s)) 5) ≡ true
      → decode_duration (pre ++ (lasting ++ encode_rest s)) p (told_first time s)
        ≡ done (told time s)
  unfolding lasting
  tail_with pre time p l given f = rw given (
      decode_duration_given (pre ++ (lasting ++ encode_rest s)) (told_first time s) p
        s.duration_ticks s.auto_return f
        (omega (arith, length-append pre (lasting ++ encode_rest s)))
        (ground (arith, at 0 p (omega arith)))
        (ground (
          arith,
          r.duration,
          at 0 p (omega arith),
          at 1 (p + 1) (omega arith),
          at 2 (p + 1 + 1) (omega arith),
          at 3 (p + 1 + 2) (omega arith),
          at 4 (p + 1 + 3) (omega arith),
        ))
      ∙ subst (λ c. decode_rest c (p + 5) timed ≡ done (record s { cancel = false; pts = time }))
          (append_assoc pre lasting (encode_rest s))
          (rest_passes (pre ++ lasting) timed (p + 5) (omega (arith, length-append pre lasting))))
    where
      at :
          (i j : ℕ)
          → length pre + i ≡ j
          → index (pre ++ (lasting ++ encode_rest s)) j ≡ index (lasting ++ encode_rest s) i
      at = index_behind pre (lasting ++ encode_rest s)

      timed : SpliceInsert
      timed = record (told_first time s) {
        auto_return = s.auto_return;
        duration_ticks = s.duration_ticks;
      }

  duration_given : ltb 0 s.duration_ticks ≡ true → encode_duration s ≡ lasting
  unfolding encode_duration lasting
  duration_given h = rw h refl

  duration_none : ltb 0 s.duration_ticks ≡ false → encode_duration s ≡ []
  unfolding encode_duration
  duration_none h = rw h refl

  tail_passes :
      (pre : List ℕ) (time : Option ℕ) (p : ℕ)
      → length pre ≡ p
      → ((ys : List ℕ) → has_bit 5 (index (pre ++ ys) 5) ≡ ltb 0 s.duration_ticks)
      → decode_duration (pre ++ (encode_duration s ++ encode_rest s)) p (told_first time s)
        ≡ done (told time s)
  tail_passes pre time p l f = elim (Bool-cases (ltb 0 s.duration_ticks)) [
    | inl given ↦
        subst
          (λ t.
            decode_duration (pre ++ (t ++ encode_rest s)) p (told_first time s)
            ≡ done (told time s))
          (sym (duration_given given))
          (tail_with pre time p l given (f (lasting ++ encode_rest s) ∙ given))
    | inr none_given ↦
        subst
          (λ t.
            decode_duration (pre ++ (t ++ encode_rest s)) p (told_first time s)
            ≡ done (told time s))
          (sym (duration_none none_given))
          (tail_without pre time p l none_given (f (encode_rest s) ∙ none_given))
  ]

  -- The six bytes before a time or a duration.
  unfoldable pub start : List ℕ
  start = u32_bytes s.event_id ++ (127 ∷ insert_flags s ∷ [])

  start_passes :
      (ys : List ℕ) → decode_insert (start ++ ys) ≡ decode_time (start ++ ys) (told_first none s)
  unfolding start
  start_passes ys =
      decode_insert_full (start ++ ys) s.event_id s.out s.immediate (omega arith) (omega arith)
        (flag_program s) (u32_bytes_back s.event_id r.id) (flag_out s) (flag_immediate s)

  pub at_once_passes :
      s.immediate ≡ true
      → decode_insert (start ++ (encode_duration s ++ encode_rest s)) ≡ done (told none s)
  unfolding start
  at_once_passes now =
      start_passes (encode_duration s ++ encode_rest s)
      ∙ decode_time_now (start ++ (encode_duration s ++ encode_rest s)) (told_first none s) now
      ∙ tail_passes start none 6 refl (λ ys. flag_duration s)

  unfoldable pub start_at : ℕ → List ℕ
  start_at t = start ++ u33_bytes 254 t

  pub at_time_passes :
      (t : ℕ)
      → s.immediate ≡ false
      → t < 2 ^ 33
      → decode_insert (start_at t ++ (encode_duration s ++ encode_rest s)) ≡ done (told (some t) s)
  unfolding start start_at
  at_time_passes t later h =
      start_passes (u33_bytes 254 t ++ (encode_duration s ++ encode_rest s))
      ∙ decode_time_at (start_at t ++ (encode_duration s ++ encode_rest s)) (told_first none s) t
          later (omega arith) (ground arith) (omega arith)
      ∙ tail_passes (start_at t) (some t) 11 refl (λ ys. flag_duration s)

  pub cancel_passes :
      decode_insert (u32_bytes s.event_id ++ (255 ∷ []))
      ≡ done (record (numbered s.event_id) { cancel = true })
  unfolding decode_insert
  cancel_passes =
      ap (λ i. done (record (numbered i) { cancel = true })) (u32_bytes_back s.event_id r.id)

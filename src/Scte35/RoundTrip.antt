-- ===== src/Scte35/RoundTrip.antt =====
-- A splice_insert that is encoded is decoded to what it says.
use fast_tv_playout_core.Base.{
  ℕ, ◌^◌, ◌≤◌, ◌<◌, ◌≡◌, inl, inr, refl, ap, subst, ◌∙◌, true, false, Bool-cases, none, some, List,
  [], ◌∷◌, ◌++◌, length-append, ltb, leb, if◌then◌else◌, length, arith,
}
use fast_tv_playout_core.Scte35.{
  Section, SpliceInsert, done, frame, encode, encode_command, encode_duration, encode_rest, decode,
  decode_command, decode_insert, numbered, u32_bytes, too_late,
}
use fast_tv_playout_core.Scte35.Frame.{decode-frame}
use fast_tv_playout_core.Scte35.Command.{
  IsRanged, told, start, start_at, at_once_passes, at_time_passes, cancel_passes,
}

-- What a message tells of a splice_insert: of a cancelled one only its number, no time where it is immediate, and
-- no return by itself where it has no duration.
unfoldable pub as_sent : SpliceInsert → SpliceInsert
as_sent s =
    if s.cancel
    then record (numbered s.event_id) { cancel = true }
    else told (if s.immediate then none else s.pts) s

-- A splice_insert for which there is a message: it is cancelled, or at once, or has a time.
pub data IsTimed (s : SpliceInsert) : Type 0 where
  cancelled : s.cancel ≡ true → IsTimed s
  at_once : s.cancel ≡ false → s.immediate ≡ true → IsTimed s
  at_time : (t : ℕ) → s.cancel ≡ false → s.immediate ≡ false → s.pts ≡ some t → IsTimed s

abbrev pub section_of : SpliceInsert → Section
section_of i = record { pts_adjustment = 0; command_type = 5; insert = some i }

length-encode_duration : (s : SpliceInsert) → length (encode_duration s) ≤ 5
unfolding encode_duration
length-encode_duration s = elim (Bool-cases (ltb 0 s.duration_ticks)) [
  | inl e ↦ rw e (omega arith)
  | inr e ↦ rw e (omega arith)
]

module _ (s : SpliceInsert) (r : IsRanged s) where
  -- From a command that is decoded to a message that is.
  encoded :
      (cmd : List ℕ) (i : SpliceInsert)
      → encode_command s ≡ some cmd
      → length cmd < 4000
      → decode_insert cmd ≡ done i
      → (b : List ℕ) × (encode s ≡ done b) × (decode b ≡ done (section_of i))
  unfolding encode decode_command
  encoded cmd i e l d = (frame cmd, rw (long, r.time, e) refl, decode-frame cmd l ∙ rw d refl)
    where
      long : leb (2 ^ 33) s.duration_ticks ≡ false
      long = ground (arith, r.duration)

  command_cancelled : s.cancel ≡ true → encode_command s ≡ some (u32_bytes s.event_id ++ (255 ∷ []))
  unfolding encode_command
  command_cancelled c = rw c refl

  command_at_once :
      s.cancel ≡ false
      → s.immediate ≡ true
      → encode_command s ≡ some (start s r ++ (encode_duration s ++ encode_rest s))
  unfolding encode_command start
  command_at_once c n = simp (c, n) refl

  command_at_time :
      (t : ℕ)
      → s.cancel ≡ false
      → s.immediate ≡ false
      → s.pts ≡ some t
      → encode_command s ≡ some (start_at s r t ++ (encode_duration s ++ encode_rest s))
  unfolding encode_command start start_at
  command_at_time t c n e = simp (c, n, e) refl

  length-behind :
      (pre : List ℕ) → length pre ≤ 11 → length (pre ++ (encode_duration s ++ encode_rest s)) < 4000
  length-behind pre h = omega (
    arith,
    length-append pre (encode_duration s ++ encode_rest s),
    length-append (encode_duration s) (encode_rest s),
    length-encode_duration s,
  )

  time_fits : (t : ℕ) → s.pts ≡ some t → t < 2 ^ 33
  time_fits t e =
      let early : leb (2 ^ 33) t ≡ false = subst (λ o. too_late o ≡ false) e r.time in ground arith

  sent_cancelled : s.cancel ≡ true → record (numbered s.event_id) { cancel = true } ≡ as_sent s
  unfolding as_sent
  sent_cancelled c = simp c refl

  sent_at_once : s.cancel ≡ false → s.immediate ≡ true → told none s ≡ as_sent s
  unfolding as_sent
  sent_at_once c n = simp (c, n) refl

  sent_at_time :
      (t : ℕ)
      → s.cancel ≡ false
      → s.immediate ≡ false
      → s.pts ≡ some t
      → told (some t) s ≡ as_sent s
  unfolding as_sent
  sent_at_time t c n e = simp (c, n, e) refl

  -- A splice_insert whose numbers fit into their fields, and which is cancelled, or immediate, or has a splice
  -- time, is encoded, and the message is decoded to what it tells of it: only the number where it is cancelled;
  -- otherwise every field, without a splice time where it is immediate and without auto_return where it has no
  -- duration.
  pub decode-encode :
      IsTimed s → (b : List ℕ) × (encode s ≡ done b) × (decode b ≡ done (section_of (as_sent s)))
  decode-encode (cancelled c) =
      encoded _ (as_sent s) (command_cancelled c) (omega arith)
        (cancel_passes s r ∙ ap done (sent_cancelled c))
  decode-encode (at_once c n) =
      encoded _ (as_sent s) (command_at_once c n)
        (length-behind (start s r) (unfold start in omega arith))
        (at_once_passes s r n ∙ ap done (sent_at_once c n))
  decode-encode (at_time t c n e) =
      encoded _ (as_sent s) (command_at_time t c n e)
        (length-behind (start_at s r t) (unfold start start_at in omega arith))
        (at_time_passes s r t n (time_fits t e) ∙ ap done (sent_at_time t c n e))

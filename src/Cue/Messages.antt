-- ===== src/Cue/Messages.antt =====
-- The messages that the program sends are commands that it understands.
use fast_tv_playout_core.Base.{
  ℕ, ◌*◌, ◌%◌, ◌^◌, ◌<◌, ◌≡◌, refl, ap, ◌∙◌, true, false, List, [], String, arith,
}
use fast_tv_playout_core.Scte35.{
  SpliceInsert, done, encode, break_out, break_in, out_message, in_message, tick_rate,
}
use fast_tv_playout_core.Scte35.Command.{IsRanged}
use fast_tv_playout_core.Scte35.RoundTrip.{IsTimed, at_once, as_sent, decode-encode}
use fast_tv_playout_core.Cue.{command, cue, cue_decoded, cue_section, cue_insert, seconds_of}

-- A message that can be sent is taken for what it says.
pub cue-encode :
    (s : SpliceInsert) (at : String)
    → IsRanged s
    → IsTimed s
    → (b : List ℕ) × (encode s ≡ done b) × (cue b at ≡ cue_insert b at (as_sent s))
unfolding cue cue_decoded cue_section
cue-encode s at r t =
    let (b, sent, taken) = decode-encode s r t in (b, sent, ap (cue_decoded b at) taken)

break_out-IsRanged : (id secs : ℕ) → id < 2 ^ 32 → secs < 95444 → IsRanged (break_out id secs)
break_out-IsRanged id secs h k = record {
  id = h;
  time = refl;
  duration = omega arith;
  program = omega arith;
  num = omega arith;
  expected = omega arith;
}

break_in-IsRanged : (id : ℕ) → id < 2 ^ 32 → IsRanged (break_in id)
break_in-IsRanged id h = record {
  id = h;
  time = refl;
  duration = omega arith;
  program = omega arith;
  num = omega arith;
  expected = omega arith;
}

cue_insert-out :
    (id secs : ℕ) (raw : List ℕ) (at : String)
    → 0 < secs
    → secs < 95444
    → cue_insert raw at (as_sent (break_out id secs))
      ≡ command
          (record {
            type = "ad_break";
            at = at;
            duration = secs;
            message = raw;
            only_break = false;
          })
          false
unfolding cue_insert as_sent
cue_insert-out id secs raw at h k = rw exact (ground arith)
  where
    exact : seconds_of (secs * tick_rate % 2 ^ 64) ≡ secs
    exact = omega arith

-- The message of Out for an event number below 2^32 and a break of 1 to 95443 seconds is built, and the control
-- API takes it for the command to start a break of exactly that length, with the message itself attached and
-- without a warning.
pub cue-out_message :
    (id secs : ℕ) (at : String)
    → id < 2 ^ 32
    → 0 < secs
    → secs < 95444
    → (b : List ℕ) × (out_message id secs ≡ done b)
      × (cue b at
          ≡ command
              (record {
                type = "ad_break";
                at = at;
                duration = secs;
                message = b;
                only_break = false;
              })
              false)
unfolding out_message
cue-out_message id secs at h p k =
    let (b, sent, taken) =
      cue-encode (break_out id secs) at (break_out-IsRanged id secs h k) (at_once refl refl) in
    (b, sent, taken ∙ cue_insert-out id secs b at p k)

-- The message of In for an event number below 2^32 is built, and the control API takes it for the command to
-- skip what is on the air if that is an ad break.
pub cue-in_message :
    (id : ℕ) (at : String)
    → id < 2 ^ 32
    → (b : List ℕ) × (in_message id ≡ done b)
      × (cue b at
          ≡ command
              (record { type = "skip"; at = at; duration = 0; message = []; only_break = true })
              false)
unfolding in_message
cue-in_message id at h =
    let (b, sent, taken) =
      cue-encode (break_in id) at (break_in-IsRanged id h) (at_once refl refl) in
    (b, sent, taken ∙ unfold cue_insert as_sent in refl)

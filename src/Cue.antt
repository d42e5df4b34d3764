-- ===== src/Cue.antt =====
-- services/control-api/commands.go: the handler that takes an SCTE-35 message for a command.
pub mod Messages
mod Tests
use fast_tv_playout_core.Base.{
  ℕ, ◌+◌, ◌/◌, ◌-◌, Bool, true, false, not, Option, none, some, List, [], ◌∷◌, ltb, if◌then◌else◌,
  String,
}
use fast_tv_playout_core.Scte35.{
  SpliceInsert, Section, Refusal, Answer, done, refused, decode, tick_rate,
}

-- commandIn: the fields that the handler sets. The message is kept as its bytes.
pub record CommandIn : Type 0 where
  pub type : String
  pub at : String
  pub duration : ℕ
  pub message : List ℕ
  pub only_break : Bool

pub data CueFault : Type 0 where
  bad_message : Refusal → CueFault
  not_insert cancelled no_duration : CueFault

pub data Cue : Type 0 where
  command : CommandIn → Bool → Cue
  fault : CueFault → Cue

-- The ticks in whole seconds, rounded up.
abbrev pub seconds_of : ℕ → ℕ
seconds_of ticks = (ticks + tick_rate - 1) / tick_rate

-- The command of a splice_insert; the Bool tells of the warning that its time is not used.
unfoldable pub cue_insert : List ℕ → String → SpliceInsert → Cue
cue_insert raw at ins =
    if ins.cancel
    then fault cancelled
    else if ins.out
    then (if ltb (seconds_of ins.duration_ticks) 1
        then fault no_duration
        else command
            (record {
              type = "ad_break";
              at = at;
              duration = seconds_of ins.duration_ticks;
              message = raw;
              only_break = false;
            })
            (not ins.immediate))
    else command (record { type = "skip"; at = at; duration = 0; message = []; only_break = true })
        false

cue_section : List ℕ → String → Option SpliceInsert → Cue
cue_section raw at none = fault not_insert
cue_section raw at (some ins) = cue_insert raw at ins

cue_decoded : List ℕ → String → Answer Section → Cue
unfolding cue_section
cue_decoded raw at (refused r) = fault (bad_message r)
cue_decoded raw at (done s) = cue_section raw at s.insert

unfoldable pub cue : List ℕ → String → Cue
unfolding cue_decoded
cue raw at = cue_decoded raw at (decode raw)

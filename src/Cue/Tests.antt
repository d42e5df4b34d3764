-- ===== src/Cue/Tests.antt =====
-- A break of thirty seconds, and the return from it.
use fast_tv_playout_core.Base.{◌≡◌, true, false, List, [], ℕ, arith}
use fast_tv_playout_core.Scte35.{done, out_message, in_message}
use fast_tv_playout_core.Cue.{command, cue}
use fast_tv_playout_core.Cue.Messages.{cue-out_message, cue-in_message}

cue-out_message_example :
    (b : List ℕ) × (out_message 7 30 ≡ done b)
    × (cue b "now"
        ≡ command
            (record {
              type = "ad_break";
              at = "now";
              duration = 30;
              message = b;
              only_break = false;
            })
            false)
cue-out_message_example = cue-out_message 7 30 "now" (omega arith) (omega arith) (omega arith)

cue-in_message_example :
    (b : List ℕ) × (in_message 7 ≡ done b)
    × (cue b "now"
        ≡ command
            (record { type = "skip"; at = "now"; duration = 0; message = []; only_break = true })
            false)
cue-in_message_example = cue-in_message 7 "now" (omega arith)

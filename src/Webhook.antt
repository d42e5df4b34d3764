-- ===== src/Webhook.antt =====
-- pkg/events/webhook.go: the queue of an endpoint, and the delivery of one event. What Go's library does to strings, and
-- what a receiver answers, are parameters.
pub mod Line
pub mod Attempts
mod Tests
use fast_tv_playout_core.Base.{
  ℕ, zero, suc, ◌+◌, ◌*◌, ◌==◌, Bool, true, false, not, ◌&&◌, ◌||◌, List, [], ◌∷◌, ◌++◌, ltb, leb,
  if◌then◌else◌, length, Option, none, some, String, str_eq, ℤ, pos, wrap64, ◌*ℤ◌,
}
use fast_tv_playout_core.Clock.{Duration, second}

pub record Endpoint : Type 0 where
  pub url : String
  pub secret : String

-- Parameters: strings.FieldsFunc at ';' and line feeds, strings.TrimSpace, strings.Cut at '|' and strings.HasPrefix.
module _ (fields : String → List String) (trim : String → String) (cut : String → String × String)
    (has_prefix : String → String → Bool) where
  parse_rest : String × String → Option (List Endpoint) → Option (List Endpoint)
  parse_rest (url, secret) rest =
      if not (has_prefix (trim url) "http://") && not (has_prefix (trim url) "https://")
      then none
      else elim rest [
        | none ↦ none
        | some out ↦ some (record { url = trim url; secret = trim secret } ∷ out)
      ]

  pub parse_parts : List String → Option (List Endpoint)
  unfolding parse_rest
  parse_parts [] = some []
  parse_parts (part ∷ parts) =
      let rest = parse_parts parts in
      if str_eq (trim part) "" then rest else parse_rest (cut (trim part)) rest

  -- ParseEndpoints
  unfoldable pub parse_endpoints : String → Option (List Endpoint)
  unfolding parse_parts
  parse_endpoints s = parse_parts (fields s)

-- Sender, without the client and the log.
pub record Sender : Type 0 where
  pub retries : ℕ
  pub backoff : Duration
  pub timeout : Duration

abbrev is_pos_zero : ℤ → Bool
is_pos_zero (pos n) = n == 0
is_pos_zero n = false

pub defaults : Sender → Sender
defaults s = record {
  retries = if s.retries == 0 then 5 else s.retries;
  backoff = if is_pos_zero s.backoff then pos second else s.backoff;
  timeout = if is_pos_zero s.timeout then pos (5 * second) else s.timeout;
}

-- What comes of one request.
pub data Reply : Type 0 where
  no_request unreachable : Reply
  status : ℕ → Reply

pub data Verdict : Type 0 where
  delivered stopped no_request_made gave_up : Verdict
  refused : ℕ → Verdict

-- What the loop does with a reply: it ends, or it goes on to the next attempt.
unfoldable pub judge : Reply → Option Verdict
judge no_request = some no_request_made
judge unreachable = none
judge (status n) =
    if leb 200 n && ltb n 300
    then some delivered
    else if n == 408 || n == 429 || leb 500 n
    then none
    else some (refused n)

-- What was done: the verdict, the attempts, and the pauses between them.
pub record Delivery : Type 0 where
  pub verdict : Verdict
  pub attempts : ℕ
  pub pauses : List Duration

-- pause *= 2
abbrev pub doubled : Duration → Duration
doubled d = wrap64 (d *ℤ pos 2)

-- Parameters: the reply to an attempt, and whether the sender is stopped in the pause before it.
module _ (reply : ℕ → Reply) (halts : ℕ → Bool) where
  -- The attempts from one on; the first of them is preceded by a pause, unless it is attempt 0.
  pub after_reply : Option Verdict → Delivery → Delivery
  after_reply (some v) rest = record { verdict = v; attempts = 1; pauses = [] }
  after_reply none rest = record rest { attempts = suc rest.attempts }

  pub retry_loop : ℕ → ℕ → Duration → Delivery
  unfolding judge after_reply
  retry_loop zero attempt pause = record { verdict = gave_up; attempts = 0; pauses = [] }
  retry_loop (suc left) attempt pause =
      let rest = retry_loop left (suc attempt) (doubled pause) in
      if halts attempt
      then record { verdict = stopped; attempts = 0; pauses = pause ∷ [] }
      else let d = after_reply (judge (reply attempt)) rest in
        record d { pauses = pause ∷ d.pauses }

  -- deliver
  unfoldable pub deliver : Sender → Delivery
  unfolding retry_loop
  deliver s = after_reply (judge (reply 0)) (retry_loop s.retries 1 s.backoff)

-- ===== src/Outbox/Dispatch.antt =====
-- internal/outbox/outbox.go: `handle`, and the counts of `Tick`. What the collaborators answer is a
-- field of `Answers`; the result comes with the call to the store. Logging is left out.
use probehive.Base.{
  suc, Bool, true, false, not, ◌||◌, ◌&&◌, Option, none, some, List, [], ◌∷◌, length, map,
  if◌then◌else◌,
}
use probehive.Base.Int.{ℤ, pos, leb_ℤ}
use probehive.Base.Time.{Time, Duration, minutes, is_zero, before, after, add}
use probehive.Outbox.Model.{
  Entry, Code, Handled, StoreAnswer, StoreCall, succeeds, fails, HandledOutcome, TickResult,
}
use probehive.Outbox.Retry.{retry_delay}

abbrev pub max_attempts : ℤ
max_attempts = pos 12

abbrev pub gap_timeout : Duration
gap_timeout = minutes 15

pub record Answers : Type 0 where
  pub handler : Option Handled
  pub stopped : Bool
  pub succeed : StoreAnswer
  pub fail : StoreAnswer

-- The failure code and its permanence; no handler is known for the topic where it is `none`.
unfoldable pub failure_of : Option Handled → Bool → Code × Bool
failure_of none stopped = (Code.topic_unknown, true)
failure_of (some Handled.done) stopped = (Code.empty, false)
failure_of (some (Handled.failure code permanent)) stopped = (code, permanent)
failure_of (some Handled.broken) stopped =
    (if stopped then Code.handler_cancelled else Code.handler_failed, false)

abbrev pub is_gap : Code → Bool
is_gap Code.version_gap = true
is_gap _ = false

abbrev pub is_no_failure : Code → Bool
is_no_failure Code.empty = true
is_no_failure _ = false

-- `firstSeen`.
abbrev pub first_seen : Entry → Time → Time
first_seen entry now = if is_zero entry.gap_first_seen_at then now else entry.gap_first_seen_at

unfoldable pub is_dead : Entry → Code → Bool → Time → Bool
is_dead entry code permanent now =
    if is_gap code
    then not (before now (add (first_seen entry now) gap_timeout))
    else permanent || leb_ℤ max_attempts entry.attempts

unfoldable pub next_attempt : Entry → Code → Bool → Time → Time
next_attempt entry code dead now =
    let next = add now (pos (retry_delay entry.id entry.attempts)) in
    if is_gap code && not dead
    then (let deadline = add (first_seen entry now) gap_timeout in
        if after next deadline then deadline else next)
    else next

abbrev pub after_succeed : StoreAnswer → HandledOutcome
after_succeed StoreAnswer.stored = HandledOutcome.succeeded
after_succeed StoreAnswer.lease_lost = HandledOutcome.lost
after_succeed StoreAnswer.failed = HandledOutcome.lost

abbrev pub after_fail : StoreAnswer → Bool → HandledOutcome
after_fail StoreAnswer.stored dead =
    if dead then HandledOutcome.dead_lettered else HandledOutcome.retried
after_fail StoreAnswer.lease_lost dead = HandledOutcome.lost
after_fail StoreAnswer.failed dead = HandledOutcome.lost

unfoldable pub handle : Entry → Answers → Time → StoreCall × HandledOutcome
handle entry answers now =
    let (code, permanent) = failure_of answers.handler answers.stopped in
    if is_no_failure code
    then (succeeds, after_succeed answers.succeed)
    else let dead = is_dead entry code permanent now in
      (fails code (next_attempt entry code dead now) dead, after_fail answers.fail dead)

-- What a goroutine of `Tick` adds to the result, under the mutex.
unfoldable pub count_outcome : HandledOutcome → TickResult → TickResult
count_outcome HandledOutcome.succeeded r = record r { succeeded = suc r.succeeded }
count_outcome HandledOutcome.retried r = record r { retried = suc r.retried }
count_outcome HandledOutcome.dead_lettered r = record r { dead_lettered = suc r.dead_lettered }
count_outcome HandledOutcome.lost r = record r { lost = suc r.lost }

unfoldable pub count_all : List HandledOutcome → TickResult → TickResult
count_all [] r = r
count_all (outcome ∷ rest) r = count_all rest (count_outcome outcome r)

abbrev pub outcome_of : Time → Entry × Answers → HandledOutcome
outcome_of now (entry, answers) = (handle entry answers now).1

-- `Tick` after the claim, the goroutines ending in the order of the list.
unfoldable pub tick : List (Entry × Answers) → Time → TickResult
tick claimed now =
    count_all (map (outcome_of now) claimed)
      (record { claimed = length claimed; succeeded = 0; retried = 0; dead_lettered = 0; lost = 0 })

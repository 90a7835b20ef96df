-- ===== src/Stream.antt =====
-- The event stream of a job (crates/chat/src/events/service.rs, crates/chat/src/events/repository.rs).
-- The connection to the database, the job's identifier and the subscription are not part of the
-- state: a call reads the job's rows as they are, and a notification only wakes the loop.
use text.Mathlib.Text.{◌==◌ as str_eq}
use fineract_ai_backend.Prelude.{
  ℕ, zero, suc, ◌+◌, ◌*◌, String, Bool, true, false, ◌&&◌, ◌||◌, Option, none, some, List, [], ◌∷◌,
  ◌++◌, ltb, leb, min, if◌then◌else◌, where_rows, is_some,
}
use fineract_ai_backend.Store.Vocabulary.{is_terminal}
use fineract_ai_backend.Store.Rows.{JobEvent, JobRows}
pub mod Gaps

-- TERMINAL_EVENTS
unfoldable pub is_terminal_event : String → Bool
is_terminal_event event_type =
    str_eq event_type "job.completed"
    || str_eq event_type "job.failed"
    || str_eq event_type "job.cancelled"
    || str_eq event_type "job.expired"

abbrev pub take : ℕ → List JobEvent → List JobEvent
take zero es = []
take (suc limit) [] = []
take (suc limit) (e ∷ es) = e ∷ take limit es

-- `WHERE sequence > after ORDER BY sequence LIMIT limit`: the rows stand in that order.
unfoldable pub after : ℕ → ℕ → List JobEvent → List JobEvent
after cursor limit events = take limit (where_rows (λ e. ltb cursor e.sequence) events)

-- `SELECT MIN(sequence)`
unfoldable pub earliest : List JobEvent → Option ℕ
earliest [] = none
earliest (e ∷ es) = elim (earliest es) [ none ↦ some e.sequence | some n ↦ some (min e.sequence n) ]

pub record Stream : Type 0 where
  pub cursor : ℕ
  pub pending : List JobEvent
  pub poll_interval : ℕ
  pub poll_interval_max : ℕ
  pub backoff : ℕ
  pub buffer_frames : ℕ
  pub finished : Bool

pub data CursorError : Type 0 where
  ahead purged : CursorError

abbrev is_purged : ℕ → Option ℕ → Bool
is_purged cursor none = false
is_purged cursor (some first) = ltb (cursor + 1) first

-- `none`: the cursor is valid. A cursor is a number here, so it is not negative.
unfoldable pub validate_cursor : ℕ → JobRows → Option CursorError
unfolding earliest
validate_cursor cursor r =
    if ltb r.job.last_event_sequence cursor
    then some ahead
    else if ltb 0 cursor && is_purged cursor (earliest r.events)
    then some purged
    else none

pub data Opened : Type 0 where
  accepted : Stream → Opened
  refused : CursorError → Opened

unfoldable pub open_stream : ℕ → ℕ → ℕ → ℕ → JobRows → Opened
unfolding validate_cursor
open_stream poll_interval poll_interval_max buffer_frames cursor r =
    elim (validate_cursor cursor r) [
      | some error ↦ refused error
      | none ↦ accepted (record {
        cursor = cursor;
        pending = [];
        poll_interval = poll_interval;
        poll_interval_max = poll_interval_max;
        backoff = poll_interval;
        buffer_frames = buffer_frames;
        finished = is_terminal r.job.lifecycle && leb r.job.last_event_sequence cursor;
      })
    ]

abbrev grow_backoff : Stream → Stream
grow_backoff s = record s { backoff = min (s.backoff * 2) s.poll_interval_max }

abbrev pub extend : List JobEvent → Stream → Stream × Bool
extend [] s = (s, false)
extend (e ∷ es) s = (record s { backoff = s.poll_interval; pending = s.pending ++ e ∷ es }, true)

-- `events` is the job's log as the database holds it: `none` is an error of the database.
unfoldable pub fill : Option (List JobEvent) → Stream → Stream × Bool
unfolding after
fill none s = (grow_backoff s, false)
fill (some events) s = extend (after s.cursor s.buffer_frames events) s

-- `timeout(backoff, wait_for_notification())`
unfoldable pub idle : Bool → Stream → Stream
idle notified s = if notified then record s { backoff = s.poll_interval } else grow_backoff s

-- What one round of the loop of `next` comes to.
pub data Round : Type 0 where
  sent : JobEvent → Round
  ended again : Round

-- The rounds with nothing to send: the stream has ended, or it reads, and waits if that gave nothing.
unfoldable pub read_round : Option (List JobEvent) → Bool → Stream → Stream × Round
unfolding fill idle
read_round events notified s =
    if s.finished
    then (s, ended)
    else let (filled, progress) = fill events s in
      (if progress then filled else idle notified filled, again)

-- `pending.pop_front()`, or else such a round
abbrev pub round_with : Option (List JobEvent) → Bool → List JobEvent → Stream → Stream × Round
round_with events notified (e ∷ es) s = (
  record s {
    pending = es;
    cursor = e.sequence;
    finished = s.finished || is_terminal_event e.event_type;
  },
  sent e,
)
round_with events notified [] s = read_round events notified s

-- `events` is what the database holds in this round, and `notified` whether the wait, if there is
-- one, ends by a notification.
unfoldable pub next_round :
    (events : Option (List JobEvent)) (notified : Bool) → Stream → Stream × Round
unfolding read_round
next_round events notified s = round_with events notified s.pending s

abbrev pub keep : Round → List JobEvent → List JobEvent
keep (sent e) es = e ∷ es
keep _ es = es

-- The frames that a client is sent in a number of rounds, and the stream after them.
unfoldable pub play : List (Option (List JobEvent) × Bool) → Stream → List JobEvent × Stream
unfolding next_round
play [] s = ([], s)
play ((events, notified) ∷ rounds) s =
    let (s', round) = next_round events notified s in
    let (frames, end) = play rounds s' in (keep round frames, end)

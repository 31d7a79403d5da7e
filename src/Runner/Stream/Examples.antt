-- ===== src/Runner/Stream/Examples.antt =====
-- The stream at concrete events (execqueue/runner/sse_handler.py).
use exec_queue.Common.{
  ℕ, Bool, ◌+◌, ◌≡◌, refl, String, true, false, not, ◌||◌, Option, none, some, List, [], ◌∷◌, map,
  length, any, count, is_some, arith, if◌then◌else◌,
}
use exec_queue.Runner.Stream.{
  OpenCodeEvent, new_handler, event_id, is_terminal_event, check_id, remember, is_in,
  stream_events_internal, reset_sequence,
}
use exec_queue.Runner.Stream.Sequence.{from_on, stream_events_internal_lem}
use exec_queue.Runner.Stream.Duplicates.{stream_events_internal_again}

abbrev event : String → Option String → OpenCodeEvent
event kind id = record {
  event_type = kind;
  message_id = none;
  session_id = none;
  data_id = id;
  data_message_id = none;
  data_session_id = none;
}

-- Two events with one identifier, a heartbeat, the end twice.
abbrev events : List OpenCodeEvent
events =
    event "message.part" (some "a")
    ∷ event "message.part" (some "a")
    ∷ event "heartbeat" none
    ∷ event "message.completed" (some "b")
    ∷ []

three_of_four :
    map {B = ℕ × Bool}
      (λ e. (e.sequence, e.is_heartbeat))
      (stream_events_internal events new_handler).0
    ≡ (0, false) ∷ (1, true) ∷ (2, false) ∷ []
unfolding stream_events_internal
three_of_four = refl

-- A handler that keeps a hundred identifiers forgets them all at the next one.
forgets :
    (ids : List String)
    → length ids ≡ 100
    → (check_id (some "x") ids).1 ≡ (if is_in "x" ids then ids else [])
unfolding check_id remember
forgets ids full = ground (arith, full)

-- After a reset the handler is a new one.
reset_new : reset_sequence (stream_events_internal events new_handler).1 ≡ new_handler
unfolding reset_sequence
reset_new = refl

stream_events_internal_lem_example :
    let (yielded, h') = stream_events_internal events new_handler in
    (map (λ e. e.sequence) yielded ≡ from_on 0 (length yielded))
    × (h'.sequence ≡ 0 + length yielded)
    × (h'.terminal_event_received ≡ (false || any is_terminal_event events))
stream_events_internal_lem_example = stream_events_internal_lem events new_handler

stream_events_internal_again_example :
    let (_, h') = stream_events_internal events new_handler in
    length (stream_events_internal events h').0 ≡ count (λ e. not (is_some (event_id e))) events
stream_events_internal_again_example = stream_events_internal_again events new_handler (omega arith)

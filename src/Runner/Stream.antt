-- ===== src/Runner/Stream.antt =====
-- execqueue/runner/sse_handler.py, the class `SSEEventHandler`. The data of an event are the three keys
-- that are read; a value that is false is the empty text. The payload and the time of receipt are left
-- out. A stream is the list of the events that the client gives until it ends.
mod Examples
pub mod Duplicates
pub mod Sequence
use exec_queue.Common.{
  ℕ, ◌+◌, String, Bool, true, false, ◌||◌, Option, none, some, List, [], ◌∷◌, ◌++◌, length, ltb,
  str_eq, non_empty, truthy, any, if◌then◌else◌,
}

-- What is read of `OpenCodeEvent`, of execqueue/opencode/client.py, and of its data.
pub record OpenCodeEvent : Type 0 where
  pub event_type : String
  pub message_id : Option String
  pub session_id : Option String
  pub data_id : Option String
  pub data_message_id : Option String
  pub data_session_id : Option String

pub record NormalizedEvent : Type 0 where
  pub event_type : String
  pub message_id : Option String
  pub session_id : Option String
  pub sequence : ℕ
  pub is_heartbeat : Bool

-- The fields of the handler that its methods change.
pub record StreamHandler : Type 0 where
  pub sequence : ℕ
  pub last_event_ids : List String
  pub terminal_event_received : Bool

abbrev pub new_handler : StreamHandler
new_handler = record { sequence = 0; last_event_ids = []; terminal_event_received = false }

abbrev pub heartbeat_event_types : List String
heartbeat_event_types = "heartbeat" ∷ "stream.heartbeat" ∷ []

abbrev pub terminal_event_types : List String
terminal_event_types =
    "message.completed" ∷ "message.failed" ∷ "message.cancelled" ∷ "execution.completed"
    ∷ "execution.failed" ∷ []

-- `i in ids`
abbrev pub is_in : String → List String → Bool
is_in i ids = any (λ j. str_eq j i) ids

-- `a or b`
abbrev or_else : Option String → Option String → Option String
or_else a b = if truthy a then a else b

pub normalize_event : ℕ → OpenCodeEvent → NormalizedEvent
normalize_event sequence e = record {
  event_type = e.event_type;
  message_id = or_else (or_else e.message_id e.data_id) e.data_message_id;
  session_id = or_else e.session_id e.data_session_id;
  sequence = sequence;
  is_heartbeat = is_in e.event_type heartbeat_event_types;
}

abbrev if_true : String → Option String
if_true i = if non_empty i then some i else none

-- The identifier that `_is_duplicate` looks for: the key "id" decides even with a value that is false.
abbrev event_id : OpenCodeEvent → Option String
event_id e = elim e.data_id [
  | some i ↦ if_true i
  | none ↦ elim e.data_message_id [ some i ↦ if_true i | none ↦ none ]
]

-- The identifiers kept, with a new one: beyond a hundred all are dropped.
pub remember : String → List String → List String
remember i ids = if ltb 100 (length (i ∷ ids)) then [] else i ∷ ids

pub check_id : Option String → List String → Bool × List String
unfolding remember
check_id none ids = (false, ids)
check_id (some i) ids = if is_in i ids then (true, ids) else (false, remember i ids)

-- `_is_duplicate`: the answer, and the identifiers after it.
pub is_duplicate : OpenCodeEvent → List String → Bool × List String
unfolding check_id
is_duplicate e ids = check_id (event_id e) ids

pub is_terminal_event : OpenCodeEvent → Bool
is_terminal_event e = is_in e.event_type terminal_event_types

-- One round of `_stream_events_internal`: what it yields, and the handler after it.
pub on_event : OpenCodeEvent → StreamHandler → List NormalizedEvent × StreamHandler
unfolding is_duplicate normalize_event is_terminal_event
on_event e h =
    let terminal = is_terminal_event e || h.terminal_event_received in
    let (duplicate, ids) = is_duplicate e h.last_event_ids in
    let h' = record h { last_event_ids = ids; terminal_event_received = terminal } in
    if duplicate
    then ([], h')
    else (normalize_event h.sequence e ∷ [], record h' { sequence = h.sequence + 1 })

-- What the loop yields for a stream, and the handler after it.
pub stream_events_internal :
    List OpenCodeEvent → StreamHandler → List NormalizedEvent × StreamHandler
unfolding on_event
stream_events_internal [] h = ([], h)
stream_events_internal (e ∷ es) h =
    let (yielded, h') = on_event e h in
    let (rest, h'') = stream_events_internal es h' in (yielded ++ rest, h'')

pub reset_sequence : StreamHandler → StreamHandler
reset_sequence h = record h { sequence = 0; last_event_ids = []; terminal_event_received = false }

-- ===== src/OpenCode/Events/RoundTrip.antt =====
-- The events of `stream_events` (execqueue/opencode/client.py) and the lines that stand for them.
use exec_queue.Common.{
  append, ℕ, ◌≡◌, refl, ◌∙◌, String, true, false, Option, none, some, List, [], ◌∷◌, ◌++◌, map,
  ◌==◌, All, strip, arith, ap,
}
use exec_queue.Json.{Value, object, Fields, get}
use exec_queue.OpenCode.{ClientError, returned, raised, Http, translate_http}
use exec_queue.OpenCode.Events.{
  OpenCodeEvent, Streamed, failed_stream, yield_event, read_event, read_lines, stream_events,
}

-- What a server sends for an event: its type, its data and an empty line.
abbrev pub event_lines : (Value → String) → String × Fields → List String
event_lines dumps (event_type, fields) =
    append "event: " event_type ∷ append "data: " (dumps (object fields)) ∷ "" ∷ []

abbrev pub lines_of : (Value → String) → List (String × Fields) → List String
lines_of dumps [] = []
lines_of dumps (e ∷ es) = event_lines dumps e ++ lines_of dumps es

abbrev pub event_of : String × Fields → OpenCodeEvent
event_of (event_type, fields) = record {
  event_type = event_type;
  fields = fields;
  message_id = get "id" fields;
  session_id = get "session_id" fields;
}

-- What is read from a line of data on, with the type and the text that were read.
abbrev after_event : (String → Option Value) → List String → String → String → Streamed
after_event loads lines event_type line = elim (read_event loads (some event_type) line) [
  | raised e ↦ failed_stream e
  | returned event ↦ yield_event event (read_lines loads (some event_type) lines)
]

-- The exception that a stream ends with.
abbrev pub translated : Option ClientError → Option ClientError
translated none = none
translated (some e) = some (translate_http e)

-- An event that a stream can carry: its type has no white space at its ends, neither has the text of its
-- data, and the text is read as what was written.
abbrev pub IsSendable : (String → Option Value) → (Value → String) → String × Fields → Type 0
IsSendable loads dumps (event_type, fields) =
    (strip event_type ≡ event_type)
    × (strip (dumps (object fields)) ≡ dumps (object fields))
    × (loads (dumps (object fields)) ≡ some (object fields))

module _ (loads : String → Option Value) (dumps : Value → String) where
  read_lines-lines_of :
      (last : Option String) (es : List (String × Fields))
      → All (IsSendable loads dumps) es
      → read_lines loads last (lines_of dumps es)
        ≡ record { events = map event_of es; failure = none }
  unfolding read_lines
  read_lines-lines_of last [] h = refl
  read_lines-lines_of last ((event_type, fields) ∷ es) ((trimmed, trimmed', reads), h) =
      let e = read_lines-lines_of (some event_type) es h in
      let type_read : strip (String.◌∷◌ " " event_type) ≡ event_type = trimmed in
      let data_read : strip (String.◌∷◌ " " (dumps (object fields))) ≡ dumps (object fields) =
        trimmed' in
      let event_text = strip (String.◌∷◌ " " (dumps (object fields))) in
      ap (λ a. after_event loads (lines_of dumps es) a event_text) type_read
      ∙ ap (after_event loads (lines_of dumps es) event_type) data_read
      ∙ ground (arith, reads, e)

  -- If the connection opens with a status that is a success and not 404, then the events that a server
  -- sends are given as they are, in their order and no others, and the stream ends as its lines do: an
  -- exception of the HTTP client becomes one of the client's. That takes types and texts of data without
  -- white space at their ends, and a reader of JSON that reads what is written.
  pub stream_events-lines_of :
      {S : Type 0} (h : Http S) (status : ℕ) (es : List (String × Fields))
      (broken : Option ClientError)
      → h.is_success status ≡ true
      → (status == 404) ≡ false
      → All (IsSendable loads dumps) es
      → stream_events h loads (returned status) (lines_of dumps es) broken
        ≡ record { events = map event_of es; failure = translated broken }
  unfolding stream_events
  stream_events-lines_of h status es none success found sendable =
      ground (arith, success, found, read_lines-lines_of none es sendable)
  stream_events-lines_of h status es (some e) success found sendable =
      ground (arith, success, found, read_lines-lines_of none es sendable)

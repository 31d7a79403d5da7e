-- ===== src/OpenCode/Events.antt =====
-- `stream_events` of execqueue/opencode/client.py: the URL, and the loop over the lines of a response.
-- `loads` stands for `json.loads`, whose `JSONDecodeError` is `none`.
pub mod RoundTrip
use Prim.Native.String.{◌++◌ as ◌+++◌}
use exec_queue.Common.{
  ℕ, String, Bool, Option, none, some, List, [], ◌∷◌, ◌++◌, ◌==◌, ◌||◌, truthy, drop_chars,
  startswith, strip, if◌then◌else◌,
}
use exec_queue.Json.{Value, null, text, object, Fields, end, field, get}
use exec_queue.OpenCode.{
  ClientError, opencode_api_error, http_status_error, attribute_error, unbound_local_error, Answer,
  returned, raised, Http, Response, translate_http, raise_for_status,
}

pub record OpenCodeEvent : Type 0 where
  pub event_type : String
  pub fields : Fields
  pub message_id : Value
  pub session_id : Value

-- What a stream gives: its events, and the exception that ends it, if one does.
pub record Streamed : Type 0 where
  pub events : List OpenCodeEvent
  pub failure : Option ClientError

abbrev pub failed_stream : ClientError → Streamed
failed_stream e = record { events = []; failure = some e }

abbrev pub yield_event : OpenCodeEvent → Streamed → Streamed
yield_event e s = record s { events = e ∷ s.events }

-- The event of a line of data; a name that no line has set yet is not bound.
unfoldable pub read_event : (String → Option Value) → Option String → String → Answer OpenCodeEvent
read_event loads none line = raised unbound_local_error
read_event loads (some event_type) line = elim (loads line) [
  | none ↦ returned (record {
    event_type = event_type;
    fields = field "raw" (text line) end;
    message_id = null;
    session_id = null;
  })
  | some (object fields) ↦ returned (record {
    event_type = event_type;
    fields = fields;
    message_id = get "id" fields;
    session_id = get "session_id" fields;
  })
  | some _ ↦ raised attribute_error
]

-- The loop over the lines, with the type of event that was set last.
unfoldable pub read_lines : (String → Option Value) → Option String → List String → Streamed
unfolding read_event
read_lines loads event_type [] = record { events = []; failure = none }
read_lines loads event_type (line ∷ lines) =
    let named = read_lines loads (some (strip (drop_chars 6 line))) lines in
    let rest = read_lines loads event_type lines in
    if startswith line "event:"
    then named
    else if startswith line "data:"
    then elim (read_event loads event_type (strip (drop_chars 5 line))) [
      | raised e ↦ failed_stream e
      | returned event ↦ yield_event event rest
    ]
    else rest

-- The exception that ends the lines, if no line has ended the stream.
abbrev end_stream : Option ClientError → Streamed → Streamed
end_stream broken s = elim s.failure [
  | none ↦ record s { failure = elim broken [ none ↦ none | some e ↦ some (translate_http e) ] }
  | some e ↦ record s { failure = some (translate_http e) }
]

abbrev parameter : String → Option String → List (String × String)
parameter key none = []
parameter key (some v) = if truthy (some v) then (key, v) ∷ [] else []

module _ {S : Type 0} (h : Http S) where
  -- The URL with its query parameters, which `urlencode` writes.
  pub event_url :
      (List (String × String) → String) → String → Option String → Option String → String
  event_url urlencode base_url session_id message_id =
      let url = h.urljoin base_url "/event" in
      let params = parameter "session_id" session_id ++ parameter "message_id" message_id in
      if truthy session_id || truthy message_id then url +++ "?" +++ urlencode params else url

  -- The stream: what opening it gives, and the lines that follow, which an exception may end.
  unfoldable pub stream_events :
      (String → Option Value) → Answer ℕ → List String → Option ClientError → Streamed
  unfolding translate_http read_lines
  stream_events loads (raised e) lines broken = failed_stream (translate_http e)
  stream_events loads (returned status) lines broken =
      if status == 404
      then failed_stream (opencode_api_error 404)
      else if h.is_success status
      then end_stream broken (read_lines loads none lines)
      else failed_stream (translate_http (http_status_error status))

-- ===== src/OpenCode/Examples.antt =====
-- The OpenCode client on small services (execqueue/opencode/client.py).
use exec_queue.Common.{
  ℕ, zero, suc, ◌≡◌, refl, String, Option, none, some, [], ◌∷◌, leb, ltb, ◌&&◌, str_eq,
  if◌then◌else◌,
}
use exec_queue.Json.{Value, null, text, array, nil, object, end, field}
use exec_queue.OpenCode.{
  translate_http, timeout_exception, opencode_timeout_error, attribute_error, unbound_local_error,
  returned, raised, Response, Http, validate_response, create_session, dispatch_message,
  get_message,
}
use exec_queue.OpenCode.Failures.{IsHttp, IsExplained, methods-IsExplained}
use exec_queue.OpenCode.Events.{stream_events}
use exec_queue.OpenCode.Events.RoundTrip.{stream_events-lines_of}

abbrev response : ℕ → Value → Response
response status body = record { status_code = status; body = some body }

abbrev answer : ℕ → Response
answer zero = response 404 (object end)
answer (suc n) = response 200 (object (field "id" (text "m1") end))

-- A service that knows no sessions and answers a message at the second address; it counts the posts.
abbrev service : Http ℕ
service = record {
  get = λ url n. (raised timeout_exception, n);
  post = λ url payload n. (returned (answer n), suc n);
  is_success = λ status. leb 200 status && ltb status 300;
  urljoin = λ base path. path;
}

posts_again : (dispatch_message service "http://opencode" "s1" "hello" "user" 0) ≡ (
  returned (record {
    id = text "m1";
    session_id = text "s1";
    status = text "processing";
    content = null;
    error = null;
    created_at = null;
    completed_at = null;
  }),
  2,
)
unfolding dispatch_message
posts_again = refl

-- A body that is a list is not reported as an invalid response.
no_dictionary : validate_response (array nil) ≡ raised attribute_error
unfolding validate_response
no_dictionary = refl

abbrev loads : String → Option Value
loads line = if str_eq line "{}" then some (object end) else none

abbrev dumps : Value → String
dumps v = "{}"

-- Data before any line with a type ends the stream by an exception of Python.
no_type :
    stream_events service loads (returned 200) ("data: {}" ∷ []) none
    ≡ record { events = []; failure = some unbound_local_error }
unfolding stream_events
no_type = refl

posts : (url : String) (payload : Value) (n : ℕ) → IsHttp (service.post url payload n).0
posts url payload zero = tt
posts url payload (suc n) = tt

-- The session is not found, the message is answered at the second address, and its state times out.
methods-IsExplained_example :
    IsExplained service (returned (answer 0)) (create_session service "http://opencode" none 0).0
    × IsExplained service
        (returned (answer 1))
        (dispatch_message service "http://opencode" "s1" "hello" "user" 0).0
    × IsExplained service
        (raised timeout_exception)
        (get_message service "http://opencode" "s1" "m1" 0).0
methods-IsExplained_example =
    methods-IsExplained service (λ url n. tt) posts "http://opencode" "s1" "m1" "hello" "user" none
      0

stream_events-lines_of_example :
    stream_events service loads
      (returned 200)
      ("event: message" ∷ "data: {}" ∷ "" ∷ [])
      (some timeout_exception)
    ≡ record {
      events =
          record { event_type = "message"; fields = end; message_id = null; session_id = null }
          ∷ [];
      failure = some opencode_timeout_error;
    }
unfolding translate_http
stream_events-lines_of_example =
    stream_events-lines_of loads dumps service 200 (("message", end) ∷ []) (some timeout_exception)
      refl refl ((refl, refl, refl), tt)

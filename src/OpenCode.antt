-- ===== src/OpenCode.antt =====
-- execqueue/opencode/client.py, the class `OpenCodeClient` but its stream of events, which is in
-- OpenCode/Events. The HTTP client `httpx` and `urljoin` are the record `Http`, over a state of the
-- service. The texts of errors are left out.
pub mod Events
pub mod Failures
mod Examples
use Prim.Native.String.{◌++◌ as ◌+++◌}
use exec_queue.Common.{
  ℕ, String, Bool, true, false, Option, none, some, ◌==◌, non_empty, truthy, contains,
  if◌then◌else◌,
}
use exec_queue.Json.{
  Value, null, text, array, object, Fields, end, field, get_field, get_default, get, has_text,
}

-- The exceptions: those of the client, those of the HTTP client and of Python.
pub data ClientError : Type 0 where
  opencode_connection_error opencode_timeout_error opencode_validation_error : ClientError
  opencode_api_error : ℕ → ClientError
  connect_error timeout_exception json_decode_error : ClientError
  http_status_error : ℕ → ClientError
  attribute_error type_error unbound_local_error other_error : ClientError

-- What a call gives: a value or an exception.
pub data Answer {ℓ} (A : Type ℓ) : Type ℓ where
  returned : A → Answer A
  raised : ClientError → Answer A

infixl 5 ◌>>=◌
abbrev pub ◌>>=◌ {ℓ κ} : {A : Type ℓ} {B : Type κ} → Answer A → (A → Answer B) → Answer B
returned a >>= f = f a
raised e >>= f = raised e

-- A response: its status, and its body if that is JSON.
pub record Response : Type 0 where
  pub status_code : ℕ
  pub body : Option Value

pub record Http (S : Type 0) : Type 0 where
  pub get : String → S → Answer Response × S
  pub post : String → Value → S → Answer Response × S
  -- the statuses that `raise_for_status` accepts
  pub is_success : ℕ → Bool
  pub urljoin : String → String → String

pub record OpenCodeSession : Type 0 where
  pub id : Value
  pub name : Value
  pub created_at : Value

pub record OpenCodeMessage : Type 0 where
  pub id : Value
  pub session_id : Value
  pub status : Value
  pub content : Value
  pub error : Value
  pub created_at : Value
  pub completed_at : Value

-- `_validate_session_response` and `_validate_message_response`: the key is looked for in whatever the
-- body is, and only a dictionary has the keys that the error shows.
unfoldable pub validate_response : Value → Answer Value
validate_response (object fields) = elim (get_field "id" fields) [
  | none ↦ raised opencode_validation_error
  | some _ ↦ returned (object fields)
]
validate_response (array items) =
    if has_text "id" items then returned (array items) else raised attribute_error
validate_response (text s) = if contains "id" s then returned (text s) else raised attribute_error
validate_response _ = raised type_error

-- `data["id"]`, with the dictionary that it is read from.
unfoldable pub read_id : Value → Answer (Value × Fields)
read_id (object fields) = elim (get_field "id" fields) [
  | none ↦ raised other_error
  | some id ↦ returned (id, fields)
]
read_id _ = raised type_error

abbrev pub read_json : Response → Answer Value
read_json r = elim r.body [ none ↦ raised json_decode_error | some v ↦ returned v ]

abbrev pub session_payload : Option String → Fields
session_payload none = end
session_payload (some name) = if non_empty name then field "name" (text name) end else end

unfoldable pub map_error_category : ClientError → String
map_error_category opencode_connection_error = "connection"
map_error_category opencode_timeout_error = "timeout"
map_error_category (opencode_api_error _) = "http"
map_error_category opencode_validation_error = "invalid_response"
map_error_category connect_error = "connection"
map_error_category timeout_exception = "timeout"
map_error_category (http_status_error _) = "http"
map_error_category json_decode_error = "invalid_response"
map_error_category _ = "unknown"

-- The `except` clauses of `health` and of the stream, and those of the other methods.
unfoldable pub translate_http : ClientError → ClientError
translate_http timeout_exception = opencode_timeout_error
translate_http connect_error = opencode_connection_error
translate_http (http_status_error n) = opencode_api_error n
translate_http e = e

unfoldable pub translate : ClientError → ClientError
unfolding translate_http
translate json_decode_error = opencode_validation_error
translate e = translate_http e

abbrev pub caught {ℓ} : {A : Type ℓ} → (ClientError → ClientError) → Answer A → Answer A
caught f (returned a) = returned a
caught f (raised e) = raised (f e)

abbrev pub new_session : Value × Fields → Answer OpenCodeSession
new_session (id, fields) =
    returned (record { id = id; name = get "name" fields; created_at = get "created_at" fields })

module _ {S : Type 0} (h : Http S) where
  unfoldable pub raise_for_status : Response → Answer Response
  raise_for_status r =
      if h.is_success r.status_code then returned r else raised (http_status_error r.status_code)

  pub health : String → S → Answer Value × S
  unfolding raise_for_status translate_http
  health base_url s =
      let (answer, s') = h.get (h.urljoin base_url "/health") s in
      (caught translate_http do r ← answer; ok ← raise_for_status r; read_json ok, s')

  -- The identifier and the keys of a response, as the three methods below read it.
  pub read_body : Response → Answer (Value × Fields)
  unfolding raise_for_status validate_response read_id
  read_body r = do
    accepted ← raise_for_status r
    body ← read_json accepted
    validated ← validate_response body
    read_id validated

  -- What `create_session` makes of the response.
  pub read_session : Response → Answer OpenCodeSession
  unfolding read_body
  read_session r =
      if r.status_code == 404 then raised (opencode_api_error 404) else read_body r >>= new_session

  pub create_session : String → Option String → S → Answer OpenCodeSession × S
  unfolding read_session translate
  create_session base_url name s =
      let payload = object (session_payload name) in
      let (answer, s') = h.post (h.urljoin base_url "/sessions") payload s in
      (caught translate (answer >>= read_session), s')

  -- The message of a response; `default` is the status of a message without one.
  pub read_message : Bool → String → String → Response → Answer OpenCodeMessage
  unfolding read_body
  read_message with_error default session_id r = do
    (id, fields) ← read_body r
    returned (record {
      id = id;
      session_id = get_default "session_id" (text session_id) fields;
      status = get_default "status" (text default) fields;
      content = get "content" fields;
      error = if with_error then get "error" fields else null;
      created_at = get "created_at" fields;
      completed_at = get "completed_at" fields;
    })

  -- The first answer, or that of the second request after a 404.
  abbrev pub unless_missing : Answer Response × S → (S → Answer Response × S) → Answer Response × S
  unless_missing (raised e, s) second = (raised e, s)
  unless_missing (returned r, s) second = if r.status_code == 404 then second s else (returned r, s)

  -- The two attempts to post a message.
  pub post_message : String → String → String → String → S → Answer Response × S
  post_message base_url session_id content role s =
      let payload = object (field "content" (text content) (field "role" (text role) end)) in
      let url = h.urljoin base_url ("/sessions/" +++ session_id +++ "/messages") in
      let alternative = h.urljoin base_url ("/sessions/" +++ session_id +++ "/run") in
      unless_missing (h.post url payload s) (h.post alternative payload)

  pub dispatch_message : String → String → String → String → S → Answer OpenCodeMessage × S
  unfolding read_message post_message translate
  dispatch_message base_url session_id content role s =
      let (answer, s') = post_message base_url session_id content role s in
      (caught translate (answer >>= read_message false "processing" session_id), s')

  pub get_message : String → String → String → S → Answer OpenCodeMessage × S
  unfolding read_message translate
  get_message base_url session_id message_id s =
      let path = "/sessions/" +++ session_id +++ "/messages/" +++ message_id in
      let (answer, s') = h.get (h.urljoin base_url path) s in
      (caught translate (answer >>= read_message true "unknown" session_id), s')

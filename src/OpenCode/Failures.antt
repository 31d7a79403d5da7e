-- ===== src/OpenCode/Failures.antt =====
-- What the methods of `OpenCodeClient` make of the answers of the HTTP client
-- (execqueue/opencode/client.py).
use exec_queue.Common.{
  ◌≡◌, ◌⊎◌, inl, inr, refl, ap, ◌∙◌, sym, String, Bool, true, false, Option, none, some, arith,
  ◌==◌, Bool-cases, Option-cases, if◌then◌else◌,
}
use mathlib.Core.Path.{subst}
use Prim.Native.String.{◌++◌ as ◌+++◌}
use exec_queue.Json.{
  Value, null, boolean, integer, real, text, array, object, Fields, end, field, get_field,
}
use exec_queue.OpenCode.{
  attribute_error, type_error, unbound_local_error, other_error, ◌>>=◌, read_body, ClientError,
  opencode_connection_error, opencode_timeout_error, opencode_validation_error, opencode_api_error,
  connect_error, timeout_exception, json_decode_error, http_status_error, Answer, returned, raised,
  Response, Http, validate_response, read_id, map_error_category, translate, raise_for_status,
  new_session, unless_missing, read_session, read_message, post_message, create_session,
  dispatch_message, get_message, caught, session_payload,
}

-- The body is no JSON or a dictionary.
abbrev pub IsObject : Option Value → Type 0
IsObject none = Unit
IsObject (some (object _)) = Unit
IsObject (some _) = ⊥

-- What the HTTP client gives: a response with such a body, or an exception of its own. All of these but
-- a timeout and a failed connection are `other_error`, a connection that breaks off for example.
abbrev pub IsHttp : Answer Response → Type 0
IsHttp (returned r) = IsObject r.body
IsHttp (raised connect_error) = Unit
IsHttp (raised timeout_exception) = Unit
IsHttp (raised other_error) = Unit
IsHttp (raised _) = ⊥

-- The body is a dictionary with the key "id".
abbrev pub has_id : Option Value → Bool
has_id (some (object fields)) = elim (get_field "id" fields) [ none ↦ false | some id ↦ true ]
has_id _ = false

-- The exception is raised, and put into the category.
abbrev pub IsRaised {ℓ} : {A : Type ℓ} → Answer A → ClientError → String → Type ℓ
IsRaised b error category = (b ≡ raised error) × (map_error_category error ≡ category)

module _ {S : Type 0} (h : Http S) where
  -- A value for a response that was accepted and has an identifier, the status of one that was refused
  -- or not found, and an invalid response for one without an identifier.
  abbrev pub IsRead {ℓ} : {A : Type ℓ} → Response → Answer A → Type ℓ
  IsRead {A} r b =
      (((x : A) × (b ≡ returned x)) × (h.is_success r.status_code ≡ true) × (has_id r.body ≡ true))
      ⊎ ((IsRaised b (opencode_api_error r.status_code) "http"
            × ((h.is_success r.status_code ≡ false) ⊎ (r.status_code ≡ 404)))
          ⊎ (IsRaised b opencode_validation_error "invalid_response"
              × (h.is_success r.status_code ≡ true)
              × (has_id r.body ≡ false)))

  -- What is given or raised, by what the HTTP client gives or raises.
  abbrev pub IsExplained {ℓ} : {A : Type ℓ} → Answer Response → Answer A → Type ℓ
  IsExplained (returned r) b = IsRead r b
  IsExplained (raised timeout_exception) b = IsRaised b opencode_timeout_error "timeout"
  IsExplained (raised connect_error) b = IsRaised b opencode_connection_error "connection"
  IsExplained (raised e) b = b ≡ raised e

-- The answer at the first address, or the one at the second where the first gives a 404.
abbrev pub answer_of :
    {S : Type 0} → Answer Response × S → (S → Answer Response × S) → Answer Response
answer_of (first, s) second = elim first [
  | raised e ↦ raised e
  | returned r ↦ if r.status_code == 404 then (second s).0 else returned r
]

-- The part of `read_body` behind the test of the status.
abbrev read_value : Option Value → Answer (Value × Fields)
read_value body = elim body [
  | none ↦ raised json_decode_error
  | some v ↦ validate_response v >>= read_id
]

-- How that part ends.
abbrev Reads : Option Value → Answer (Value × Fields) → Type 0
Reads body a =
    (((x : Value × Fields) × (a ≡ returned x)) × (has_id body ≡ true))
    ⊎ (((a ≡ raised json_decode_error) ⊎ (a ≡ raised opencode_validation_error))
        × (has_id body ≡ false))

read_value_lem : (body : Option Value) → IsObject body → Reads body (read_value body)
unfolding validate_response read_id
read_value_lem none p = inr (inl refl, refl)
read_value_lem (some (object fields)) p = elim (Option-cases (get_field "id" fields)) [
  | inl missing ↦ inr (inr (ground (arith, missing)), ground (arith, missing))
  | inr (id, found) ↦ inl (((id, fields), ground (arith, found)), ground (arith, found))
]
read_value_lem (some null) p = elim p [ ]
read_value_lem (some (boolean b)) p = elim p [ ]
read_value_lem (some (integer n)) p = elim p [ ]
read_value_lem (some (real r)) p = elim p [ ]
read_value_lem (some (text t)) p = elim p [ ]
read_value_lem (some (array xs)) p = elim p [ ]

-- A value is not touched by the `except` clauses.
caught_value {ℓ κ} :
    {A : Type ℓ} {B : Type κ} (a : Answer A) (f : A → B)
    → caught translate (a >>= λ x. returned (f x)) ≡ (caught translate a >>= λ x. returned (f x))
caught_value (returned x) f = refl
caught_value (raised e) f = refl

module _ {S : Type 0} (h : Http S) where
  module _ {ℓ} {A : Type ℓ} (r : Response) (f : Value × Fields → A) where
    -- A value that is made of what was read.
    made_of : Answer (Value × Fields) → Answer A
    made_of a = caught translate (a >>= λ x. returned (f x))

    accepted_IsRead :
        (a : Answer (Value × Fields))
        → h.is_success r.status_code ≡ true
        → Reads r.body a
        → IsRead h r (made_of a)
    unfolding made_of translate map_error_category
    accepted_IsRead a ok (inl ((x, given), id)) = inl ((f x, ap made_of given), ok, id)
    accepted_IsRead a ok (inr (inl no_json, no_id)) =
        inr (inr ((ap made_of no_json, refl), ok, no_id))
    accepted_IsRead a ok (inr (inr invalid, no_id)) =
        inr (inr ((ap made_of invalid, refl), ok, no_id))

    read_body-IsRead : IsObject r.body → IsRead h r (made_of (read_body h r))
    unfolding made_of read_body raise_for_status translate map_error_category
    read_body-IsRead p = elim (Bool-cases (h.is_success r.status_code)) [
      | inl accepted ↦
          let same : read_body h r ≡ read_value r.body = ground (arith, accepted) in
          subst (λ a. IsRead h r (made_of a)) (sym same)
            (accepted_IsRead (read_value r.body) accepted (read_value_lem r.body p))
      | inr refused ↦
          let same : read_body h r ≡ raised (http_status_error r.status_code) =
            ground (arith, refused) in
          inr (inl ((ap made_of same, refl), inl refused))
    ]

  read_session-IsRead :
      (r : Response) → IsObject r.body → IsRead h r (caught translate (read_session h r))
  unfolding read_session made_of translate map_error_category
  read_session-IsRead r p = elim (Bool-cases (r.status_code == 404)) [
    | inl missing ↦
        let e : r.status_code ≡ 404 = ground (arith, missing) in
        let same : read_session h r ≡ raised (opencode_api_error 404) = ground (arith, missing) in
        inr (
          inl (
            (ap (caught translate) same ∙ ap (λ n. raised (opencode_api_error n)) (sym e), refl),
            inr e,
          ))
    | inr there ↦
        let same : read_session h r ≡ (read_body h r >>= new_session) = ground (arith, there) in
        subst (λ a. IsRead h r (caught translate a)) (sym same) (read_body-IsRead r _ p)
  ]

  read_message-IsRead :
      (with_error : Bool) (default session_id : String) (r : Response)
      → IsObject r.body
      → IsRead h r (caught translate (read_message h with_error default session_id r))
  unfolding read_message made_of
  read_message-IsRead with_error default session_id r p = read_body-IsRead r _ p

  method-IsExplained {ℓ} :
      {A : Type ℓ} (a : Answer Response) (f : Response → Answer A)
      → IsHttp a
      → ((r : Response) → IsObject r.body → IsRead h r (caught translate (f r)))
      → IsExplained h a (caught translate (a >>= f))
  unfolding translate map_error_category
  method-IsExplained (returned r) f p k = k r p
  method-IsExplained (raised connect_error) f p k = (refl, refl)
  method-IsExplained (raised timeout_exception) f p k = (refl, refl)
  method-IsExplained (raised other_error) f p k = refl
  method-IsExplained (raised opencode_connection_error) f p k = elim p [ ]
  method-IsExplained (raised opencode_timeout_error) f p k = elim p [ ]
  method-IsExplained (raised opencode_validation_error) f p k = elim p [ ]
  method-IsExplained (raised (opencode_api_error _)) f p k = elim p [ ]
  method-IsExplained (raised (http_status_error _)) f p k = elim p [ ]
  method-IsExplained (raised json_decode_error) f p k = elim p [ ]
  method-IsExplained (raised attribute_error) f p k = elim p [ ]
  method-IsExplained (raised type_error) f p k = elim p [ ]
  method-IsExplained (raised unbound_local_error) f p k = elim p [ ]

  unless_missing_lem :
      (first : Answer Response × S) (second : S → Answer Response × S)
      → (unless_missing h first second).0 ≡ answer_of first second
  unless_missing_lem (raised e, s) second = refl
  unless_missing_lem (returned r, s) second = elim (Bool-cases (r.status_code == 404)) [
    | inl missing ↦ ground (arith, missing)
    | inr there ↦ ground (arith, there)
  ]

  unless_missing-IsHttp :
      (first : Answer Response × S) (second : S → Answer Response × S)
      → IsHttp first.0
      → ((s : S) → IsHttp (second s).0)
      → IsHttp (unless_missing h first second).0
  unless_missing-IsHttp (raised e, s) second p q = p
  unless_missing-IsHttp (returned r, s) second p q = elim (Bool-cases (r.status_code == 404)) [
    | inl missing ↦ rw missing (q s)
    | inr there ↦ rw there p
  ]

  post_message-IsHttp :
      ((url : String) (payload : Value) (s : S) → IsHttp (h.post url payload s).0)
      → (base_url session_id content role : String) (s : S)
      → IsHttp (post_message h base_url session_id content role s).0
  unfolding post_message
  post_message-IsHttp posts base_url session_id content role s =
      unless_missing-IsHttp _ _ (posts _ _ s) (λ s'. posts _ _ s')

  -- If no body is JSON but a dictionary, then what the three methods that create a session, send a
  -- message and get one give or raise tells what the HTTP client did. A value: a response that is
  -- accepted and has an identifier. An error with its status, in the category "http": one that is
  -- refused, or a 404. An invalid response: an accepted one without an identifier. A timeout and a failed
  -- connection raise the client's own exceptions for them, each in its category, and any other exception
  -- of the HTTP client goes through as it is. For a message, the second address answers where the first
  -- gives a 404.
  pub methods-IsExplained :
      ((url : String) (s : S) → IsHttp (h.get url s).0)
      → ((url : String) (payload : Value) (s : S) → IsHttp (h.post url payload s).0)
      → (base_url session_id message_id content role : String) (name : Option String) (s : S)
      → let messages = "/sessions/" +++ session_id +++ "/messages" in
        let message = object (field "content" (text content) (field "role" (text role) end)) in
        IsExplained h
          (h.post (h.urljoin base_url "/sessions") (object (session_payload name)) s).0
          (create_session h base_url name s).0
        × IsExplained h
            (answer_of
              (h.post (h.urljoin base_url messages) message s)
              (h.post (h.urljoin base_url ("/sessions/" +++ session_id +++ "/run")) message))
            (dispatch_message h base_url session_id content role s).0
        × IsExplained h
            (h.get
              (h.urljoin base_url ("/sessions/" +++ session_id +++ "/messages/" +++ message_id))
              s).0
            (get_message h base_url session_id message_id s).0
  unfolding create_session dispatch_message get_message post_message
  methods-IsExplained gets posts base_url session_id message_id content role name s =
      let message = object (field "content" (text content) (field "role" (text role) end)) in
      let first =
        h.post (h.urljoin base_url ("/sessions/" +++ session_id +++ "/messages")) message s in
      let second = h.post (h.urljoin base_url ("/sessions/" +++ session_id +++ "/run")) message in
      (
        method-IsExplained _ (read_session h) (posts _ _ s) read_session-IsRead,
        subst (λ a. IsExplained h a (dispatch_message h base_url session_id content role s).0)
            (unless_missing_lem first second)
            (method-IsExplained _ _ (post_message-IsHttp posts base_url session_id content role s)
              (read_message-IsRead false "processing" session_id)),
        method-IsExplained _ _ (gets _ s) (read_message-IsRead true "unknown" session_id),
      )

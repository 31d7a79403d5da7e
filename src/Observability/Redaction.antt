-- ===== src/Observability/Redaction.antt =====
-- `PayloadRedactor` of execqueue/observability/logging.py. `lower` stands for `str.lower`, and `sub` for
-- `re.sub` of a pattern by "[REDACTED]".
pub mod Hidden
use exec_queue.Common.{
  ℕ, String, Bool, List, [], ◌∷◌, any, contains, ltb, append, prefix, length_of, if◌then◌else◌,
}
use exec_queue.Json.{
  Value, null, boolean, integer, real, text, array, object, Items, nil, cons, Fields, end, field,
}

abbrev pub sensitive_fields : List String
sensitive_fields =
    "password" ∷ "passwd" ∷ "pwd" ∷ "secret" ∷ "token" ∷ "api_key" ∷ "apikey" ∷ "access_token"
    ∷ "refresh_token" ∷ "authorization" ∷ "credential" ∷ "private_key" ∷ "ssh_key" ∷ []

abbrev pub sensitive_patterns : List String
sensitive_patterns =
    "-----BEGIN.*PRIVATE KEY-----" ∷ "ghp_[a-zA-Z0-9]{36}" ∷ "sk-[a-zA-Z0-9]{32}"
    ∷ "Bearer\\s+[a-zA-Z0-9._-]+" ∷ []

abbrev pub redacted : Value
redacted = text "[REDACTED]"

-- A text cut to a length, with a mark.
abbrev pub truncated : ℕ → String → String
truncated n t = if ltb n (length_of t) then append (prefix n t) "... [truncated]" else t

-- The key, which `lower` puts into small letters, has a sensitive word.
abbrev pub is_sensitive : (String → String) → String → Bool
is_sensitive lower key = any (λ s. contains s (lower key)) sensitive_fields

module _ (lower : String → String) (sub : String → String → String) (max_payload_size : ℕ) where
  abbrev sub_all : List String → String → String
  sub_all [] t = t
  sub_all (p ∷ ps) t = sub_all ps (sub p t)

  pub redact_string : String → String
  redact_string t = sub_all sensitive_patterns (truncated max_payload_size t)

  mutual
    unfolding redact_string

    pub redact : Value → Value
    redact (object fields) = object (redact_dict fields)
    redact (array items) = array (redact_items items)
    redact (text t) = text (redact_string t)
    redact null = null
    redact (boolean b) = boolean b
    redact (integer n) = integer n
    redact (real r) = real r

    pub redact_items : Items → Items
    redact_items nil = nil
    redact_items (cons v items) = cons (redact v) (redact_items items)

    pub redact_dict : Fields → Fields
    redact_dict end = end
    redact_dict (field key v fields) =
        field key (if is_sensitive lower key then redacted else redact v) (redact_dict fields)

-- ===== src/Observability/Redaction/Hidden.antt =====
-- What a redacted payload shows (execqueue/observability/logging.py).
use exec_queue.Common.{
  ℕ, ◌≡◌, refl, ap, String, Bool, true, false, ◌&&◌, arith, str_eq, if◌then◌else◌,
}
use exec_queue.Json.{
  Value, null, boolean, integer, real, text, array, object, Items, nil, cons, Fields, end, field,
}
use exec_queue.Observability.Redaction.{is_sensitive, redact, redact_items, redact_dict}

abbrev is_redacted : Value → Bool
is_redacted (text t) = str_eq t "[REDACTED]"
is_redacted _ = false

module _ (lower : String → String) where
  -- At any depth, a sensitive key has the mark as its value.
  unfoldable mutual
    pub is_hidden : Value → Bool
    is_hidden (object fields) = is_hidden_dict fields
    is_hidden (array items) = is_hidden_items items
    is_hidden _ = true

    pub is_hidden_items : Items → Bool
    is_hidden_items nil = true
    is_hidden_items (cons v items) = is_hidden v && is_hidden_items items

    pub is_hidden_dict : Fields → Bool
    is_hidden_dict end = true
    is_hidden_dict (field key v fields) =
        (if is_sensitive lower key then is_redacted v else is_hidden v) && is_hidden_dict fields

  -- A payload without its texts and without the values of its sensitive keys.
  unfoldable mutual
    pub outline : Value → Value
    outline (object fields) = object (outline_dict fields)
    outline (array items) = array (outline_items items)
    outline (text t) = text ""
    outline null = null
    outline (boolean b) = boolean b
    outline (integer n) = integer n
    outline (real r) = real r

    pub outline_items : Items → Items
    outline_items nil = nil
    outline_items (cons v items) = cons (outline v) (outline_items items)

    pub outline_dict : Fields → Fields
    outline_dict end = end
    outline_dict (field key v fields) =
        field key (if is_sensitive lower key then null else outline v) (outline_dict fields)

module _ (lower : String → String) (sub : String → String → String) (max_payload_size : ℕ) where
  mutual
    unfolding is_hidden redact

    redact_hides : (v : Value) → is_hidden lower (redact lower sub max_payload_size v) ≡ true
    redact_hides (object fields) = redact_dict_hides fields
    redact_hides (array items) = redact_items_hides items
    redact_hides (text t) = refl
    redact_hides null = refl
    redact_hides (boolean b) = refl
    redact_hides (integer n) = refl
    redact_hides (real r) = refl

    redact_items_hides :
        (items : Items)
        → is_hidden_items lower (redact_items lower sub max_payload_size items) ≡ true
    redact_items_hides nil = refl
    redact_items_hides (cons v items) = ground (arith, redact_hides v, redact_items_hides items)

    redact_dict_hides :
        (fields : Fields)
        → is_hidden_dict lower (redact_dict lower sub max_payload_size fields) ≡ true
    redact_dict_hides end = refl
    redact_dict_hides (field key v fields) =
        ground (arith, redact_hides v, redact_dict_hides fields)

  mutual
    unfolding outline redact

    redact_outlines :
        (v : Value) → outline lower (redact lower sub max_payload_size v) ≡ outline lower v
    redact_outlines (object fields) = ap object (redact_dict_outlines fields)
    redact_outlines (array items) = ap array (redact_items_outlines items)
    redact_outlines (text t) = refl
    redact_outlines null = refl
    redact_outlines (boolean b) = refl
    redact_outlines (integer n) = refl
    redact_outlines (real r) = refl

    redact_items_outlines :
        (items : Items)
        → outline_items lower (redact_items lower sub max_payload_size items)
          ≡ outline_items lower items
    redact_items_outlines nil = refl
    redact_items_outlines (cons v items) =
        ground (arith, redact_outlines v, redact_items_outlines items)

    redact_dict_outlines :
        (fields : Fields)
        → outline_dict lower (redact_dict lower sub max_payload_size fields)
          ≡ outline_dict lower fields
    redact_dict_outlines end = refl
    redact_dict_outlines (field key v fields) =
        ground (arith, redact_outlines v, redact_dict_outlines fields)

  -- However deep it is nested, a redacted payload has the mark as the value of every key with a
  -- sensitive word; and but for these values and for the texts it is the payload, with the same keys and
  -- items in the same order.
  pub redact_lem :
      (v : Value)
      → (is_hidden lower (redact lower sub max_payload_size v) ≡ true)
        × (outline lower (redact lower sub max_payload_size v) ≡ outline lower v)
  redact_lem v = (redact_hides v, redact_outlines v)

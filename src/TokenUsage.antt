-- ===== src/TokenUsage.antt =====
-- execqueue/utils/token_tracking.py. `isdigit` stands for the method of `str`, `int` for the conversion of
-- a text, which may raise a ValueError even of digits, and `is_zero` says which floating-point numbers
-- are 0. A truth value is an integer, as in Python.
pub mod Sums
mod Examples
use exec_queue.Common.{
  ℕ, zero, String, Bool, true, false, not, ◌&&◌, Option, none, some, List, [], ◌∷◌, Outcome, ok,
  raise, ◌>>=◌, non_empty, is_some, if◌then◌else◌,
}
use exec_queue.Json.{
  Value, null, boolean, integer, real, text, array, object, nil, Fields, end, get_field, get,
}
use exec_queue.Json.Int.{ℤ, pos, ◌+ℤ◌}

pub record TokenUsage : Type 0 where
  pub total_tokens : Option ℤ
  pub input_tokens : Option ℤ
  pub output_tokens : Option ℤ

abbrev pub no_usage : TokenUsage
no_usage = record { total_tokens = none; input_tokens = none; output_tokens = none }

-- The number of an `int` only.
abbrev int_only : Option Value → Option ℤ
int_only (some (integer n)) = some n
int_only (some (boolean b)) = some (pos (if b then 1 else 0))
int_only _ = none

abbrev or_int : Option ℤ → Option Value → Option ℤ
or_int none v = int_only v
or_int (some n) v = some n

abbrev alternatives : List String
alternatives = "prompt_tokens" ∷ "completion_tokens" ∷ "totalTokens" ∷ "usage" ∷ []

abbrev is_truthy : (String → Bool) → Value → Bool
is_truthy is_zero null = false
is_truthy is_zero (boolean b) = b
is_truthy is_zero (integer (pos zero)) = false
is_truthy is_zero (integer _) = true
is_truthy is_zero (real r) = not (is_zero r)
is_truthy is_zero (text t) = non_empty t
is_truthy is_zero (array nil) = false
is_truthy is_zero (array _) = true
is_truthy is_zero (object end) = false
is_truthy is_zero (object _) = true

module _ (isdigit : String → Bool) (int : String → Outcome ℕ) where
  -- An `int`, or a text of digits.
  abbrev pub is_number : Value → Bool
  is_number (integer n) = true
  is_number (boolean b) = true
  is_number (text t) = isdigit t
  is_number _ = false

  abbrev pub to_number : Value → Outcome ℤ
  to_number (integer n) = ok n
  to_number (boolean b) = ok (pos (if b then 1 else 0))
  to_number (text t) = int t >>= λ n. ok (pos n)
  to_number _ = ok (pos 0)

  abbrev pub read_number : Value → Outcome (Option ℤ)
  read_number v = if is_number v then (to_number v >>= λ n. ok (some n)) else ok none

  abbrev pub add_numbers : Value → Value → Outcome (Option ℤ)
  add_numbers v w =
      if is_number v && is_number w
      then (to_number v >>= λ a. to_number w >>= λ b. ok (some (a +ℤ b)))
      else ok none

  -- The first of the fields with a number.
  abbrev first_number : List String → Fields → Outcome (Option ℤ)
  first_number [] usage = ok none
  first_number (key ∷ keys) usage =
      let rest = first_number keys usage in
      elim (get_field key usage) [
        | none ↦ rest
        | some v ↦ if is_number v then read_number v else rest
      ]

  abbrev add_fields : Option Value → Option Value → Fields → Outcome (Option ℤ)
  add_fields (some v) (some w) usage = add_numbers v w
  add_fields _ _ usage = first_number alternatives usage

  -- `extract_total_tokens` of a dictionary.
  unfoldable pub extract_total_tokens : Fields → Outcome (Option ℤ)
  extract_total_tokens usage = elim (get_field "total_tokens" usage) [
    | some v ↦ read_number v
    | none ↦ add_fields (get_field "input_tokens" usage) (get_field "output_tokens" usage) usage
  ]

  abbrev read_field : Option Value → Outcome (Option ℤ)
  read_field none = ok none
  read_field (some v) = read_number v

  -- What is read of a dictionary of usage data.
  unfoldable pub read_usage : Fields → Outcome TokenUsage
  unfolding extract_total_tokens
  read_usage usage = do
    total ← extract_total_tokens usage
    input ← read_field (get_field "input_tokens" usage)
    output ← read_field (get_field "output_tokens" usage)
    ok (record {
      total_tokens = total;
      input_tokens = or_int input (get_field "prompt_tokens" usage);
      output_tokens = or_int output (get_field "completion_tokens" usage);
    })

  abbrev usage_of : Value → Outcome TokenUsage
  usage_of (object usage) = read_usage usage
  usage_of _ = ok no_usage

  pub extract_token_usage : (String → Bool) → Option Fields → Outcome TokenUsage
  unfolding read_usage
  extract_token_usage is_zero none = ok no_usage
  extract_token_usage is_zero (some response) =
      let usage = get "usage" response in
      if is_truthy is_zero usage then usage_of usage else usage_of (get "token_usage" response)

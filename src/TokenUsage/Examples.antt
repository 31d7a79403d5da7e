-- ===== src/TokenUsage/Examples.antt =====
-- Usage data of providers (execqueue/utils/token_tracking.py).
use exec_queue.Common.{
  ℕ, ◌≡◌, refl, String, Bool, some, Outcome, ok, raise, value_error, str_eq, if◌then◌else◌,
}
use exec_queue.Json.{integer, end, field}
use exec_queue.Json.Int.{pos}
use exec_queue.TokenUsage.{extract_total_tokens}

abbrev isdigit : String → Bool
isdigit t = str_eq t "50"

abbrev int : String → Outcome ℕ
int t = if str_eq t "50" then ok 50 else raise value_error

-- Without a total, the tokens of the prompt alone are given as the total.
prompt_only :
    extract_total_tokens isdigit int
      (field "prompt_tokens" (integer (pos 10)) (field "completion_tokens" (integer (pos 5)) end))
    ≡ ok (some (pos 10))
unfolding extract_total_tokens
prompt_only = refl

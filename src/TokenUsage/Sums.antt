-- ===== src/TokenUsage/Sums.antt =====
-- The total of a usage and its parts (execqueue/utils/token_tracking.py).
use exec_queue.Common.{ℕ, ◌≡◌, String, Bool, true, none, some, Outcome, ok, arith}
use exec_queue.Json.{Value, Fields, get_field}
use exec_queue.Json.Int.{ℤ, ◌+ℤ◌}
use exec_queue.TokenUsage.{is_number, to_number, read_usage}

-- If the data have no total, and both their parts, of which each is an integer or a text of digits that
-- `int` reads, then the three numbers are given: the parts as they are, and their sum as the total.
pub read_usage_sum :
    (isdigit : String → Bool) (int : String → Outcome ℕ) (usage : Fields) (v w : Value) (a b : ℤ)
    → get_field "total_tokens" usage ≡ none
    → get_field "input_tokens" usage ≡ some v
    → get_field "output_tokens" usage ≡ some w
    → is_number isdigit int v ≡ true
    → is_number isdigit int w ≡ true
    → to_number isdigit int v ≡ ok a
    → to_number isdigit int w ≡ ok b
    → read_usage isdigit int usage
      ≡ ok (record { total_tokens = some (a +ℤ b); input_tokens = some a; output_tokens = some b })
unfolding read_usage
read_usage_sum isdigit int usage v w a b no_total input output number number' read read' =
    ground (arith, no_total, input, output, number, number', read, read')

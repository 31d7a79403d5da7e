-- ===== src/Observability/Records/Bounded.antt =====
-- The size of a log record (execqueue/observability/logging.py).
use exec_queue.Common.{
  ℕ, ◌+◌, ◌≤◌, String, List, prefix, length_of, length_of-append, length_of-prefix-le, arith,
}
use exec_queue.Json.{null, boolean, integer, real, text, array, object, Fields, end, field}
use exec_queue.Observability.Redaction.{truncated}
use exec_queue.Observability.Records.{LogRecord, truncate_entry, log_entry, format}

truncated-le : (n : ℕ) (t : String) → length_of (truncated n t) ≤ n + 15
truncated-le n t =
    ground (arith, length_of-prefix-le n t, length_of-append (prefix n t) "... [truncated]")

-- Every text among the values of an entry has a length up to a limit.
abbrev pub AllShort : ℕ → Fields → Type 0
AllShort n end = Unit
AllShort n (field key (text t) fields) = (length_of t ≤ n) × AllShort n fields
AllShort n (field key _ fields) = AllShort n fields

truncate_entry-AllShort : (fields : Fields) → AllShort 1015 (truncate_entry fields)
truncate_entry-AllShort end = tt
truncate_entry-AllShort (field key (text t) fields) =
    (truncated-le 1000 t, truncate_entry-AllShort fields)
truncate_entry-AllShort (field key null fields) = truncate_entry-AllShort fields
truncate_entry-AllShort (field key (boolean b) fields) = truncate_entry-AllShort fields
truncate_entry-AllShort (field key (integer n) fields) = truncate_entry-AllShort fields
truncate_entry-AllShort (field key (real r) fields) = truncate_entry-AllShort fields
truncate_entry-AllShort (field key (array xs) fields) = truncate_entry-AllShort fields
truncate_entry-AllShort (field key (object fs) fields) = truncate_entry-AllShort fields

-- Whatever is logged, no text that is directly a value of the formatted entry has more than 1015
-- characters: the thousand that are kept, and the mark.
pub format-AllShort :
    (redact_sensitive : String → String) (timestamp : String) (include_fields : List String)
    (r : LogRecord)
    → AllShort 1015 (format redact_sensitive timestamp include_fields r)
unfolding format
format-AllShort redact_sensitive timestamp include_fields r =
    truncate_entry-AllShort (log_entry redact_sensitive timestamp include_fields r)

-- ===== src/Runner/Stream/Sequence.antt =====
-- Sequence numbers, the terminal event and the memory of the stream (execqueue/runner/sse_handler.py).
use exec_queue.Common.{
  ℕ, zero, suc, ◌+◌, ◌≤◌, ◌≡◌, refl, String, Bool, true, false, ◌||◌, Option, none, some, List, [],
  ◌∷◌, ◌++◌, map, length, any, arith, if◌then◌else◌, Bool-cases, inl, inr, ap, sym, ◌∙◌,
}
use mathlib.Core.Path.{subst}
use exec_queue.Runner.Stream.{
  OpenCodeEvent, NormalizedEvent, StreamHandler, event_id, remember, check_id, is_duplicate,
  normalize_event, is_terminal_event, on_event, stream_events_internal,
}

-- The numbers from one on, a given number of them.
abbrev pub from_on : ℕ → ℕ → List ℕ
from_on n zero = []
from_on n (suc k) = n ∷ from_on (n + 1) k

-- The handler after an event, but for its number.
abbrev pub heard : OpenCodeEvent → StreamHandler → StreamHandler
heard e h = record h {
  last_event_ids = (is_duplicate e h.last_event_ids).1;
  terminal_event_received = is_terminal_event e || h.terminal_event_received;
}

pub on_event-duplicate :
    (e : OpenCodeEvent) (h : StreamHandler)
    → (is_duplicate e h.last_event_ids).0 ≡ true
    → on_event e h ≡ ([], heard e h)
unfolding on_event
on_event-duplicate e h again =
    ap
      (λ b.
        if b
        then ([], heard e h)
        else (normalize_event h.sequence e ∷ [], record (heard e h) { sequence = h.sequence + 1 }))
      again

pub on_event-new :
    (e : OpenCodeEvent) (h : StreamHandler)
    → (is_duplicate e h.last_event_ids).0 ≡ false
    → on_event e h
      ≡ (normalize_event h.sequence e ∷ [], record (heard e h) { sequence = h.sequence + 1 })
unfolding on_event
on_event-new e h new =
    ap
      (λ b.
        if b
        then ([], heard e h)
        else (normalize_event h.sequence e ∷ [], record (heard e h) { sequence = h.sequence + 1 }))
      new

-- What is claimed of a stream's events, its handler before, what it yields and its handler after.
abbrev IsNumbered :
    List OpenCodeEvent → StreamHandler → List NormalizedEvent × StreamHandler → Type 0
IsNumbered es h (yielded, h') =
    (map (λ e. e.sequence) yielded ≡ from_on h.sequence (length yielded))
    × (h'.sequence ≡ h.sequence + length yielded)
    × (h'.terminal_event_received ≡ (h.terminal_event_received || any is_terminal_event es))

-- The stream goes on after what one event gave.
abbrev pub go_on :
    List OpenCodeEvent → List NormalizedEvent × StreamHandler → List NormalizedEvent × StreamHandler
go_on es (yielded, h') = let (rest, h'') = stream_events_internal es h' in (yielded ++ rest, h'')

pub stream_events_internal-cons :
    (e : OpenCodeEvent) (es : List OpenCodeEvent) (h : StreamHandler)
    → stream_events_internal (e ∷ es) h ≡ go_on es (on_event e h)
unfolding stream_events_internal
stream_events_internal-cons e es h = refl

terminal_swap : (a b c : Bool) → ((a || b) || c) ≡ (b || (a || c))
terminal_swap true true c = refl
terminal_swap true false c = refl
terminal_swap false true c = refl
terminal_swap false false c = refl

-- What a stream yields is numbered without a gap from the number of the handler on, and the handler
-- has the next number afterwards; a terminal event is noted exactly if one was noted before or the
-- stream has one, a duplicate included.
pub stream_events_internal_lem :
    (es : List OpenCodeEvent) (h : StreamHandler)
    → let (yielded, h') = stream_events_internal es h in
      (map (λ e. e.sequence) yielded ≡ from_on h.sequence (length yielded))
      × (h'.sequence ≡ h.sequence + length yielded)
      × (h'.terminal_event_received ≡ (h.terminal_event_received || any is_terminal_event es))
unfolding stream_events_internal normalize_event
stream_events_internal_lem [] h = (refl, omega arith, ground arith)
stream_events_internal_lem (e ∷ es) h = elim (Bool-cases (is_duplicate e h.last_event_ids).0) [
  | inl again ↦
      let (numbers, next, noted) = stream_events_internal_lem es (heard e h) in
      subst (IsNumbered (e ∷ es) h) (sym (ap (go_on es) (on_event-duplicate e h again))) (
        numbers,
        next,
        noted
            ∙ terminal_swap (is_terminal_event e) h.terminal_event_received
                (any is_terminal_event es),
      )
  | inr new ↦
      let h' : StreamHandler = record (heard e h) { sequence = h.sequence + 1 } in
      let (numbers, next, noted) = stream_events_internal_lem es h' in
      subst (IsNumbered (e ∷ es) h) (sym (ap (go_on es) (on_event-new e h new))) (
        ap (◌∷◌ h.sequence) numbers,
        omega (arith, next),
        noted
            ∙ terminal_swap (is_terminal_event e) h.terminal_event_received
                (any is_terminal_event es),
      )
]

check_id-le :
    (i : Option String) (ids : List String) → length ids ≤ 100 → length (check_id i ids).1 ≤ 100
unfolding check_id remember
check_id-le none ids h = h
check_id-le (some i) ids h = ground (arith, h)

-- The handler never keeps more than a hundred identifiers.
pub stream_events_internal-le :
    (es : List OpenCodeEvent) (h : StreamHandler)
    → length h.last_event_ids ≤ 100
    → length (stream_events_internal es h).1.last_event_ids ≤ 100
unfolding stream_events_internal is_duplicate
stream_events_internal-le [] h few = few
stream_events_internal-le (e ∷ es) h few = elim (Bool-cases (is_duplicate e h.last_event_ids).0) [
  | inl again ↦
      subst (λ m. length m.1.last_event_ids ≤ 100)
        (sym (ap (go_on es) (on_event-duplicate e h again)))
        (stream_events_internal-le es (heard e h) (check_id-le (event_id e) _ few))
  | inr new ↦
      subst (λ m. length m.1.last_event_ids ≤ 100) (sym (ap (go_on es) (on_event-new e h new)))
        (stream_events_internal-le es (record (heard e h) { sequence = h.sequence + 1 })
          (check_id-le (event_id e) _ few))
]

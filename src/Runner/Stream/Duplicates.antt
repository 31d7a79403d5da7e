-- ===== src/Runner/Stream/Duplicates.antt =====
-- A stream that is delivered again after a reconnect (execqueue/runner/sse_handler.py).
use text.Mathlib.TextEquality.{eq_iff}
use mathlib.Core.Path.{subst}
use exec_queue.Common.{
  suc, ◌+◌, ◌≤◌, ◌≡◌, refl, String, Bool, true, not, Option, none, some, List, [], ◌∷◌, length,
  count, All, arith, is_some, Bool-cases, inl, inr, ap, sym, ◌∙◌,
}
use exec_queue.Runner.Stream.{
  OpenCodeEvent, StreamHandler, is_in, event_id, remember, check_id, is_duplicate,
  stream_events_internal,
}
use exec_queue.Runner.Stream.Sequence.{heard, go_on, on_event-duplicate, on_event-new}

-- Whether the identifier of an event, if it has one, is kept.
abbrev IsKnown : List String → OpenCodeEvent → Type 0
IsKnown ids e = (i : String) → event_id e ≡ some i → is_in i ids ≡ true

check_id-length :
    (x : Option String) (ids : List String) → length (check_id x ids).1 ≤ suc (length ids)
unfolding check_id remember
check_id-length none ids = omega arith
check_id-length (some i) ids = ground arith

check_id-keeps :
    (x : Option String) (ids : List String) (j : String)
    → suc (length ids) ≤ 100
    → is_in j ids ≡ true
    → is_in j (check_id x ids).1 ≡ true
unfolding check_id remember
check_id-keeps none ids j few h = h
check_id-keeps (some i) ids j few h = ground (arith, few, h)

check_id_self :
    (i : String) (ids : List String)
    → suc (length ids) ≤ 100
    → is_in i (check_id (some i) ids).1 ≡ true
unfolding check_id remember
check_id_self i ids few = ground (arith, few, eq_iff i i)

-- The identifiers after a stream.
abbrev ids_after : List OpenCodeEvent → StreamHandler → List String
ids_after es h = (stream_events_internal es h).1.last_event_ids

ids_after-cons :
    (e : OpenCodeEvent) (es : List OpenCodeEvent) (h : StreamHandler)
    → (h' : StreamHandler) × (h'.last_event_ids ≡ (check_id (event_id e) h.last_event_ids).1)
      × (ids_after (e ∷ es) h ≡ ids_after es h')
unfolding stream_events_internal is_duplicate
ids_after-cons e es h = elim (Bool-cases (is_duplicate e h.last_event_ids).0) [
  | inl again ↦
      (heard e h, refl, ap (λ m. (go_on es m).1.last_event_ids) (on_event-duplicate e h again))
  | inr new ↦ (
    record (heard e h) { sequence = h.sequence + 1 },
    refl,
    ap (λ m. (go_on es m).1.last_event_ids) (on_event-new e h new),
  )
]

-- While there is room, no identifier is dropped.
ids_after-keeps :
    (es : List OpenCodeEvent) (h : StreamHandler) (j : String)
    → length h.last_event_ids + length es ≤ 100
    → is_in j h.last_event_ids ≡ true
    → is_in j (ids_after es h) ≡ true
unfolding stream_events_internal
ids_after-keeps [] h j few kept = kept
ids_after-keeps (e ∷ es) h j few kept =
    let (h', same, rest) = ids_after-cons e es h in
    let room : suc (length h.last_event_ids) ≤ 100 = omega (arith, few) in
    ap (is_in j) rest
    ∙ ids_after-keeps es h' j
        (omega (arith, few, ap length same, check_id-length (event_id e) h.last_event_ids))
        (ap (is_in j) same ∙ check_id-keeps (event_id e) h.last_event_ids j room kept)

All-IsKnown :
    (es : List OpenCodeEvent) (h : StreamHandler)
    → length h.last_event_ids + length es ≤ 100
    → All (IsKnown (ids_after es h)) es
All-IsKnown [] h few = tt
All-IsKnown (e ∷ es) h few =
    let (h', same, rest) = ids_after-cons e es h in
    let room : suc (length h.last_event_ids) ≤ 100 = omega (arith, few) in
    let left : length h'.last_event_ids + length es ≤ 100 =
      omega (arith, few, ap length same, check_id-length (event_id e) h.last_event_ids) in
    subst (λ ids. All (IsKnown ids) (e ∷ es)) (sym rest)
      (
        λ i found. ids_after-keeps es h' i left (
            ap (is_in i) (same ∙ ap (λ x. (check_id x h.last_event_ids).1) found)
            ∙ check_id_self i h.last_event_ids room),
        All-IsKnown es h' left,
      )

abbrev has_no_id : OpenCodeEvent → Bool
has_no_id e = not (is_some (event_id e))

check_id-known :
    (x : Option String) (ids : List String)
    → ((i : String) → x ≡ some i → is_in i ids ≡ true)
    → ((check_id x ids).0 ≡ is_some x) × ((check_id x ids).1 ≡ ids)
unfolding check_id
check_id-known none ids k = (refl, refl)
check_id-known (some i) ids k = ground (arith, k i refl)

replayed :
    (es : List OpenCodeEvent) (h : StreamHandler)
    → All (IsKnown h.last_event_ids) es
    → length (stream_events_internal es h).0 ≡ count has_no_id es
unfolding stream_events_internal is_duplicate
replayed [] h k = refl
replayed (e ∷ es) h k =
    let (answer, same) = check_id-known (event_id e) h.last_event_ids k.0 in
    elim (Bool-cases (is_duplicate e h.last_event_ids).0) [
      | inl again ↦
          let rest = replayed es (heard e h) (subst (λ ids. All (IsKnown ids) es) (sym same) k.1) in
          ap (λ m. length (go_on es m).0) (on_event-duplicate e h again)
          ∙ ground (arith, rest, answer, again)
      | inr new ↦
          let h' : StreamHandler = record (heard e h) { sequence = h.sequence + 1 } in
          let rest = replayed es h' (subst (λ ids. All (IsKnown ids) es) (sym same) k.1) in
          ap (λ m. length (go_on es m).0) (on_event-new e h new) ∙ ground (arith, rest, answer, new)
    ]

-- If the identifiers kept and the events of a stream are a hundred together at most, then the same
-- stream delivered a second time yields no more than its events without an identifier.
pub stream_events_internal_again :
    (es : List OpenCodeEvent) (h : StreamHandler)
    → length h.last_event_ids + length es ≤ 100
    → let (_, h') = stream_events_internal es h in
      length (stream_events_internal es h').0 ≡ count (λ e. not (is_some (event_id e))) es
stream_events_internal_again es h few =
    replayed es (stream_events_internal es h).1 (All-IsKnown es h few)

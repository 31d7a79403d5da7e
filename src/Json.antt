-- ===== src/Json.antt =====
-- JSON values as Python's `json` module reads them, in the order of the text. A floating-point number is
-- kept as its text, and a dictionary has each key once.
use exec_queue.Common.{
  ℕ, String, Bool, true, false, ◌||◌, Option, none, some, str_eq, if◌then◌else◌,
}
use exec_queue.Json.Int.{ℤ}
pub mod Int

mutual
  pub data Value : Type 0 where
    null : Value
    boolean : Bool → Value
    integer : ℤ → Value
    real : String → Value
    text : String → Value
    array : Items → Value
    object : Fields → Value

  pub data Items : Type 0 where
    nil : Items
    cons : Value → Items → Items

  pub data Fields : Type 0 where
    end : Fields
    field : String → Value → Fields → Fields

-- `fields[key]`, if the key is there
abbrev pub get_field : String → Fields → Option Value
get_field key end = none
get_field key (field k v fields) =
    let rest = get_field key fields in if str_eq k key then some v else rest

-- `fields.get(key)` and `fields.get(key, default)`
abbrev pub get_default : String → Value → Fields → Value
get_default key default fields = elim (get_field key fields) [ none ↦ default | some v ↦ v ]

abbrev pub get : String → Fields → Value
get key = get_default key null

-- Some item is the text.
abbrev pub has_text : String → Items → Bool
has_text t nil = false
has_text t (cons (text s) items) = str_eq s t || has_text t items
has_text t (cons _ items) = has_text t items

-- `fields[key] = value`
abbrev pub set_field : String → Value → Fields → Fields
set_field key v end = field key v end
set_field key v (field k w fields) =
    let rest = set_field key v fields in if str_eq k key then field k v fields else field k w rest

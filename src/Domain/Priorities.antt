-- ===== src/Domain/Priorities.antt =====
-- src/notify_queue/domain/enums.py, Priority.parse, and the serializer of schemas.py, PriorityField. The
-- language's `str.upper` and `str.lower` are arguments.
use notify_queue.Prelude.{
  ℕ, ◌≡◌, refl, ap, ◌∙◌, String, Bool, Option, none, some, arith, str_eq, str_eq_iff, if◌then◌else◌,
  ◌==◌,
}
use notify_queue.Domain.{Priority, to_int}

-- What a request may hold: the cases that `parse` tells apart. A Boolean is an int in the language.
pub data Value : Type 0 where
  member : Priority → Value
  text : String → Value
  integer : ℕ → Value
  negative : ℕ → Value
  boolean : Bool → Value
  other : Value

-- `p.name`
abbrev pub name : Priority → String
name Priority.low = "LOW"
name Priority.normal = "NORMAL"
name Priority.high = "HIGH"
name Priority.critical = "CRITICAL"

-- `cls[name]`: none is the KeyError.
unfoldable pub by_name : String → Option Priority
by_name s =
    if str_eq s "LOW"
    then some Priority.low
    else (if str_eq s "NORMAL"
        then some Priority.normal
        else (if str_eq s "HIGH"
            then some Priority.high
            else (if str_eq s "CRITICAL" then some Priority.critical else none)))

-- `cls(value)`: none is the ValueError.
unfoldable pub by_value : ℕ → Option Priority
by_value n =
    if n == 0
    then some Priority.low
    else (if n == 1
        then some Priority.normal
        else (if n == 2
            then some Priority.high
            else (if n == 3 then some Priority.critical else none)))

-- `Priority.parse`: none is a ValueError.
unfoldable pub parse : (upper : String → String) → Value → Option Priority
parse upper (member p) = some p
parse upper (text s) = by_name (upper s)
parse upper (integer n) = by_value n
parse upper (negative n) = none
parse upper (boolean b) = none
parse upper other = none

-- The serializer: `p.name.lower()`.
abbrev pub to_text : (lower : String → String) → Priority → String
to_text lower p = lower (name p)

by_name-name : (p : Priority) → by_name (name p) ≡ some p
unfolding by_name
by_name-name Priority.low = refl
by_name-name Priority.normal = refl
by_name-name Priority.high = refl
by_name-name Priority.critical = refl

by_name_sound : (s : String) (p : Priority) → by_name s ≡ some p → s ≡ name p
unfolding by_name
by_name_sound s p e =
    ground (
      arith,
      str_eq_iff s "LOW",
      str_eq_iff s "NORMAL",
      str_eq_iff s "HIGH",
      str_eq_iff s "CRITICAL",
    )

by_value_sound : (n : ℕ) (p : Priority) → by_value n ≡ some p → n ≡ to_int p
unfolding by_value
by_value_sound n p e = ground arith

-- If upper undoes lower on the names of the priorities: parsing what the serializer writes of a
-- priority, or its integer, gives it back, and no text but one whose upper case is its name, and no
-- other natural number, is parsed as it.
pub parse-to_text :
    (upper lower : String → String)
    → ((p : Priority) → upper (lower (name p)) ≡ name p)
    → (p : Priority)
    → (parse upper (text (to_text lower p)) ≡ some p)
      × (parse upper (integer (to_int p)) ≡ some p)
      × ((s : String) → parse upper (text s) ≡ some p → upper s ≡ name p)
      × ((n : ℕ) → parse upper (integer n) ≡ some p → n ≡ to_int p)
unfolding parse by_value
parse-to_text upper lower inverse p = (
  ap by_name (inverse p) ∙ by_name-name p,
  ground arith,
  (λ s. by_name_sound (upper s) p),
  λ n. by_value_sound n p,
)

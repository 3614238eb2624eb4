-- ===== src/Json/Compare.antt =====
-- Python's comparisons of the values that `json.loads` returns.
use shipcheck.Base.{
  ℕ, Bool, true, false, not, ◌&&◌, ◌||◌, ◌+◌, Option, none, some, ◌==◌, ltb, leb, eqb,
  if◌then◌else◌,
}
use shipcheck.Json.{
  ℤ, pos, negsuc, Value, Items, Fields, Float, null, bool, int, float, str, arr, obj, nil, cons,
  end, field, finite, infinite, nan, bit, find_field,
}

-- `v` as an int, where `isinstance(v, int)`; a bool is an int
abbrev pub as_int : Value → Option ℤ
as_int (bool b) = some (pos (bit b))
as_int (int z) = some z
as_int _ = none

-- the int that a number equals, if it equals one
abbrev whole : Value → Option ℤ
whole (bool b) = some (pos (bit b))
whole (int z) = some z
whole (float (finite z true t)) = some z
whole _ = none

-- `isinstance(v, (int, float))`
abbrev pub is_numeric : Value → Bool
is_numeric (bool b) = true
is_numeric (int z) = true
is_numeric (float f) = true
is_numeric _ = false

abbrev same_int : ℤ → ℤ → Bool
same_int (pos m) (pos n) = eqb m n
same_int (negsuc m) (negsuc n) = eqb m n
same_int _ _ = false

-- `0 <= z`
abbrev pub at_least_zero : ℤ → Bool
at_least_zero (pos n) = true
at_least_zero (negsuc n) = false

-- `z <= n` and `z < n`
abbrev pub int_at_most : ℤ → ℕ → Bool
int_at_most (pos m) n = leb m n
int_at_most (negsuc m) n = true

abbrev int_below : ℤ → ℕ → Bool
int_below (pos m) n = ltb m n
int_below (negsuc m) n = true

abbrev float_at_least_zero : Float → Bool
float_at_least_zero (finite z b t) = at_least_zero z
float_at_least_zero (infinite positive) = positive
float_at_least_zero nan = false

-- a float that is not its floor is above it
abbrev float_at_most : Float → ℕ → Bool
float_at_most (finite z exact t) n = if exact then int_at_most z n else int_below z n
float_at_most (infinite positive) n = not positive
float_at_most nan n = false

-- `v >= 0` of a number
abbrev pub is_at_least_zero : Value → Bool
is_at_least_zero (bool b) = true
is_at_least_zero (int z) = at_least_zero z
is_at_least_zero (float f) = float_at_least_zero f
is_at_least_zero _ = false

-- `v <= n` of a number
abbrev pub is_at_most : Value → ℕ → Bool
is_at_most (bool b) n = leb (bit b) n
is_at_most (int z) n = int_at_most z n
is_at_most (float f) n = float_at_most f n
is_at_most _ n = false

abbrev same_bool : Bool → Bool → Bool
same_bool true b = b
same_bool false b = not b

-- equality of two floats
abbrev same_float : Float → Float → Bool
same_float (finite y a s) (finite z b t) = same_int y z && (same_bool a b && (a || s == t))
same_float (infinite a) (infinite b) = same_bool a b
same_float _ _ = false

abbrev same_number : Value → Value → Bool
same_number (float f) (float g) = same_float f g
same_number v w = elim (whole v) [
  | none ↦ false
  | some y ↦ elim (whole w) [ none ↦ false | some z ↦ same_int y z ]
]

abbrev size : Fields → ℕ
size fs = count_fields fs
  where
    count_fields : Fields → ℕ
    count_fields end = 0
    count_fields (field k v fs) = 1 + count_fields fs

-- `v == w`
unfoldable mutual
  pub same_value : Value → Value → Bool
  same_value null null = true
  same_value (str s) (str t) = s == t
  same_value (arr vs) (arr ws) = same_items vs ws
  same_value (obj fs) (obj gs) = eqb (size fs) (size gs) && same_fields fs gs
  same_value v w = same_number v w

  pub same_items : Items → Items → Bool
  same_items nil nil = true
  same_items (cons v vs) (cons w ws) = same_value v w && same_items vs ws
  same_items _ _ = false

  -- each entry of the first is one of the second
  pub same_fields : Fields → Fields → Bool
  same_fields end gs = true
  same_fields (field k v fs) gs =
      elim (find_field k gs) [ none ↦ false | some w ↦ same_value v w ] && same_fields fs gs

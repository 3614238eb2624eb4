-- ===== src/Json.antt =====
-- The values that `json.loads` returns and `json.dumps` takes, as Python holds them.
pub mod Compare
use shipcheck.Base.{
  ℕ, String, Bool, true, false, Option, none, some, List, [], ◌∷◌, ◌==◌, eqb, if◌then◌else◌,
}

-- `negsuc n` is -(n + 1).
pub data ℤ : Type 0 where
  pos : ℕ → ℤ
  negsuc : ℕ → ℤ

-- A finite float is its floor, whether it is that floor, and its shortest literal.
pub data Float : Type 0 where
  finite : ℤ → Bool → String → Float
  -- negative or positive
  infinite : Bool → Float
  nan : Float

mutual
  pub data Value : Type 0 where
    null : Value
    bool : Bool → Value
    int : ℤ → Value
    float : Float → Value
    str : String → Value
    obj : Fields → Value
    arr : Items → Value

  -- The entries of a dict in insertion order; a dict holds a key once.
  pub data Fields : Type 0 where
    end : Fields
    field : String → Value → Fields → Fields

  pub data Items : Type 0 where
    nil : Items
    cons : Value → Items → Items

abbrev pub items : Items → List Value
items nil = []
items (cons v vs) = v ∷ items vs

abbrev pub entries : Fields → List (String × Value)
entries end = []
entries (field k v fs) = (k, v) ∷ entries fs

-- `d.get(key)` as an option: `none` is a missing key.
abbrev pub find_field : String → Fields → Option Value
find_field key end = none
find_field key (field k v fs) = if k == key then some v else find_field key fs

-- `d.get(key, default)`
abbrev pub get_or : String → Value → Fields → Value
get_or key default fs = elim (find_field key fs) [ none ↦ default | some v ↦ v ]

-- `d.get(key)`
abbrev pub get : String → Fields → Value
get key fs = get_or key null fs

abbrev pub array : List Value → Value
array xs = arr (pack xs)
  where
    pack : List Value → Items
    pack [] = nil
    pack (x ∷ xs) = cons x (pack xs)

abbrev pub dict_fields : List (String × Value) → Fields
dict_fields [] = end
dict_fields ((k, v) ∷ es) = field k v (dict_fields es)

abbrev pub dict : List (String × Value) → Value
dict es = obj (dict_fields es)

abbrev pub number : ℕ → Value
number n = int (pos n)

-- `v == s` for a text `s`
abbrev pub is_text : Value → String → Bool
is_text (str t) s = t == s
is_text _ s = false

abbrev pub bit : Bool → ℕ
bit true = 1
bit false = 0

abbrev pos_is : ℤ → ℕ → Bool
pos_is (pos m) n = eqb m n
pos_is (negsuc m) n = false

-- `v == n` for an int `n`: `True == 1`, and a float equals the int of its value
abbrev pub is_number : Value → ℕ → Bool
is_number (bool b) n = eqb (bit b) n
is_number (int z) n = pos_is z n
is_number (float (finite z true _)) n = pos_is z n
is_number _ n = false

-- `v == b` for a bool `b`
abbrev pub is_bool : Value → Bool → Bool
is_bool v b = is_number v (bit b)

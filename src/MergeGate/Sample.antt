-- ===== src/MergeGate/Sample.antt =====
-- A library that has the laws, for the tests: bytes are texts, a digest is constant, and JSON has a
-- simple printed form.
pub mod Printed
use Prim.Native.Nat
use Prim.Native.Nat.{suc, ◌≤◌}
use Prim.Native.String.{count}
use shipcheck.Base.{
  ℕ, String, ◌≡◌, refl, ap, sym, ◌∙◌, Bool, true, false, Option, none, some, List, [], ◌∷◌, map,
  ◌<>◌, length, eqb, ◌==◌, ◌≢◌, eq_iff, arith,
}
use shipcheck.Base.Texts.{is_hex, all_chars}
use shipcheck.Json.{Value, Fields, str, obj, dict_fields, field}
use shipcheck.MergeGate.Library.{Library, IsLawful}
use shipcheck.MergeGate.Sample.Printed.{
  third, print_entry, print_fields, read_fields, append-print_entry, count-print_entry,
  read_fields-print_entry,
}

abbrev of_texts : List (String × String) → Fields
of_texts fields = dict_fields (map (λ (e : String × String). (e.0, str e.1)) fields)

-- the printed object, with a line feed behind it
abbrev line_of : List (String × String) → String
line_of fields = print_fields (of_texts fields) <> "\n"

line_of-cons :
    (k v : String) (fields : List (String × String))
    → line_of ((k, v) ∷ fields) ≡ print_entry k v (line_of fields)
unfolding print_fields
line_of-cons k v fields = append-print_entry k v (print_fields (of_texts fields))

count-line_of : (fields : List (String × String)) → length fields ≤ count (line_of fields)
count-line_of [] = omega arith
count-line_of ((k, v) ∷ fields) =
    rw (line_of-cons k v fields)
      (omega (arith, count-print_entry k v (line_of fields), count-line_of fields))

read_fields-line_of :
    (n : ℕ) (fields : List (String × String))
    → length fields ≤ n
    → read_fields n (line_of fields) ≡ of_texts fields
unfolding read_fields print_fields
read_fields-line_of Nat.zero [] h = refl
read_fields-line_of (suc n) [] h = refl
read_fields-line_of Nat.zero (f ∷ fields) h = absurd (omega arith)
read_fields-line_of (suc n) ((k, v) ∷ fields) h = rw (line_of-cons k v fields) (
    read_fields-print_entry n k v (line_of fields)
    ∙ ap (field k (str v)) (read_fields-line_of n fields (omega arith)))

abbrev pub dumps : Value → String
dumps (obj fs) = print_fields fs
dumps _ = ""

abbrev pub loads : String → Option Value
loads t = some (obj (read_fields (count t) t))

abbrev pub pick : Bool → Bool → String
pick true b = "aaaaaaaaaaaaaaaaaaaaaaaaaaaaaaaaaaaaaaaaaaaaaaaaaaaaaaaaaaaaaaaa"
pick false true = "bbbbbbbbbbbbbbbbbbbbbbbbbbbbbbbbbbbbbbbbbbbbbbbbbbbbbbbbbbbbbbbb"
pick false false = "cccccccccccccccccccccccccccccccccccccccccccccccccccccccccccccccc"

pick-count : (a b : Bool) → eqb (count (pick a b)) 64 ≡ true
pick-count true b = refl
pick-count false true = refl
pick-count false false = refl

pick-hex : (a b : Bool) → all_chars is_hex (pick a b) ≡ true
unfolding is_hex
pick-hex true b = refl
pick-hex false true = refl
pick-hex false false = refl

-- a digest that depends on the first letter of the first key
abbrev pub digest : String → String
digest b = pick (eqb (third b) 115) (eqb (third b) 99)

pub text_differs : (s t : String) → (s == t) ≡ false → s ≢ t
text_differs s t h e = ground (arith, eq_iff s t)

abbrev pub sample : Library
sample = record {
  Bytes = String;
  empty = "";
  sha256 = digest;
  b64encode = λ b. b;
  b64decode = λ t. some t;
  b64decode_lax = λ t. some t;
  encode = λ t. t;
  decode = λ b. some b;
  dumps = dumps;
  loads = loads;
}

pub sample-IsLawful : IsLawful sample
unfolding is_hex
sample-IsLawful = record {
  sha256-count = λ b. pick-count (eqb (third b) 115) (eqb (third b) 99);
  sha256-hex = λ b. pick-hex (eqb (third b) 115) (eqb (third b) 99);
  b64decode-b64encode = λ b. refl;
  b64decode_lax-b64encode = λ b. refl;
  decode-encode = λ t. refl;
  loads-dumps = λ fields unique. (
    of_texts fields,
    ap (λ fs. some (obj fs))
        (read_fields-line_of (count (line_of fields)) fields (count-line_of fields)),
    λ key. refl,
  );
}

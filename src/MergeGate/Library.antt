-- ===== src/MergeGate/Library.antt =====
-- What src/safe_merge_gate calls of `hashlib`, `base64`, `json` and the UTF-8 codec.
use shipcheck.Base.{String, ◌≡◌, true, false, Option, some, List, map, ◌<>◌, eqb}
use Prim.Native.String.{count}
use shipcheck.Base.Texts.{all_chars, is_hex, has_duplicate}
use shipcheck.Json.{Value, Fields, str, obj, dict, dict_fields, find_field}

pub record Library : Type 1 where
  pub Bytes : Type 0
  -- `b""`
  pub empty : Bytes
  -- `hashlib.sha256(data).hexdigest()`
  pub sha256 : Bytes → String
  -- `base64.b64encode(data).decode("ascii")`
  pub b64encode : Bytes → String
  -- `base64.b64decode(text, validate=True)`, and without `validate`; `none` is a `ValueError`
  pub b64decode : String → Option Bytes
  pub b64decode_lax : String → Option Bytes
  -- `text.encode("utf-8")`, and the strict decoding
  pub encode : String → Bytes
  pub decode : Bytes → Option String
  -- `json.dumps` with sorted keys and without spaces, and `json.loads`
  pub dumps : Value → String
  pub loads : String → Option Value

abbrev pub text_dict : List (String × String) → Value
text_dict fields = dict (map (λ (e : String × String). (e.0, str e.1)) fields)

-- an object that has these entries, in any order
abbrev pub ReadsBack : Option Value → List (String × String) → Type 0
ReadsBack r fields =
    (fs : Fields) × (r ≡ some (obj fs))
    × ((key : String)
        → find_field key fs
          ≡ find_field key (dict_fields (map (λ (e : String × String). (e.0, str e.1)) fields)))

-- What the code relies on.
pub record IsLawful (L : Library) : Type 0 where
  -- a digest is 64 hexadecimal digits
  pub sha256-count : (b : L.Bytes) → eqb (count (L.sha256 b)) 64 ≡ true
  pub sha256-hex : (b : L.Bytes) → all_chars is_hex (L.sha256 b) ≡ true
  pub b64decode-b64encode : (b : L.Bytes) → L.b64decode (L.b64encode b) ≡ some b
  pub b64decode_lax-b64encode : (b : L.Bytes) → L.b64decode_lax (L.b64encode b) ≡ some b
  pub decode-encode : (t : String) → L.decode (L.encode t) ≡ some t
  -- a printed object of texts, with a line feed behind it, is read back with the same entries
  pub loads-dumps :
      (fields : List (String × String))
      → has_duplicate (map (λ (e : String × String). e.0) fields) ≡ false
      → ReadsBack (L.loads (L.dumps (text_dict fields) <> "\n")) fields

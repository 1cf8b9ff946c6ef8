-- ===== src/Go/Json.antt =====
-- `encoding/json`, as far as the services use it: objects with flat fields, marshalled from a
-- struct and unmarshalled into one. Key order and white space are not kept.
use goshield.Prelude.{
  ℕ, String, Bool, true, ◌&&◌, Option, none, some, List, [], ◌∷◌, ◌==◌, if◌then◌else◌,
}
use goshield.Go.Errors.{errorf, Result, ok, err}
use goshield.Go.Float.{Float64, zero_float}

-- Numbers are kept apart by the Go type that wrote them; a reader uses the type of the writer.
pub data Value (F : Float64) : Type 0 where
  text : String → Value F
  float : F.Num → Value F
  int : ℕ → Value F
  texts : List String → Value F
  null : Value F

abbrev pub Fields : Float64 → Type 0
Fields F = List (String × Value F)

-- Raw bytes: an object, or what is no JSON object.
pub data Json (F : Float64) : Type 0 where
  object : Fields F → Json F
  malformed : Json F

-- The value of a key, if the object has it.
abbrev pub field : {F : Float64} → String → Fields F → Option (Value F)
field k [] = none
field k ((j, v) ∷ fs) = if j == k then some v else field k fs

abbrev pub can_marshal : {F : Float64} → Fields F → Bool
can_marshal [] = true
can_marshal {F} ((k, float x) ∷ fs) = F.finite x && can_marshal fs
can_marshal ((k, v) ∷ fs) = can_marshal fs

-- `json.Marshal` refuses a float that JSON cannot express.
abbrev pub marshal : {F : Float64} → Fields F → Result (Json F)
marshal fs = if can_marshal fs then ok (object fs) else err (errorf "json: unsupported value")

abbrev type_error : {A : Type 0} → Result A
type_error = err (errorf "json: cannot unmarshal")

abbrev pub object_of : {F : Float64} → Json F → Result (Fields F)
object_of (object fs) = ok fs
object_of malformed = err (errorf "json: invalid character")

-- A missing key and `null` leave the zero value of the field's type.
abbrev as_text : {F : Float64} → Option (Value F) → Result String
as_text none = ok ""
as_text (some null) = ok ""
as_text (some (text s)) = ok s
as_text (some _) = type_error

abbrev as_float : {F : Float64} → Option (Value F) → Result F.Num
as_float {F} none = ok (zero_float F)
as_float {F} (some null) = ok (zero_float F)
as_float (some (float x)) = ok x
as_float (some _) = type_error

abbrev as_int : {F : Float64} → Option (Value F) → Result ℕ
as_int none = ok 0
as_int (some null) = ok 0
as_int (some (int n)) = ok n
as_int (some _) = type_error

abbrev as_texts : {F : Float64} → Option (Value F) → Result (List String)
as_texts none = ok []
as_texts (some null) = ok []
as_texts (some (texts ss)) = ok ss
as_texts (some _) = type_error

abbrev pub get_text : {F : Float64} → String → Fields F → Result String
get_text k fs = as_text (field k fs)

abbrev pub get_float : {F : Float64} → String → Fields F → Result F.Num
get_float k fs = as_float (field k fs)

abbrev pub get_int : {F : Float64} → String → Fields F → Result ℕ
get_int k fs = as_int (field k fs)

abbrev pub get_texts : {F : Float64} → String → Fields F → Result (List String)
get_texts k fs = as_texts (field k fs)

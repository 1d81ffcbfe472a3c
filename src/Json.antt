-- ===== src/Json.antt =====
-- JSON values (`JsonValue` of src/canonical.ts). A string is its UTF-16 code units, which is what
-- the language compares and escapes; a finite number is the text that it prints as.
pub mod Order
pub mod Strict
pub mod Canonical
use Prim.Native.Nat.{◌/◌}
use Prim.Native.Char.{code}
use hyperfinite.Common.{
  ℕ, ◌+◌, ◌-◌, ◌%◌, String, Bool, Option, none, some, List, [], ◌∷◌, Eq, ltb, ◌==◌, if◌then◌else◌,
  ℕ_discrete,
}

abbrev pub Text : Type 0
Text = List ℕ

unfoldable pub Text-discrete : Discrete Text
Text-discrete = hlevel ℕ_discrete

instance abbrev pub text_eq : Eq Text
text_eq = record { dec = Text-discrete }

-- The code units of one code point, before those of the rest.
abbrev units_before : ℕ → Text → Text
units_before c rest =
    if ltb c 65536
    then c ∷ rest
    else (55296 + (c - 65536) / 1024) ∷ (56320 + (c - 65536) % 1024) ∷ rest

abbrev pub code_units : String → Text
code_units String.[] = []
code_units (String.◌∷◌ c s) = units_before (code c) (code_units s)

-- `Items` and `Fields` are the elements of an array and the own properties of an object.
mutual
  pub data Json : Type 0 where
    null : Json
    bool : Bool → Json
    number : Text → Json
    string : Text → Json
    array : Items → Json
    object : Fields → Json

  pub data Items : Type 0 where
    no_items : Items
    item : Json → Items → Items

  pub data Fields : Type 0 where
    no_fields : Fields
    field : (key : Text) → Json → Fields → Fields

-- `record[key]`
unfoldable pub field_of : (key : Text) → Fields → Option Json
field_of key no_fields = none
field_of key (field k v fields) =
    let later = field_of key fields in if k == key then some v else later

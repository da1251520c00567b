-- ===== src/Binding/Exports.antt =====
-- The exports of the addon: `InitVcdiff`, and the two `Init` functions that it calls.
pub mod Names
use node_vcdiff.Base.{
  ℕ, String, Bool, true, false, Option, none, some, List, [], ◌∷◌, if◌then◌else◌,
}
use node_vcdiff.Codec.OpenVcdiff.{OpenVcdiff}
use node_vcdiff.Binding.{exported_constants}
use text.Mathlib.Text.{◌==◌ as str_eq}

-- The methods of src/vcdiff.cc that are set on a prototype.
pub data Method : Type 0 where
  write_async write_sync close : Method

-- A function template: what `new` calls, its class name, how many native pointers its objects have
-- room for, and the methods on its prototype.
pub data Constructor : Type 0 where
  vcd_ctx_new hashed_dictionary_new : Constructor

pub record Template : Type 0 where
  pub construct : Constructor
  pub class_name : String
  pub internal_field_count : ℕ
  pub prototype : List (String × Method)

pub data Exported : Type 0 where
  function : Template → Exported
  number : ℕ → Exported

-- A property of an object.
pub record Slot : Type 0 where
  pub value : Exported
  pub read_only : Bool

-- `exports->Set`: a property that is read-only stays as it is.
unfoldable pub set : String → Exported → List (String × Slot) → List (String × Slot)
set name value [] = (name, record { value = value; read_only = false }) ∷ []
set name value ((other, old) ∷ rest) =
    if str_eq other name
    then (other, if old.read_only then old else record old { value = value }) ∷ rest
    else (other, old) ∷ set name value rest

-- `exports->ForceSet` with the attribute `v8::ReadOnly`: also a read-only property is replaced.
unfoldable pub force_set : String → Exported → List (String × Slot) → List (String × Slot)
force_set name value [] = (name, record { value = value; read_only = true }) ∷ []
force_set name value ((other, old) ∷ rest) =
    if str_eq other name
    then (other, record { value = value; read_only = true }) ∷ rest
    else (other, old) ∷ force_set name value rest

unfoldable pub get : String → List (String × Slot) → Option Slot
get name [] = none
get name ((other, slot) ∷ rest) = if str_eq other name then some slot else get name rest

-- `NODE_SET_CONSTANT_FROM_ENUM`, for each constant.
unfoldable pub set_constants : List (String × ℕ) → List (String × Slot) → List (String × Slot)
unfolding force_set
set_constants [] exports = exports
set_constants ((name, value) ∷ rest) exports =
    set_constants rest (force_set name (number value) exports)

-- The template of contexts in `VcdCtx::Init`
abbrev pub vcdiff_template : Template
vcdiff_template = record {
  construct = vcd_ctx_new;
  class_name = "Vcdiff";
  internal_field_count = 1;
  prototype = ("write", write_async) ∷ ("writeSync", write_sync) ∷ ("close", close) ∷ [];
}

abbrev pub hashed_dictionary_template : Template
hashed_dictionary_template = record {
  construct = hashed_dictionary_new;
  class_name = "HashedDictionary";
  internal_field_count = 1;
  prototype = [];
}

module _ (V : OpenVcdiff) where
  -- `VcdCtx::Init`
  unfoldable pub vcd_ctx_init : List (String × Slot) → List (String × Slot)
  unfolding set set_constants exported_constants
  vcd_ctx_init exports =
      set_constants (exported_constants V)
        (set vcdiff_template.class_name (function vcdiff_template) exports)

  -- `VcdHashedDictionary::Init`
  unfoldable pub hashed_dictionary_init : List (String × Slot) → List (String × Slot)
  unfolding set
  hashed_dictionary_init exports =
      set hashed_dictionary_template.class_name (function hashed_dictionary_template) exports

  -- `InitVcdiff`
  unfoldable pub init_vcdiff : List (String × Slot) → List (String × Slot)
  unfolding vcd_ctx_init hashed_dictionary_init
  init_vcdiff exports = hashed_dictionary_init (vcd_ctx_init exports)

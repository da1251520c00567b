-- ===== src/Binding/Exports/Names.antt =====
-- What the addon exports under which name.
use node_vcdiff.Base.{
  ℕ, String, Bool, true, false, not, Option, none, some, List, [], ◌∷◌, ◌≡◌, refl, ap, ◌∙◌,
  Bool-cases, inl, inr, arith, if◌then◌else◌,
}
use node_vcdiff.Codec.{mode_code, error_code}
use node_vcdiff.Codec.OpenVcdiff.{OpenVcdiff}
use node_vcdiff.Binding.{exported_constants}
use node_vcdiff.Binding.Exports.{
  Exported, Slot, Template, function, number, set, force_set, get, set_constants, vcdiff_template,
  hashed_dictionary_template, init_vcdiff,
}
use text.Mathlib.Text.{◌==◌ as str_eq}
use text.Mathlib.TextEquality.{eq_iff}

-- What a plain assignment leaves where `old` is.
abbrev assigned : Option Slot → Exported → Slot
assigned none value = record { value = value; read_only = false }
assigned (some old) value = if old.read_only then old else record old { value = value }

abbrev pub is_writable : Option Slot → Bool
is_writable none = true
is_writable (some slot) = not slot.read_only

get-set :
    (k j : String) (v : Exported) (m : List (String × Slot))
    → get j (set k v m) ≡ (if str_eq k j then some (assigned (get k m) v) else get j m)
unfolding get set
get-set k j v [] = refl
get-set k j v ((i, old) ∷ rest) =
    ground (arith, eq_iff k j, eq_iff i k, eq_iff i j, get-set k j v rest)

get-force_set :
    (k j : String) (v : Exported) (m : List (String × Slot))
    → get j (force_set k v m)
      ≡ (if str_eq k j then some (record { value = v; read_only = true }) else get j m)
unfolding get force_set
get-force_set k j v [] = refl
get-force_set k j v ((i, old) ∷ rest) =
    ground (arith, eq_iff k j, eq_iff i k, eq_iff i j, get-force_set k j v rest)

-- An assignment to a read-only property changes nothing.
set_read_only :
    (k : String) (v : Exported) (slot : Slot) (m : List (String × Slot))
    → get k m ≡ some slot
    → slot.read_only ≡ true
    → set k v m ≡ m
unfolding get set
set_read_only k v slot [] e r = cc
set_read_only k v slot ((i, old) ∷ rest) e r = elim (Bool-cases (str_eq i k)) [
  | inl same ↦ let here : old.read_only ≡ true = ground (arith, same, e, r) in rw (same, here) refl
  | inr other ↦
      let there : get k rest ≡ some slot = (rw other at e) in
      rw (other, set_read_only k v slot rest there r) refl
]

assigned-writable :
    (old : Option Slot) (v : Exported)
    → is_writable old ≡ true
    → assigned old v ≡ record { value = v; read_only = false }
assigned-writable none v w = refl
assigned-writable (some old) v w = ground arith

abbrev pub or_else : Option Slot → Option Slot → Option Slot
or_else none y = y
or_else (some x) y = some x

or_else-if :
    (b : Bool) (v : Slot) (x y : Option Slot)
    → or_else (if b then some v else x) y ≡ (if b then some v else or_else x y)
or_else-if true v x y = refl
or_else-if false v x y = refl

abbrev constant : ℕ → Slot
constant n = record { value = number n; read_only = true }

abbrev constructor_of : Template → Slot
constructor_of template = record { value = function template; read_only = false }

module _ (V : OpenVcdiff) where
  -- The two constructors, and the constants with the values of the C++ enumerators.
  abbrev pub names : List (String × Slot)
  names =
      ("HashedDictionary", constructor_of hashed_dictionary_template)
      ∷ ("VCD_FORMAT_JSON", constant V.vcd_format_json)
      ∷ ("VCD_FORMAT_CHECKSUM", constant V.vcd_format_checksum)
      ∷ ("VCD_FORMAT_INTERLEAVED", constant V.vcd_format_interleaved)
      ∷ ("VCD_STANDARD_FORMAT", constant V.vcd_standard_format)
      ∷ ("DECODE_ERROR", constant 3)
      ∷ ("ENCODE_ERROR", constant 2)
      ∷ ("INIT_ERROR", constant 1)
      ∷ ("DECODE", constant 1)
      ∷ ("ENCODE", constant 0)
      ∷ ("Vcdiff", constructor_of vcdiff_template)
      ∷ []

  -- Initialising the addon gives each of these names its value, whatever the exports object held as
  -- long as the names of the two constructors can be assigned to, and no other name is touched.
  pub init_vcdiff_exports :
      (name : String) (exports : List (String × Slot))
      → is_writable (get "Vcdiff" exports) ≡ true
      → is_writable (get "HashedDictionary" exports) ≡ true
      → get name (init_vcdiff V exports) ≡ or_else (get name names) (get name exports)
  unfolding init_vcdiff set_constants exported_constants mode_code error_code get
  init_vcdiff_exports name exports ctx dictionary = simp (
    get-set,
    get-force_set,
    or_else-if,
    assigned-writable (get "Vcdiff" exports) _ ctx,
    assigned-writable (get "HashedDictionary" exports) _ dictionary,
  )

  -- An assignment to one of the constants later on changes nothing.
  pub constants_stay :
      (name : String) (exports : List (String × Slot)) (slot : Slot) (value : Exported)
      → is_writable (get "Vcdiff" exports) ≡ true
      → is_writable (get "HashedDictionary" exports) ≡ true
      → get name names ≡ some slot
      → slot.read_only ≡ true
      → set name value (init_vcdiff V exports) ≡ init_vcdiff V exports
  constants_stay name exports slot value ctx dictionary known r =
      let e = init_vcdiff_exports name exports ctx dictionary in
      set_read_only name value slot _ (e ∙ ap (λ x. or_else x (get name exports)) known) r

-- ===== src/Tests/Exports.antt =====
-- The exports of the addon, with one name that was there before.
use node_vcdiff.Base.{true, List, [], ◌∷◌, String, ◌≡◌, refl}
use node_vcdiff.Binding.Exports.{Slot, number, get, init_vcdiff}
use node_vcdiff.Binding.Exports.Names.{names, or_else, init_vcdiff_exports}
use node_vcdiff.Tests.Toy.{toy}

abbrev exports : List (String × Slot)
exports = ("DECODE", record { value = number 5; read_only = true }) ∷ []

init_vcdiff_exports_example :
    get "DECODE" (init_vcdiff toy exports)
    ≡ or_else (get "DECODE" (names toy)) (get "DECODE" exports)
unfolding get
init_vcdiff_exports_example = init_vcdiff_exports toy "DECODE" exports refl refl

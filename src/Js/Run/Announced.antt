-- ===== src/Js/Run/Announced.antt =====
-- What is given to a stream before its end, and how the stream knows its last chunk.
use node_vcdiff.Base.{◌+◌, true, List, [], ◌∷◌, ◌++◌, Bytes, length, ◌||◌, ◌≡◌, refl, arith}
use node_vcdiff.Js.Stream.{WritableState}
use node_vcdiff.Js.Run.{Item, written, asked, flushed}
use node_vcdiff.Js.Run.Feed.{is_last}
use node_vcdiff.Js.Run.Windows.{item_bytes}

-- Chunks and calls of `flush`, each with the writable side as it is then, and `_flush` at the end.
abbrev pub session : List Item → WritableState → List Item
session items ws = items ++ flushed ws ∷ []

-- What node documents of `writableLength`: once the stream is ending, it counts the bytes that have
-- not gone through `_transform`, those of the chunk at hand included. `_flush` comes only at the end.
abbrev pub Announced : List Item → Type 0
Announced [] = Unit {0}
Announced (written ws chunk ∷ rest) =
    ((ws.ending || ws.ended) ≡ true → ws.length ≡ length chunk + length (item_bytes rest))
    × Announced rest
Announced (asked ws ∷ rest) = Announced rest
Announced (flushed ws ∷ rest) = ⊥

pub item_bytes-session :
    (items : List Item) (ws : WritableState) → item_bytes (session items ws) ≡ item_bytes items
item_bytes-session [] ws = refl
item_bytes-session (item ∷ rest) ws = rw (item_bytes-session rest ws)

eq_nil_of_length : (xs : Bytes) → length xs ≡ 0 → xs ≡ []
eq_nil_of_length [] e = refl
eq_nil_of_length (x ∷ xs) e = absurd (omega (arith, e))

-- Nothing follows an item that the stream takes for the last.
pub nothing_follows :
    (item : Item) (rest : List Item) (ws : WritableState)
    → Announced (item ∷ rest)
    → is_last item ≡ true
    → item_bytes (session rest ws) ≡ []
nothing_follows (written ws' chunk) rest ws a e =
    let ending : (ws'.ending || ws'.ended) ≡ true = ground arith in
    let same : ws'.length ≡ length chunk = ground arith in
    let none_left : length (item_bytes rest) ≡ 0 = omega (arith, same, a.0 ending) in
    rw (item_bytes-session rest ws, eq_nil_of_length (item_bytes rest) none_left)
nothing_follows (asked ws') rest ws a e = cc
nothing_follows (flushed ws') rest ws a e = absurd a

pub rest-Announced : (item : Item) (rest : List Item) → Announced (item ∷ rest) → Announced rest
rest-Announced (written ws chunk) rest a = a.1
rest-Announced (asked ws) rest a = a
rest-Announced (flushed ws) rest a = absurd a

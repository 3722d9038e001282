-- ===== src/Prelude/JsSet.antt =====
-- JavaScript's `Set` of strings, in insertion order.
use mathlib.Core.Path.{◌≡◌, refl}
use mathlib.Core.Bool.{Bool, false, ◌||◌}
use mathlib.Core.Logic.{inl, inr}
use mathlib.Core.List.{List, [], ◌∷◌, ◌++◌}
use native.Mathlib.Omega.{arith}
use Prim.Native.String.{String}
use text.Mathlib.Text.{◌==◌}
use text.Mathlib.TextEquality.{eq_iff}
use trustflow_backend.Prelude.Tests.{if◌then◌else◌, Bool-cases}

abbrev pub JsSet : Type 0
JsSet = List String

unfoldable pub has : String → JsSet → Bool
has k [] = false
has k (j ∷ s) = j == k || has k s

unfoldable pub add : String → JsSet → JsSet
unfolding has
add k s = if has k s then s else s ++ k ∷ []

unfoldable pub delete : String → JsSet → JsSet
delete k [] = []
delete k (j ∷ s) = let rest = delete k s in if j == k then rest else j ∷ rest

-- new Set(list)
unfoldable pub from_list : List String → JsSet → JsSet
unfolding add
from_list [] s = s
from_list (x ∷ xs) s = from_list xs (add x s)

pub has-append : (k : String) (s t : JsSet) → has k (s ++ t) ≡ (has k s || has k t)
unfolding has
has-append k [] t = refl
has-append k (j ∷ s) t = ground (arith, has-append k s t)

pub has-add : (k j : String) (s : JsSet) → has j (add k s) ≡ (k == j || has j s)
unfolding has
has-add k j s = unfold add in ground (arith, has-append j s (k ∷ []), eq_iff k j)

pub has-delete :
    (k j : String) (s : JsSet) → has j (delete k s) ≡ (if k == j then false else has j s)
unfolding has delete
has-delete k j [] = ground arith
has-delete k j (i ∷ s) = ground (arith, eq_iff k j, eq_iff i k, eq_iff i j, has-delete k j s)

-- No string stands in the list twice.
unfoldable pub IsDistinct : List String → Type 0
IsDistinct [] = Unit
IsDistinct (x ∷ xs) = (has x xs ≡ false) × IsDistinct xs

pub append-IsDistinct :
    (k : String) (s : JsSet) → has k s ≡ false → IsDistinct s → IsDistinct (s ++ k ∷ [])
unfolding IsDistinct has
append-IsDistinct k [] h d = (refl, tt)
append-IsDistinct k (j ∷ s) h d = (
  ground (arith, has-append j s (k ∷ []), eq_iff j k, eq_iff k j),
  append-IsDistinct k s (ground arith) d.1,
)

add-IsDistinct : (k : String) (s : JsSet) → IsDistinct s → IsDistinct (add k s)
unfolding add
add-IsDistinct k s d = elim (Bool-cases (has k s)) [
  | inl there ↦ rw there d
  | inr new ↦ rw new (append-IsDistinct k s new d)
]

pub from_list-IsDistinct :
    (xs : List String) (s : JsSet) → IsDistinct s → IsDistinct (from_list xs s)
unfolding from_list
from_list-IsDistinct [] s d = d
from_list-IsDistinct (x ∷ xs) s d = from_list-IsDistinct xs (add x s) (add-IsDistinct x s d)

pub ruleset set_laws = (has-add, has-delete)

-- ===== src/Prelude/Strings.antt =====
-- Python's `str` as the native `String`: membership and duplicates among texts.
use Prim.Native.Nat.{◌≤◌}
use Prim.Native.String.{String}
use mathlib.Core.Path.{◌≡◌, refl}
use mathlib.Core.Bool.{Bool, true, false}
use mathlib.Core.List.{List, [], ◌∷◌}
use native.Mathlib.Omega.{arith}
use text.Mathlib.Text.{◌==◌ as str_eq}
use reachy.Prelude.Tests.{◌==◌, if◌then◌else◌}
use reachy.Prelude.Lists.{length}

unfoldable pub is_member : String → List String → Bool
is_member x [] = false
is_member x (y ∷ ys) = if str_eq x y then true else is_member x ys

-- `set(names)`, as a list in which no text stands twice.
unfoldable pub distinct : List String → List String
distinct [] = []
distinct (x ∷ xs) = if is_member x xs then distinct xs else x ∷ distinct xs

abbrev pub is_unique : List String → Bool
is_unique [] = true
is_unique (x ∷ xs) = if is_member x xs then false else is_unique xs

pub distinct-le : (xs : List String) → length (distinct xs) ≤ length xs
unfolding distinct
distinct-le [] = omega arith
distinct-le (x ∷ xs) = ground (arith, distinct-le xs)

-- As many texts as in the set: none stands twice.
pub length-distinct : (xs : List String) → (length (distinct xs) == length xs) ≡ is_unique xs
unfolding distinct
length-distinct [] = refl
length-distinct (x ∷ xs) = ground (arith, distinct-le xs, length-distinct xs)

-- ===== src/Prelude/Texts.antt =====
-- Texts built by f-strings: concatenation, whole numbers in decimal, and a slice from the front.
use Prim.Native.Nat.{ℕ, zero, suc, ◌/◌, ◌%◌, ◌≤◌}
use Prim.Native.String.{String, count, ◌++◌}
use mathlib.Core.Path.{◌≡◌, refl}
use native.Mathlib.Omega.{arith}
use text.Mathlib.TextLemmas.{length-cons}
use reachy.Prelude.Tests.{ltb, if◌then◌else◌}

unfoldable pub concat : String → String → String
concat s t = s ++ t

digit : ℕ → String
digit zero = "0"
digit (suc zero) = "1"
digit (suc (suc zero)) = "2"
digit (suc (suc (suc zero))) = "3"
digit (suc (suc (suc (suc zero)))) = "4"
digit (suc (suc (suc (suc (suc zero))))) = "5"
digit (suc (suc (suc (suc (suc (suc zero)))))) = "6"
digit (suc (suc (suc (suc (suc (suc (suc zero))))))) = "7"
digit (suc (suc (suc (suc (suc (suc (suc (suc zero)))))))) = "8"
digit _ = "9"

-- `n` is below `10 ^ fuel`.
decimal_from : ℕ → ℕ → String → String
decimal_from zero n done = done
decimal_from (suc fuel) n done =
    let rest = decimal_from fuel (n / 10) (concat (digit (n % 10)) done) in
    if ltb n 10 then concat (digit n) done else rest

-- `str(n)`.
unfoldable pub decimal : ℕ → String
unfolding decimal_from digit concat
decimal n = decimal_from (suc n) n ""

-- `text[:n]`, in characters.
unfoldable pub clip : ℕ → String → String
clip zero s = String.[]
clip (suc n) String.[] = String.[]
clip (suc n) (String.◌∷◌ c s) = String.◌∷◌ c (clip n s)

pub count-clip : (n : ℕ) (s : String) → count (clip n s) ≤ n
unfolding clip
count-clip zero s = omega arith
count-clip (suc n) String.[] = omega arith
count-clip (suc n) (String.◌∷◌ c s) = rw (length-cons c (clip n s)) (omega (arith, count-clip n s))

four_oh_nine_six : decimal 4096 ≡ "4096"
unfolding decimal
four_oh_nine_six = refl

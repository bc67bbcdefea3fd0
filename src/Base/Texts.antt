-- ===== src/Base/Texts.antt =====
-- Texts, joined; the code points of a text.
use Prim.Native.Nat.{ℕ, zero, suc, ◌%◌, ◌/◌}
use Prim.Native.Char.{Char, code}
use stack4things_openstack_i.Base.Tests.{if◌then◌else◌, ltb}
use stack4things_openstack_i.Base.Int.{ℤ, negsuc, pos}
use Prim.Native.String.{String, ◌++◌ as join}
use mathlib.Core.List.{List, [], ◌∷◌}

-- s + t
abbrev pub concat : String → String → String
concat s t = join s t

abbrev pub codes : String → List ℕ
codes String.[] = []
codes (String.◌∷◌ c s) = code c ∷ codes s

-- the digit of a number below ten
unfoldable pub digit : ℕ → Char
digit zero = "0"
digit (suc zero) = "1"
digit (suc (suc zero)) = "2"
digit (suc (suc (suc zero))) = "3"
digit (suc (suc (suc (suc zero)))) = "4"
digit (suc (suc (suc (suc (suc zero))))) = "5"
digit (suc (suc (suc (suc (suc (suc zero)))))) = "6"
digit (suc (suc (suc (suc (suc (suc (suc zero))))))) = "7"
digit (suc (suc (suc (suc (suc (suc (suc (suc zero)))))))) = "8"
digit n = "9"

-- the digits of a number, written before a text
unfoldable pub digits : ℕ → ℕ → String → String
unfolding digit
digits zero n s = s
digits (suc fuel) n s =
    let rest = digits fuel (n / 10) (String.◌∷◌ (digit (n % 10)) s) in
    if ltb n 10 then String.◌∷◌ (digit n) s else rest

-- str(n)
unfoldable pub decimal : ℕ → String
unfolding digits
decimal n = digits (suc n) n ""

-- str(z)
unfoldable pub integer_text : ℤ → String
unfolding decimal
integer_text (pos n) = decimal n
integer_text (negsuc n) = concat "-" (decimal (suc n))

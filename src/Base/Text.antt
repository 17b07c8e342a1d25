-- ===== src/Base/Text.antt =====
-- Template literals: decimal numbers and joined texts.
use Prim.Native.Nat.{ℕ, zero, suc, ◌/◌, ◌%◌}
use Prim.Native.String.{String}
use Prim.Native.String
use mathlib.Core.List.{List, [], ◌∷◌}
use Prim.Native.Char.{code}
use mathlib.Core.Bool.{Bool, true, false, ◌&&◌, ◌||◌}
use voice_call.Base.Tests.{ltb, leb, ◌==◌, if◌then◌else◌}
use voice_call.Base.Rows.{any}

infixl 65 ◌+text◌
abbrev pub ◌+text◌ : String → String → String
a +text b = String.◌++◌ a b

digit : ℕ → String
digit zero = "0"
digit (suc zero) = "1"
digit (suc (suc zero)) = "2"
digit (suc (suc (suc zero))) = "3"
digit (suc (suc (suc (suc zero)))) = "4"
digit (suc (suc (suc (suc (suc zero))))) = "5"
digit (suc (suc (suc (suc (suc (suc zero)))))) = "6"
digit (suc (suc (suc (suc (suc (suc (suc zero))))))) = "7"
digit (suc (suc (suc (suc (suc (suc (suc (suc zero)))))))) = "8"
digit _ = "9"

decimal_from : ℕ → ℕ → String
decimal_from zero n = ""
decimal_from (suc fuel) n =
    let front = decimal_from fuel (n / 10) in
    if ltb n 10 then digit n else front +text digit (n % 10)

-- A number in a template literal. A number has fewer digits than its successor counts.
unfoldable pub decimal : ℕ → String
unfolding decimal_from digit
decimal n = decimal_from (suc n) n

-- parts.join(separator)
unfoldable pub join : String → List String → String
join separator [] = ""
join separator (x ∷ []) = x
join separator (x ∷ y ∷ rest) = x +text separator +text join separator (y ∷ rest)

-- White space and line ends, as String.prototype.trim knows them.
unfoldable pub is_space : ℕ → Bool
is_space c =
    (leb 9 c && leb c 13)
    || any (λ s. s == c) (32 ∷ 160 ∷ 5760 ∷ 8232 ∷ 8233 ∷ 8239 ∷ 8287 ∷ 12288 ∷ 65279 ∷ [])
    || (leb 8192 c && leb c 8202)

-- text.trim() === ""
unfoldable pub is_blank : String → Bool
unfolding is_space
is_blank String.[] = true
is_blank (String.◌∷◌ c s) = is_space (code c) && is_blank s

-- text.trim(): the blanks in front, and those with nothing but blanks behind them
trim_end : String → String
trim_end String.[] = ""
trim_end (String.◌∷◌ c s) =
    let rest = trim_end s in if is_space (code c) && is_blank s then "" else String.◌∷◌ c rest

unfoldable pub trim : String → String
unfolding trim_end is_space is_blank
trim String.[] = ""
trim (String.◌∷◌ c s) =
    let rest = trim s in if is_space (code c) then rest else trim_end (String.◌∷◌ c s)

-- A text that JavaScript's truth test fails: "".
abbrev pub is_empty : String → Bool
is_empty String.[] = true
is_empty (String.◌∷◌ c s) = false

-- text.length, in characters
unfoldable pub text_length : String → ℕ
text_length String.[] = 0
text_length (String.◌∷◌ c s) = suc (text_length s)

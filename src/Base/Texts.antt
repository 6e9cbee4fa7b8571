-- ===== src/Base/Texts.antt =====
-- `strings.SplitSeq`, `strings.Join` and the decimal form of a number.
pub mod Decimal
use Prim.Native.Nat.{◌/◌, ◌%◌, compare, Ordering}
use Prim.Native.Char.{Char, code}
use text.Mathlib.TextLemmas.{nil-append, cons-append}
use ansible_operator.Base.{
  ◌∙◌, ap, ℕ, zero, suc, String, ◌<>◌, ◌≡◌, refl, Bool, true, false, List, [], ◌∷◌, if◌then◌else◌,
  ltb,
}

infix 50 ◌==◌
abbrev ◌==◌ : ℕ → ℕ → Bool
a == b = elim (compare a b) [ Ordering.eq ↦ true | _ ↦ false ]

abbrev extend_first : Char → List String → List String
extend_first c [] = String.◌∷◌ c "" ∷ []
extend_first c (l ∷ ls) = String.◌∷◌ c l ∷ ls

-- The pieces of a text between newlines: one more than there are newlines.
unfoldable pub split_lines : String → List String
split_lines String.[] = "" ∷ []
split_lines (String.◌∷◌ c s) =
    let rest = split_lines s in if code c == 10 then "" ∷ rest else extend_first c rest

unfoldable pub join : String → List String → String
join separator [] = ""
join separator (a ∷ []) = a
join separator (a ∷ b ∷ l) = a <> (separator <> join separator (b ∷ l))

digit : ℕ → String
digit zero = "0"
digit (suc zero) = "1"
digit (suc (suc zero)) = "2"
digit (suc (suc (suc zero))) = "3"
digit (suc (suc (suc (suc zero)))) = "4"
digit (suc (suc (suc (suc (suc zero))))) = "5"
digit (suc (suc (suc (suc (suc (suc zero)))))) = "6"
digit (suc (suc (suc (suc (suc (suc (suc zero))))))) = "7"
digit (suc (suc (suc (suc (suc (suc (suc (suc zero)))))))) = "8"
digit _ = "9"

decimal_onto : ℕ → ℕ → String → String
decimal_onto zero n text = text
decimal_onto (suc fuel) n text =
    let more = decimal_onto fuel (n / 10) (digit (n % 10) <> text) in
    if ltb n 10 then digit n <> text else more

-- `%d`; the number itself is fuel enough, since it has fewer digits than `n + 1`.
unfoldable pub decimal : ℕ → String
unfolding decimal_onto digit
decimal n = decimal_onto (suc n) n ""

pub char-append : (c : Char) (text : String) → String.◌∷◌ c "" <> text ≡ String.◌∷◌ c text
char-append c text = cons-append c "" text ∙ ap (λ s. String.◌∷◌ c s) (nil-append text)

decimal_test : decimal 65535 ≡ "65535"
unfolding decimal
decimal_test = refl

split_test : split_lines "a\n\nb\n" ≡ "a" ∷ "" ∷ "b" ∷ "" ∷ []
unfolding split_lines
split_test = refl

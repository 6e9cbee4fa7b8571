-- ===== src/Base/Texts/Decimal.antt =====
-- The decimal form of a number, read back.
use Prim.Native.Nat.{◌/◌, ◌%◌, ◌*◌, ◌-◌}
use Prim.Native.Char.{Char, code}
use ansible_operator.Base.{
  ℕ, zero, suc, String, ◌<>◌, ◌≡◌, ◌∙◌, ap, ◌+◌, ◌<◌, ◌≤◌, true, false, arith, ltb, Bool-cases, inl,
  inr,
}
use ansible_operator.Base.Texts.{digit, decimal_onto, decimal, char-append}

-- `strconv.Atoi` on digits, after those that have been read
abbrev read_onto : ℕ → String → ℕ
read_onto n String.[] = n
read_onto n (String.◌∷◌ c s) = read_onto (n * 10 + (code c - 48)) s

abbrev pub number_of : String → ℕ
number_of = read_onto 0

read_onto-cons :
    (n : ℕ) (c : Char) (text : String)
    → read_onto n (String.◌∷◌ c "" <> text) ≡ read_onto (n * 10 + (code c - 48)) text
read_onto-cons n c text = ap (read_onto n) (char-append c text)

read_onto-digit :
    (n d : ℕ) (text : String) → d < 10 → read_onto n (digit d <> text) ≡ read_onto (n * 10 + d) text
unfolding digit
read_onto-digit n zero text h = read_onto-cons n "0" text ∙ ap (λ m. read_onto m text) (omega arith)
read_onto-digit n (suc zero) text h =
    read_onto-cons n "1" text ∙ ap (λ m. read_onto m text) (omega arith)
read_onto-digit n (suc (suc zero)) text h =
    read_onto-cons n "2" text ∙ ap (λ m. read_onto m text) (omega arith)
read_onto-digit n (suc (suc (suc zero))) text h =
    read_onto-cons n "3" text ∙ ap (λ m. read_onto m text) (omega arith)
read_onto-digit n (suc (suc (suc (suc zero)))) text h =
    read_onto-cons n "4" text ∙ ap (λ m. read_onto m text) (omega arith)
read_onto-digit n (suc (suc (suc (suc (suc zero))))) text h =
    read_onto-cons n "5" text ∙ ap (λ m. read_onto m text) (omega arith)
read_onto-digit n (suc (suc (suc (suc (suc (suc zero)))))) text h =
    read_onto-cons n "6" text ∙ ap (λ m. read_onto m text) (omega arith)
read_onto-digit n (suc (suc (suc (suc (suc (suc (suc zero))))))) text h =
    read_onto-cons n "7" text ∙ ap (λ m. read_onto m text) (omega arith)
read_onto-digit n (suc (suc (suc (suc (suc (suc (suc (suc zero)))))))) text h =
    read_onto-cons n "8" text ∙ ap (λ m. read_onto m text) (omega arith)
read_onto-digit n (suc (suc (suc (suc (suc (suc (suc (suc (suc d))))))))) text h =
    read_onto-cons n "9" text ∙ ap (λ m. read_onto m text) (omega arith)

ltb_iff : (a b : ℕ) → (ltb a b ≡ true → a < b) × (ltb a b ≡ false → b ≤ a)
ltb_iff a b = (λ h. ground arith, λ h. ground arith)

read_onto-decimal_onto :
    (fuel n : ℕ) (text : String)
    → n < fuel
    → read_onto 0 (decimal_onto fuel n text) ≡ read_onto n text
unfolding decimal_onto
read_onto-decimal_onto zero n text h = omega arith
read_onto-decimal_onto (suc fuel) n text h = elim (Bool-cases (ltb n 10)) [
  | inl small ↦
      rw small (
        read_onto-digit 0 n text ((ltb_iff n 10).0 small)
        ∙ ap (λ m. read_onto m text) (omega arith))
  | inr large ↦
      let large' = (ltb_iff n 10).1 large in
      rw large (
        read_onto-decimal_onto fuel (n / 10) (digit (n % 10) <> text) (omega (arith, large', h))
        ∙ read_onto-digit (n / 10) (n % 10) text (omega arith)
        ∙ ap (λ m. read_onto m text) (omega arith))
]

-- The decimal form of a number is read back as the number.
pub number_of-decimal : (n : ℕ) → number_of (decimal n) ≡ n
unfolding decimal
number_of-decimal n = read_onto-decimal_onto (suc n) n "" (omega arith)

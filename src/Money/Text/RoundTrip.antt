-- ===== src/Money/Text/RoundTrip.antt =====
-- Every amount is read back from its text.
use croupier.Prelude.{
  String, ℕ, suc, ◌≡◌, refl, sym, ap, ◌∙◌, ◌/◌, Bool, true, false, [], ◌∷◌, ◌++◌, arith, Bool-cases,
  inl, inr,
}
use croupier.Prelude.Int.{ℤ, pos, negsuc}
use croupier.Prelude.Int64.{IsInt64, IsInt64-fits}
use croupier.Errors.{ok}
use croupier.Money.{Money}
use croupier.Money.Text.{
  Text, format, minus, amount_string, matches_amount, is_negative_zero, unsigned, without_point,
  value, signed_value, negative, parse_amount_string, new, marshal, unmarshal,
}
use croupier.Money.Text.Numerals.{
  cents, value-numeral, without_point-numeral, signed_value-numeral, unsigned-format,
  unsigned-matches, with_point-format,
}

-- what the digits without their point spell
spelled : (n : ℕ) → value 0 (without_point (format (n / 100) ++ cents n)) ≡ n
unfolding without_point value
spelled n =
    ap (value 0) (without_point-numeral (suc (n / 100)) (n / 100) (cents n) (omega arith))
    ∙ value-numeral (suc (n / 100)) (n / 100) _ (omega arith)
    ∙ omega arith

signed : (n : ℕ) → signed_value (without_point (format (n / 100) ++ cents n)) ≡ pos n
signed n =
    ap signed_value (without_point-numeral (suc (n / 100)) (n / 100) (cents n) (omega arith))
    ∙ signed_value-numeral (suc (n / 100)) (n / 100) _ (omega arith)
    ∙ ap (λ s. pos (value 0 s))
        (sym (without_point-numeral (suc (n / 100)) (n / 100) (cents n) (omega arith)))
    ∙ ap pos (spelled n)

accepted :
    (s : Text) (z : ℤ)
    → matches_amount s ≡ true
    → is_negative_zero s ≡ false
    → signed_value (without_point s) ≡ z
    → IsInt64 z
    → parse_amount_string s ≡ ok z
unfolding parse_amount_string
accepted s z m nz v fits = let f = IsInt64-fits z fits in ground arith

unsigned-positive_zero : (s : Text) → unsigned s ≡ true → is_negative_zero s ≡ false
unfolding unsigned is_negative_zero
unsigned-positive_zero (a ∷ b ∷ c ∷ d ∷ e ∷ []) h = ground arith
unsigned-positive_zero _ h = refl

negative_zero-value :
    (s : Text) → is_negative_zero (minus ∷ s) ≡ true → value 0 (without_point s) ≡ 0
unfolding is_negative_zero value without_point
negative_zero-value (b ∷ c ∷ d ∷ e ∷ []) h = ground arith
negative_zero-value _ h = absurd (cc)

not_negative_zero :
    (m : ℕ) → is_negative_zero (minus ∷ format (suc m / 100) ++ cents (suc m)) ≡ false
not_negative_zero m =
    elim (Bool-cases (is_negative_zero (minus ∷ format (suc m / 100) ++ cents (suc m)))) [
      | inl none_left ↦
          let a = negative_zero-value (format (suc m / 100) ++ cents (suc m)) none_left in
          let b = spelled (suc m) in absurd (omega (arith, a, b))
      | inr other ↦ other
    ]

signed_negative :
    (m : ℕ)
    → signed_value (without_point (minus ∷ format (suc m / 100) ++ cents (suc m))) ≡ negsuc m
unfolding without_point
signed_negative m = ap negative (spelled (suc m))

matches_negative : (s : Text) → unsigned s ≡ true → matches_amount (minus ∷ s) ≡ true
unfolding matches_amount
matches_negative s h = h

-- Every int64 is read back from the text that `amountString` writes for it.
pub parse_amount_string-amount_string :
    (z : ℤ) → IsInt64 z → parse_amount_string (amount_string z) ≡ ok z
unfolding amount_string
parse_amount_string-amount_string (pos n) fits = rw (with_point-format n) (
    let u = unsigned-format (n / 100) n in
    accepted (format (n / 100) ++ cents n) (pos n) (unsigned-matches _ u)
      (unsigned-positive_zero _ u) (signed n) fits)
parse_amount_string-amount_string (negsuc m) fits = rw (with_point-format (suc m)) (
    accepted (minus ∷ format (suc m / 100) ++ cents (suc m)) (negsuc m)
      (matches_negative _ (unsigned-format (suc m / 100) (suc m))) (not_negative_zero m)
      (signed_negative m) fits)

-- A money in an accepted currency, with an amount that is an int64, is what `UnmarshalJSON` makes of what
-- `MarshalJSON` writes of it.
pub unmarshal-marshal :
    (parse_iso : String → Bool) (m : Money)
    → parse_iso m.currency ≡ true
    → IsInt64 m.amount
    → unmarshal parse_iso (marshal m) ≡ ok m
unfolding unmarshal marshal new
unmarshal-marshal parse_iso m known fits =
    let h = parse_amount_string-amount_string m.amount fits in rw (known, h) refl

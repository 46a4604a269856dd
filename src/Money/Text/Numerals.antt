-- ===== src/Money/Text/Numerals.antt =====
-- The decimal digits of a number, read back and matched.
use croupier.Prelude.{
  ℕ, zero, suc, ◌≡◌, ◌≢◌, refl, ◌∙◌, ap, sym, ◌/◌, ◌%◌, ◌<◌, ◌≤◌, ltb, Bool, true, false, [], ◌∷◌,
  ◌++◌, arith, if◌then◌else◌, length-append,
}
use native.Mathlib.Decide.{dec_lt}
use croupier.Prelude.Int.{pos}
use croupier.Money.Text.{
  Text, digit, point, numeral, format, pad, with_point, two_digits, more_digits, at_point, unsigned,
  matches_amount, without_point, value, signed_value,
}

numeral_fuel : (k j n : ℕ) → n < k → n < j → numeral k n ≡ numeral j n
unfolding numeral
numeral_fuel zero j n h g = absurd (omega arith)
numeral_fuel (suc k) zero n h g = absurd (omega arith)
numeral_fuel (suc k) (suc j) n h g = ground (arith, numeral_fuel k j (n / 10))

format_step : (n : ℕ) → 10 ≤ n → format n ≡ format (n / 10) ++ digit (n % 10) ∷ []
unfolding numeral
format_step n h = ground (arith, numeral_fuel n (suc (n / 10)) (n / 10))

append_two : (xs : Text) (x y : ℕ) → (xs ++ x ∷ []) ++ y ∷ [] ≡ xs ++ x ∷ y ∷ []
append_two [] x y = refl
append_two (a ∷ xs) x y = ap (λ s. a ∷ s) (append_two xs x y)

append_one : (xs : Text) (x : ℕ) (t : Text) → (xs ++ x ∷ []) ++ t ≡ xs ++ x ∷ t
append_one [] x t = refl
append_one (a ∷ xs) x t = ap (λ s. a ∷ s) (append_one xs x t)

pub value-numeral : (k n : ℕ) (t : Text) → n < k → value 0 (numeral k n ++ t) ≡ value n t
unfolding numeral value
value-numeral zero n t h = absurd (omega arith)
value-numeral (suc k) n t h = ground (
  arith,
  append_one (numeral k (n / 10)) (digit (n % 10)) t,
  value-numeral k (n / 10) (digit (n % 10) ∷ t),
)

pub without_point-numeral :
    (k n : ℕ) (t : Text) → n < k → without_point (numeral k n ++ t) ≡ numeral k n ++ without_point t
unfolding numeral without_point
without_point-numeral zero n t h = absurd (omega arith)
without_point-numeral (suc k) n t h = ground (
  arith,
  append_one (numeral k (n / 10)) (digit (n % 10)) t,
  append_one (numeral k (n / 10)) (digit (n % 10)) (without_point t),
  without_point-numeral k (n / 10) (digit (n % 10) ∷ t),
)

-- a numeral has no minus
pub signed_value-numeral :
    (k n : ℕ) (t : Text)
    → n < k
    → signed_value (numeral k n ++ t) ≡ pos (value 0 (numeral k n ++ t))
unfolding numeral value
signed_value-numeral zero n t h = absurd (omega arith)
signed_value-numeral (suc k) n t h = ground (
  arith,
  append_one (numeral k (n / 10)) (digit (n % 10)) t,
  signed_value-numeral k (n / 10) (digit (n % 10) ∷ t),
)

unsigned-positive :
    (k n : ℕ) (t : Text) → n < k → 1 ≤ n → more_digits t ≡ true → unsigned (numeral k n ++ t) ≡ true
unfolding numeral unsigned more_digits
unsigned-positive zero n t h g m = absurd (omega arith)
unsigned-positive (suc k) n t h g m = ground (
  arith,
  append_one (numeral k (n / 10)) (digit (n % 10)) t,
  unsigned-positive k (n / 10) (digit (n % 10) ∷ t),
)

-- the point and two digits
abbrev pub cents : ℕ → Text
cents n = point ∷ digit (n / 10 % 10) ∷ digit (n % 10) ∷ []

cents_match : (n : ℕ) → two_digits (digit (n / 10 % 10) ∷ digit (n % 10) ∷ []) ≡ true
unfolding two_digits
cents_match n = ground arith

cents_more : (n : ℕ) → more_digits (cents n) ≡ true
unfolding more_digits
cents_more n = cents_match n

-- A numeral with a point and two digits behind it is matched.
pub unsigned-format : (m n : ℕ) → unsigned (format m ++ cents n) ≡ true
unfolding unsigned numeral at_point
unsigned-format zero n = cents_match n
unsigned-format (suc m) n =
    unsigned-positive (suc (suc m)) (suc m) (cents n) (omega arith) (omega arith) (cents_more n)

pub unsigned-matches : (s : Text) → unsigned s ≡ true → matches_amount s ≡ true
unfolding unsigned matches_amount
unsigned-matches [] h = h
unsigned-matches (c ∷ s) h = ground arith

pad_two : (xs : Text) (x y : ℕ) → xs ≢ [] → pad (xs ++ x ∷ y ∷ []) ≡ xs ++ x ∷ y ∷ []
unfolding pad
pad_two [] x y h = absurd (h refl)
pad_two (a ∷ []) x y h = refl
pad_two (a ∷ b ∷ []) x y h = refl
pad_two (a ∷ b ∷ c ∷ xs) x y h = refl

with_point_two : (xs : Text) (x y : ℕ) → with_point (xs ++ x ∷ y ∷ []) ≡ xs ++ point ∷ x ∷ y ∷ []
unfolding with_point
with_point_two [] x y = refl
with_point_two (a ∷ xs) x y = ground (arith, length-append xs (x ∷ y ∷ []), with_point_two xs x y)

append-ne-nil : (xs : Text) (x : ℕ) → xs ++ x ∷ [] ≢ []
append-ne-nil [] x h = cc
append-ne-nil (a ∷ xs) x h = cc

chosen-ne-nil : (b : Bool) (s t : Text) → s ≢ [] → t ≢ [] → (if b then s else t) ≢ []
chosen-ne-nil true s t hs ht = hs
chosen-ne-nil false s t hs ht = ht

format-ne-nil : (n : ℕ) → format n ≢ []
unfolding numeral
format-ne-nil n =
    chosen-ne-nil (ltb n 10) (digit n ∷ []) _ (λ h. cc) (append-ne-nil (numeral n (n / 10)) _)

-- the last two digits stand behind those of the hundreds, which `pad` supplies
format-digit : (n : ℕ) → n < 10 → format n ≡ digit n ∷ []
unfolding numeral
format-digit n h = ground arith

three : {a b c d e f : ℕ} → a ≡ d → b ≡ e → c ≡ f → a ∷ b ∷ c ∷ [] ≡ d ∷ e ∷ f ∷ []
three p q r = rw (p, q, r) refl

padded_small :
    (n : ℕ)
    → n < 100
    → pad (format n) ≡ format (n / 100) ++ digit (n / 10 % 10) ∷ digit (n % 10) ∷ []
unfolding pad
padded_small n h = elim (dec_lt n 10) [
  | yes below ↦
      ap pad (format-digit n below)
      ∙ three (omega arith) (omega arith) (omega arith)
      ∙ ap (λ s. s ++ digit (n / 10 % 10) ∷ digit (n % 10) ∷ [])
          (sym (format-digit (n / 100) (omega arith)))
  | no above ↦
      ap pad (
        format_step n (omega arith)
        ∙ ap (λ s. s ++ digit (n % 10) ∷ []) (format-digit (n / 10) (omega arith)))
      ∙ three (omega arith) (omega arith) refl
      ∙ ap (λ s. s ++ digit (n / 10 % 10) ∷ digit (n % 10) ∷ [])
          (sym (format-digit (n / 100) (omega arith)))
]

padded_large :
    (n : ℕ)
    → 100 ≤ n
    → pad (format n) ≡ format (n / 100) ++ digit (n / 10 % 10) ∷ digit (n % 10) ∷ []
padded_large n h =
    ap pad (
      format_step n (omega arith)
      ∙ ap (λ s. s ++ digit (n % 10) ∷ []) (format_step (n / 10) (omega arith))
      ∙ append_two (format (n / 10 / 10)) (digit (n / 10 % 10)) (digit (n % 10)))
    ∙ pad_two (format (n / 10 / 10)) _ _ (format-ne-nil (n / 10 / 10))
    ∙ ap (λ m. format m ++ digit (n / 10 % 10) ∷ digit (n % 10) ∷ []) (omega arith)

-- what `amountString` writes of what is no less than 0
pub with_point-format : (n : ℕ) → with_point (pad (format n)) ≡ format (n / 100) ++ cents n
with_point-format n = elim (dec_lt n 100) [
  | yes small ↦ ap with_point (padded_small n small) ∙ with_point_two (format (n / 100)) _ _
  | no large ↦ ap with_point (padded_large n (omega arith)) ∙ with_point_two (format (n / 100)) _ _
]

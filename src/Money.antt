-- ===== src/Money.antt =====
-- internal/money/money.go: amounts in minor units of a currency, as an int64 that is checked for
-- overflow. An int64 is an integer ℤ, its wrap-around written out (Prelude/Int64); a Currency is its
-- text. `currency.ParseISO` of golang.org/x/text is the parameter `parse_iso`: whether it accepts.
pub mod Bounds
pub mod Text
use croupier.Prelude.{String, Bool, true, not, ◌&&◌, ◌||◌, str_eq, if◌then◌else◌}
use croupier.Prelude.Int.{ℤ, pos, ltb_ℤ, eqb_ℤ}
use croupier.Prelude.Int64.{min_int64, add64, sub64}
use croupier.Errors.{
  Error, Result, ok, err, invalid_currency, currency_mismatch, overflow, ◌>>=◌, ◌>>◌, fail_if,
}

pub record Money : Type 0 where
  pub currency : String
  pub amount : ℤ

-- `validateCurrency`
abbrev pub validate_currency : (String → Bool) → String → Result (Unit {0})
validate_currency parse_iso c = fail_if (not (parse_iso c)) (Error.money invalid_currency)

-- `FromMinorUnits`
unfoldable pub from_minor_units : (String → Bool) → String → ℤ → Result Money
from_minor_units parse_iso c n = do
  validate_currency parse_iso c
  ok (record { currency = c; amount = n })

-- `Currency.Zero`
abbrev pub currency_zero : String → Money
currency_zero c = record { currency = c; amount = pos 0 }

-- `Zero`
pub zero_of : (String → Bool) → String → Result Money
zero_of parse_iso c = do validate_currency parse_iso c; ok (currency_zero c)

unfoldable pub negate : Money → Result Money
negate m =
    if eqb_ℤ m.amount min_int64
    then err (Error.money overflow)
    else ok (record m { amount = sub64 (pos 0) m.amount })

unfoldable pub add : Money → Money → Result Money
add m n =
    if not (str_eq m.currency n.currency)
    then err (Error.money currency_mismatch)
    else let a = m.amount in
      let b = n.amount in
      let c = add64 a b in
      if ltb_ℤ (pos 0) b && ltb_ℤ c a || ltb_ℤ b (pos 0) && ltb_ℤ a c
      then err (Error.money overflow)
      else ok (record { currency = m.currency; amount = add64 m.amount n.amount })

unfoldable pub subtract : Money → Money → Result Money
subtract m n = do n' ← negate n; add m n'

unfoldable pub equal : Money → Money → Result Bool
equal m n =
    if not (str_eq m.currency n.currency)
    then err (Error.money currency_mismatch)
    else ok (eqb_ℤ m.amount n.amount)

unfoldable pub less_than : Money → Money → Result Bool
less_than m n =
    if not (str_eq m.currency n.currency)
    then err (Error.money currency_mismatch)
    else ok (ltb_ℤ m.amount n.amount)

abbrev pub is_negative : Money → Bool
is_negative m = ltb_ℤ m.amount (pos 0)

abbrev pub is_zero : Money → Bool
is_zero m = eqb_ℤ m.amount (pos 0)

abbrev pub is_positive : Money → Bool
is_positive m = ltb_ℤ (pos 0) m.amount

-- ===== src/Money/Bounds.antt =====
-- The checked arithmetic of internal/money/money.go against the unbounded integers.
use croupier.Prelude.{
  ◌≡◌, refl, ap, ◌∙◌, inl, inr, Bool-cases, Bool, true, false, not, ◌&&◌, ◌||◌, arith, str_eq,
  if◌then◌else◌,
}
use croupier.Prelude.Int.{ℤ, pos, negsuc, ◌+ℤ◌, ◌-ℤ◌, ltb_ℤ, eqb_ℤ, int_laws}
use croupier.Prelude.Int64.{IsInt64, fits_int64, min_int64, add64, sub64, wrap64_id, fits_IsInt64}
use croupier.Errors.{Error, Result, ok, err, currency_mismatch, overflow}
use croupier.Money.{Money, negate, add, subtract}

-- What an addition of unbounded integers gives, when the currencies agree and the sum fits.
abbrev pub exact : Money → Money → ℤ → Result Money
exact m n z =
    if not (str_eq m.currency n.currency)
    then err (Error.money currency_mismatch)
    else if fits_int64 z
    then ok (record { currency = m.currency; amount = z })
    else err (Error.money overflow)

-- The test that `Add` makes on the wrapped sum.
abbrev overflows : ℤ → ℤ → ℤ → Bool
overflows a b c = ltb_ℤ (pos 0) b && ltb_ℤ c a || ltb_ℤ b (pos 0) && ltb_ℤ a c

overflows-add64 :
    (a b : ℤ) → IsInt64 a → IsInt64 b → overflows a b (add64 a b) ≡ not (fits_int64 (a +ℤ b))
unfolding add64
overflows-add64 (pos a) (pos b) ha hb = ground arith
overflows-add64 (pos a) (negsuc b) ha hb = ground arith
overflows-add64 (negsuc a) (pos b) ha hb = ground arith
overflows-add64 (negsuc a) (negsuc b) ha hb = ground arith

add64_exact : (a b : ℤ) → fits_int64 (a +ℤ b) ≡ true → add64 a b ≡ a +ℤ b
unfolding add64
add64_exact a b h = wrap64_id (a +ℤ b) (fits_IsInt64 (a +ℤ b) h)

-- For amounts in the range of an int64: `Add` refuses amounts of different currencies, and otherwise its
-- overflow test refuses exactly the sums that do not fit in an int64, and every other sum is the exact
-- one.
pub add-exact :
    (m n : Money) → IsInt64 m.amount → IsInt64 n.amount → add m n ≡ exact m n (m.amount +ℤ n.amount)
unfolding add
add-exact m n hm hn =
    rw (overflows-add64 m.amount n.amount hm hn) (ground (arith, add64_exact m.amount n.amount))

sub64_neg : (b : ℤ) → IsInt64 b → eqb_ℤ b min_int64 ≡ false → sub64 (pos 0) b ≡ pos 0 -ℤ b
unfolding sub64 ◌-ℤ◌
sub64_neg (pos b) h e = ground arith
sub64_neg (negsuc b) h e = ground arith

neg_fits : (b : ℤ) → IsInt64 b → fits_int64 (pos 0 -ℤ b) ≡ not (eqb_ℤ b min_int64)
unfolding ◌-ℤ◌
neg_fits (pos b) h = ground arith
neg_fits (negsuc b) h = ground arith

sub_neg : (a b : ℤ) → a +ℤ (pos 0 -ℤ b) ≡ a -ℤ b
sub_neg a b = omega int_laws

neg_in_range : (b : ℤ) → IsInt64 b → eqb_ℤ b min_int64 ≡ false → IsInt64 (pos 0 -ℤ b)
neg_in_range b h e = fits_IsInt64 (pos 0 -ℤ b) (rw (neg_fits b h, e) refl)

pub negate_exact :
    (m : Money)
    → IsInt64 m.amount
    → negate m ≡ (
        if fits_int64 (pos 0 -ℤ m.amount)
        then ok (record m { amount = pos 0 -ℤ m.amount })
        else err (Error.money overflow))
unfolding negate
negate_exact m hm = rw (neg_fits m.amount hm) (ground (arith, sub64_neg m.amount hm))

-- For amounts in the range of an int64: a subtraction reports an overflow where the subtrahend is the
-- least int64; otherwise it refuses amounts of different currencies and differences that do not fit, and
-- every other difference is the exact one.
pub subtract-exact :
    (m n : Money)
    → IsInt64 m.amount
    → IsInt64 n.amount
    → subtract m n ≡ (
        if eqb_ℤ n.amount min_int64
        then err (Error.money overflow)
        else exact m n (m.amount -ℤ n.amount))
unfolding subtract negate
subtract-exact m n hm hn = elim (Bool-cases (eqb_ℤ n.amount min_int64)) [
  | inl e ↦ rw e refl
  | inr e ↦
      rw (e, sub64_neg n.amount hn e)
        (add-exact m (record n { amount = pos 0 -ℤ n.amount }) hm (neg_in_range n.amount hn e)
          ∙ ap (exact m n) (sub_neg m.amount n.amount))
]

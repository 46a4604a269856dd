-- ===== src/Money/Text.antt =====
-- internal/money/money.go: an amount as decimal text. A text is the list of its characters' codes, as the
-- amounts are ASCII; `strconv.FormatInt` and `ParseInt` and the regular expression are written out.
pub mod Numerals
pub mod RoundTrip
use croupier.Prelude.{
  ℕ, zero, suc, ◌+◌, ◌-◌, ◌*◌, ◌/◌, ◌%◌, ltb, leb, Bool, true, false, not, ◌&&◌, ◌||◌, ◌==◌, List,
  [], ◌∷◌, ◌++◌, String, length, if◌then◌else◌,
}
use croupier.Prelude.Int.{ℤ, pos, negsuc}
use croupier.Prelude.Int64.{fits_int64}
use croupier.Errors.{Error, Result, ok, err, invalid_amount, overflow, ◌>>=◌, ◌>>◌, fail_if}
use croupier.Money.{Money, validate_currency}

abbrev pub Text : Type 0
Text = List ℕ

abbrev pub minus : ℕ
minus = 45

abbrev pub point : ℕ
point = 46

-- the character of a digit
abbrev pub digit : ℕ → ℕ
digit d = 48 + d

-- the decimal digits of `n`, on fuel; one more than `n` is enough
unfoldable pub numeral : ℕ → ℕ → Text
numeral zero n = []
numeral (suc k) n =
    let front = numeral k (n / 10) in
    if ltb n 10 then digit n ∷ [] else front ++ digit (n % 10) ∷ []

-- `strconv.FormatInt` of what is no less than 0
abbrev pub format : ℕ → Text
format n = numeral (suc n) n

-- `if len(s) < 3 { s = strings.Repeat("0", 3-len(s)) + s }`
unfoldable pub pad : Text → Text
pad [] = digit 0 ∷ digit 0 ∷ digit 0 ∷ []
pad (a ∷ []) = digit 0 ∷ digit 0 ∷ a ∷ []
pad (a ∷ b ∷ []) = digit 0 ∷ a ∷ b ∷ []
pad (a ∷ b ∷ c ∷ s) = a ∷ b ∷ c ∷ s

-- `s[:len(s)-2] + "." + s[len(s)-2:]`
unfoldable pub with_point : Text → Text
with_point [] = point ∷ []
with_point (a ∷ s) = let rest = with_point s in if leb (length s) 1 then point ∷ a ∷ s else a ∷ rest

-- `amountString`
unfoldable pub amount_string : ℤ → Text
unfolding pad with_point
amount_string (pos n) = with_point (pad (format n))
amount_string (negsuc n) = minus ∷ with_point (pad (format (suc n)))

abbrev pub is_digit : ℕ → Bool
is_digit c = leb 48 c && leb c 57

-- `\d{2}$`
unfoldable pub two_digits : Text → Bool
two_digits (a ∷ b ∷ []) = is_digit a && is_digit b
two_digits _ = false

-- `\d*\.\d{2}$`
unfoldable pub more_digits : Text → Bool
more_digits [] = false
more_digits (c ∷ s) =
    let rest = more_digits s in if c == point then two_digits s else is_digit c && rest

-- `\.\d{2}$`
unfoldable pub at_point : Text → Bool
at_point [] = false
at_point (c ∷ s) = c == point && two_digits s

-- `(0|[1-9]\d*)\.\d{2}$`
unfoldable pub unsigned : Text → Bool
unsigned [] = false
unsigned (c ∷ s) = if c == digit 0 then at_point s else is_digit c && more_digits s

-- `amountRegex.MatchString`
unfoldable pub matches_amount : Text → Bool
matches_amount [] = false
matches_amount (c ∷ s) = if c == minus then unsigned s else unsigned (c ∷ s)

-- `"-0.00"`
unfoldable pub is_negative_zero : Text → Bool
is_negative_zero (a ∷ b ∷ c ∷ d ∷ e ∷ []) =
    a == minus && b == digit 0 && c == point && d == digit 0 && e == digit 0
is_negative_zero _ = false

-- `strings.Replace(s, ".", "", 1)`
unfoldable pub without_point : Text → Text
without_point [] = []
without_point (c ∷ s) = let rest = without_point s in if c == point then s else c ∷ rest

-- the number that digits spell behind `n`
unfoldable pub value : ℕ → Text → ℕ
value n [] = n
value n (c ∷ s) = value (n * 10 + (c - 48)) s

abbrev pub negative : ℕ → ℤ
negative zero = pos zero
negative (suc n) = negsuc n

-- `strconv.ParseInt` of digits with an optional minus, before the test of the range
abbrev pub signed_value : Text → ℤ
signed_value [] = pos 0
signed_value (c ∷ s) = if c == minus then negative (value 0 s) else pos (value 0 (c ∷ s))

abbrev pub in_range : ℤ → Result ℤ
in_range z = if fits_int64 z then ok z else err (Error.money overflow)

-- `parseAmountString`
unfoldable pub parse_amount_string : Text → Result ℤ
parse_amount_string s = do
  fail_if (not (matches_amount s) || is_negative_zero s) (Error.money invalid_amount)
  in_range (signed_value (without_point s))

-- `New`
unfoldable pub new : (String → Bool) → String → Text → Result Money
new parse_iso currency amount_text = do
  validate_currency parse_iso currency
  amount ← parse_amount_string amount_text
  ok (record { currency = currency; amount = amount })

-- `moneyJSON`
pub record MoneyJson : Type 0 where
  pub currency : String
  pub amount : Text

-- `MarshalJSON`, before encoding/json writes the object
unfoldable pub marshal : Money → MoneyJson
marshal m = record { currency = m.currency; amount = amount_string m.amount }

-- `UnmarshalJSON`, after encoding/json has read the object
unfoldable pub unmarshal : (String → Bool) → MoneyJson → Result Money
unfolding new
unmarshal parse_iso raw = new parse_iso raw.currency raw.amount

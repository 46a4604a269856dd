-- ===== src/App/Reconcile/Replay.antt =====
-- internal/app/wallet_reconcile.go: replaying the entries of a wallet adds up the rows of its ledger.
use mathlib.Core.Path.{subst}
use croupier.Prelude.{String, ◌≡◌, refl, sym, ◌∙◌, Bool, List, [], ◌∷◌, arith}
use croupier.Prelude.Int.{ℤ, pos, ◌+ℤ◌, ◌-ℤ◌, int_laws}
use croupier.Prelude.Int64.{IsInt64, fits_IsInt64}
use croupier.Errors.{ok, >>=-eq-ok, ok_injective}
use croupier.Values.{Uuid}
use croupier.Money.{Money, from_minor_units}
use croupier.Money.Bounds.{add-exact, subtract-exact}
use croupier.Wallet.Ledger.{LedgerEntry, Direction, debit, credit, other}
use croupier.Store.Tables.{LedgerRow}
use croupier.Store.Entries.{in_order, insert_row, rows_of, scan_ledger_entry, scan_entries}
use croupier.Store.Books.{net, signed_amount}
use croupier.App.Reconcile.{replay_entry, replay_entries}

-- what some rows add up to, whatever their wallet
abbrev pub sum_rows : List LedgerRow → ℤ
sum_rows [] = pos 0
sum_rows (r ∷ rs) = signed_amount r.direction r.amount +ℤ sum_rows rs

-- the amounts of some rows are those of a `bigint` column
abbrev pub InRange : List LedgerRow → Type 0
InRange [] = Unit
InRange (r ∷ rs) = IsInt64 r.amount × InRange rs

swap_sum : (a b c : ℤ) → a +ℤ (b +ℤ c) ≡ b +ℤ (a +ℤ c)
swap_sum a b c = omega int_laws

pub zero_sum : (a : ℤ) → pos 0 +ℤ a ≡ a
zero_sum a = omega int_laws

-- Sorting the rows loses and adds nothing.
module _ (r : LedgerRow) where
  sum_rows-insert_row :
      (rs : List LedgerRow)
      → sum_rows (insert_row r rs) ≡ signed_amount r.direction r.amount +ℤ sum_rows rs
  unfolding insert_row
  sum_rows-insert_row [] = refl
  sum_rows-insert_row (s ∷ rs) = ground (
    arith,
    sum_rows-insert_row rs,
    swap_sum (signed_amount r.direction r.amount) (signed_amount s.direction s.amount)
        (sum_rows rs),
  )

  InRange-insert_row :
      (rs : List LedgerRow) → IsInt64 r.amount → InRange rs → InRange (insert_row r rs)
  unfolding insert_row
  InRange-insert_row [] h hs = (h, hs)
  InRange-insert_row (s ∷ rs) h (h', hs) = ground (arith, InRange-insert_row rs h hs)

pub sum_rows-in_order : (rs : List LedgerRow) → sum_rows (in_order rs) ≡ sum_rows rs
unfolding in_order
sum_rows-in_order [] = refl
sum_rows-in_order (r ∷ rs) = rw (sum_rows-insert_row r (in_order rs), sum_rows-in_order rs) refl

pub InRange-in_order : (rs : List LedgerRow) → InRange rs → InRange (in_order rs)
unfolding in_order
InRange-in_order [] hs = hs
InRange-in_order (r ∷ rs) (h, hs) = InRange-insert_row r (in_order rs) h (InRange-in_order rs hs)

module _ (id : Uuid) where
  pub sum_rows-rows_of : (rs : List LedgerRow) → sum_rows (rows_of id rs) ≡ net id rs
  unfolding net rows_of
  sum_rows-rows_of [] = refl
  sum_rows-rows_of (r ∷ rs) = ground (arith, sum_rows-rows_of rs, zero_sum (net id rs))

  pub InRange-rows_of : (rs : List LedgerRow) → InRange rs → InRange (rows_of id rs)
  unfolding rows_of
  InRange-rows_of [] hs = hs
  InRange-rows_of (r ∷ rs) (h, hs) = ground (arith, InRange-rows_of rs hs)

abbrev pub sum_of : List LedgerEntry → ℤ
sum_of [] = pos 0
sum_of (e ∷ es) = signed_amount e.direction e.amount.amount +ℤ sum_of es

abbrev pub EntriesInRange : List LedgerEntry → Type 0
EntriesInRange [] = Unit
EntriesInRange (e ∷ es) = IsInt64 e.amount.amount × EntriesInRange es

module _ (parse_iso : String → Bool) (currency : String) where
  scanned_entry :
      (r : LedgerRow) {e : LedgerEntry}
      → scan_ledger_entry parse_iso currency r ≡ ok e
      → (e.direction ≡ r.direction) × (e.amount.amount ≡ r.amount)
  unfolding scan_ledger_entry from_minor_units
  scanned_entry r h = ground arith

  pub scanned :
      (rs : List LedgerRow) {es : List LedgerEntry}
      → scan_entries parse_iso currency rs ≡ ok es
      → InRange rs
      → (sum_of es ≡ sum_rows rs) × EntriesInRange es
  unfolding scan_entries
  scanned [] h hs =
      subst (λ es. (sum_of es ≡ pos 0) × EntriesInRange es) (ok_injective h) (refl, tt)
  scanned (r ∷ rs) {es} h (hr, hs) =
      let (e, row, rest) = >>=-eq-ok (scan_ledger_entry parse_iso currency r) _ h in
      let (es', rows, same) =
        >>=-eq-ok (scan_entries parse_iso currency rs) (λ es'. ok (e ∷ es')) rest in
      let (direction, amount) = scanned_entry r row in
      let (sum, all) = scanned rs rows hs in
      subst (λ es. (sum_of es ≡ sum_rows (r ∷ rs)) × EntriesInRange es) {x = e ∷ es'}
        (ok_injective same) (rw (direction, amount, sum) refl, (rw amount hr, all))

sub_neg : (a b : ℤ) → a +ℤ (pos 0 -ℤ b) ≡ a -ℤ b
sub_neg a b = omega int_laws

sum_assoc : (a b c : ℤ) → (a +ℤ b) +ℤ c ≡ a +ℤ (b +ℤ c)
sum_assoc a b c = omega int_laws

sum_zero : (a : ℤ) → a +ℤ pos 0 ≡ a
sum_zero a = omega int_laws

-- Replaying an entry adds its amount, or takes it off.
replayed_entry :
    (d : Direction) (c a : Money) {c' : Money}
    → IsInt64 c.amount
    → IsInt64 a.amount
    → replay_entry d c a ≡ ok c'
    → (c'.amount ≡ c.amount +ℤ signed_amount d a.amount) × IsInt64 c'.amount
unfolding replay_entry
replayed_entry credit c a hc ha h =
    let h' = sym (add-exact c a hc ha) ∙ h in ground (arith, fits_IsInt64 (c.amount +ℤ a.amount))
replayed_entry debit c a hc ha h =
    let h' = sym (subtract-exact c a hc ha) ∙ h in
    ground (arith, fits_IsInt64 (c.amount -ℤ a.amount), sub_neg c.amount a.amount)
replayed_entry (other s) c a hc ha h = ground (arith, sum_zero c.amount)

pub replayed :
    (es : List LedgerEntry) (c : Money) {c' : Money}
    → IsInt64 c.amount
    → EntriesInRange es
    → replay_entries c es ≡ ok c'
    → (c'.amount ≡ c.amount +ℤ sum_of es) × IsInt64 c'.amount
unfolding replay_entries
replayed [] c hc hs h = ground (arith, sum_zero c.amount)
replayed (e ∷ es) c {c'} hc (he, hs) h =
    let (c1, first, rest) = >>=-eq-ok (replay_entry e.direction c e.amount) _ h in
    let (moved, fits) = replayed_entry e.direction c e.amount hc he first in
    let (sum, in_range) = replayed es c1 fits hs rest in
    (
      rw (sum, moved) (sum_assoc c.amount (signed_amount e.direction e.amount.amount) (sum_of es)),
      in_range,
    )

pub zero_fits : IsInt64 (pos 0)
zero_fits = (omega arith, omega arith)

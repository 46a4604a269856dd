-- ===== src/App/Reconcile/Report.antt =====
-- internal/app/wallet_reconcile.go: what the report of a reconciliation says.
use mathlib.Core.Path.{subst}
use croupier.Prelude.{String, ◌≡◌, refl, sym, ◌∙◌, Bool, List, arith, Option-cases, inl, inr}
use croupier.Prelude.Int.{ℤ, pos, ◌-ℤ◌, eqb_ℤ, -ℤ_parts}
use croupier.Prelude.Int64.{IsInt64}
use croupier.Errors.{ok}
use croupier.Values.{Uuid}
use croupier.Money.{Money, subtract, currency_zero, from_minor_units}
use croupier.Money.Bounds.{subtract-exact}
use croupier.Wallet.{Wallet}
use croupier.Wallet.Ledger.{LedgerEntry}
use croupier.Store.Tables.{Db}
use croupier.Store.Wallets.{select_wallet, scan_wallet, wallet_with_id}
use croupier.Store.Entries.{in_order, rows_of, select_all_entries}
use croupier.Store.Rules.{
  Ensures, After, Ensures-bind, Ensures-bind-lift, Ensures-pure, Ensures-query, Ensures-within_tx,
}
use croupier.Store.Monad.{World}
use croupier.App.Env.{Env}
use croupier.Store.Books.{net, stored}
use croupier.App.Reconcile.{
  replay_entries, ReconciliationResult, reconcile_in_tx, reconcile, report_of,
}
use croupier.Store.Wallets.{find_wallet}
use croupier.Store.Entries.{all_ledger_entries}
use croupier.App.Reconcile.Replay.{
  InRange, sum_of, EntriesInRange, sum_rows-in_order, InRange-in_order, sum_rows-rows_of,
  InRange-rows_of, replayed, scanned, zero_sum, zero_fits,
}

-- The report is that of the tables: the stored balance, what the ledger adds up to, their difference,
-- and whether the two agree.
pub record IsReport (id : Uuid) (r : ReconciliationResult) (db : Db) : Type 0 where
  pub stored_is : r.stored_balance.amount ≡ stored id db.wallets
  pub calculated_is : r.calculated_balance.amount ≡ net id db.ledger
  pub difference_is : r.difference.amount ≡ stored id db.wallets -ℤ net id db.ledger
  pub consistent_is : r.consistent ≡ eqb_ℤ (stored id db.wallets) (net id db.ledger)

-- every amount lies in the range of its `bigint` column
pub record FitsColumns (id : Uuid) (db : Db) : Type 0 where
  pub balance_fits : IsInt64 (stored id db.wallets)
  pub amounts_fit : InRange db.ledger

difference_zero : (a b : ℤ) → eqb_ℤ (a -ℤ b) (pos 0) ≡ eqb_ℤ a b
difference_zero a b = ground (arith, -ℤ_parts a b)

selected :
    (parse_iso : String → Bool) (id : Uuid) (db : Db) {w : Wallet}
    → select_wallet parse_iso id db ≡ ok w
    → stored id db.wallets ≡ w.balance.amount
unfolding stored scan_wallet from_minor_units
selected parse_iso id db h = elim (Option-cases (wallet_with_id id db.wallets)) [
  | inl e ↦ ground arith
  | inr (r, e) ↦ ground arith
]

selected_entries :
    (parse_iso : String → Bool) (id : Uuid) (db : Db) {w : Wallet} {es : List LedgerEntry}
    → select_wallet parse_iso id db ≡ ok w
    → select_all_entries parse_iso id db ≡ ok es
    → InRange db.ledger
    → (sum_of es ≡ net id db.ledger) × EntriesInRange es
selected_entries parse_iso id db h h' hs = elim (Option-cases (wallet_with_id id db.wallets)) [
  | inl e ↦ ground arith
  | inr (r, e) ↦
      let rows = in_order (rows_of id db.ledger) in
      let (sum, fits) =
        scanned parse_iso r.currency rows (ground arith)
          (InRange-in_order (rows_of id db.ledger) (InRange-rows_of id db.ledger hs)) in
      (rw (sum, sum_rows-in_order (rows_of id db.ledger), sum_rows-rows_of id db.ledger) refl, fits)
]

-- what the two reads of a reconciliation have loaded
pub record Loaded (env : Env) (id : Uuid) (w : Wallet) (es : List LedgerEntry) (db : Db)
    : Type 0 where
  pub fits : FitsColumns id db
  pub wallet_is : select_wallet env.parse_iso id db ≡ ok w
  pub entries_are : select_all_entries env.parse_iso id db ≡ ok es

subtracted_amount :
    (m n : Money) {d : Money}
    → IsInt64 m.amount
    → IsInt64 n.amount
    → subtract m n ≡ ok d
    → d.amount ≡ m.amount -ℤ n.amount
subtracted_amount m n hm hn h = let h' = sym (subtract-exact m n hm hn) ∙ h in ground arith

module _ (env : Env) (id : Uuid) (w : Wallet) (es : List LedgerEntry) (db : Db)
    (l : Loaded env id w es db) where
  calculated_amount :
      {c : Money}
      → replay_entries (currency_zero w.balance.currency) es ≡ ok c
      → (c.amount ≡ net id db.ledger) × IsInt64 c.amount
  calculated_amount h =
      let (sum, fit) =
        selected_entries env.parse_iso id db l.wallet_is l.entries_are l.fits.amounts_fit in
      let (total, in_range) = replayed es (currency_zero w.balance.currency) zero_fits fit h in
      (rw (total, sum) (zero_sum (net id db.ledger)), in_range)

  report :
      (c d : Money)
      → replay_entries (currency_zero w.balance.currency) es ≡ ok c
      → subtract w.balance c ≡ ok d
      → IsReport id (report_of id w c d es) db
  report c d replayed_ok subtracted =
      let (calculated, fits) = calculated_amount replayed_ok in
      let held = selected env.parse_iso id db l.wallet_is in
      let difference =
        subtracted_amount w.balance c (subst IsInt64 held l.fits.balance_fits) fits subtracted in
      record {
        stored_is = sym held;
        calculated_is = calculated;
        difference_is = rw (held, difference, calculated) refl;
        consistent_is = rw (held, difference, calculated) (difference_zero _ _);
      }

module _ (env : Env) (id : Uuid) where
  reconcile_in_tx-IsReport : Ensures (FitsColumns id) (reconcile_in_tx env id) (IsReport id)
  unfolding reconcile_in_tx find_wallet all_ledger_entries
  reconcile_in_tx-IsReport =
      Ensures-bind {Q = λ w db. FitsColumns id db × (select_wallet env.parse_iso id db ≡ ok w)}
        (Ensures-query _ (λ w db e p. (p, e)))
        (λ w.
          Ensures-bind {Q = λ es db. Loaded env id w es db}
            (Ensures-query _
              (λ es db e (p, e'). record { fits = p; wallet_is = e'; entries_are = e }))
            (λ es. Ensures-bind-lift _ (λ c replayed_ok. Ensures-bind-lift _ (λ d subtracted.
              Ensures-pure _ (λ db l. report env id w es db l c d replayed_ok subtracted)))))

  reconciled : Ensures (FitsColumns id) (reconcile env id) (IsReport id)
  unfolding reconcile
  reconciled = Ensures-within_tx reconcile_in_tx-IsReport

  -- A reconciliation that returns its report from tables whose amounts are those of `bigint` columns
  -- reports the balance in the row of the wallet, the sum of all ledger entries of the wallet (credits
  -- less debits) as the calculated balance, the first less the second as the difference, and
  -- `consistent` exactly when the two agree.
  pub reconcile-IsReport :
      (w : World) → FitsColumns id w.db → After (IsReport id) (reconcile env id w)
  reconcile-IsReport w h = reconciled.at w h

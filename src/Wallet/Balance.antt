-- ===== src/Wallet/Balance.antt =====
-- What credit and debit do to a balance, on every branch, and that the ledger accepts the entry of
-- every movement that they make.
use croupier.Prelude.{◌≡◌, ◌≢◌, not, arith, str_eq, eq_iff, if◌then◌else◌}
use croupier.Prelude.Int.{ℤ, pos, ◌+ℤ◌, ◌-ℤ◌, ◌≤ℤ◌, ◌<ℤ◌, ltb_ℤ, +ℤ_parts, -ℤ_parts, int_laws}
use croupier.Prelude.Int64.{IsInt64, max_int64, add64}
use croupier.Errors.{
  Error, ok, err, currency_mismatch, overflow, insufficient_balance, non_positive_amount,
}
use croupier.Values.{Uuid, nil_uuid, Time}
use croupier.Money.{Money, equal}
use croupier.Money.Bounds.{add-exact, subtract-exact}
use croupier.Wallet.{Wallet, credit, debit}
use croupier.Wallet.Ledger.{
  LedgerEntry, NewLedgerEntryInput, Direction, debit as debit_direction, credit as credit_direction,
  new_ledger_entry,
}

-- A balance that is never negative, within an int64.
abbrev pub IsSolvent : Wallet → Type 0
IsSolvent w = (pos 0 ≤ℤ w.balance.amount) × (w.balance.amount ≤ℤ max_int64)

-- The wallet behind a movement to the balance `z`.
abbrev pub moved : Wallet → ℤ → Wallet
moved w z = record w {
  balance = record { currency = w.balance.currency; amount = z };
  version = add64 w.version (pos 1);
}

module _ (w : Wallet) (amount : Money) (solvent : IsSolvent w) (int64 : IsInt64 amount.amount) where
  -- A debit of an amount in the range of an int64 from a solvent wallet is refused for an amount that is not positive, for another
  -- currency and for more than the balance, in this order; otherwise exactly the amount leaves.
  pub debit_exact : debit w amount ≡ (
      if not (ltb_ℤ (pos 0) amount.amount)
      then err (Error.wallet non_positive_amount)
      else if not (str_eq w.balance.currency amount.currency)
      then err (Error.money currency_mismatch)
      else if ltb_ℤ w.balance.amount amount.amount
      then err (Error.wallet insufficient_balance)
      else ok (moved w (w.balance.amount -ℤ amount.amount)))
  unfolding debit
  debit_exact = rw (subtract-exact w.balance amount (omega arith) int64) (grind int_laws)

  -- A credit of an amount in the range of an int64 to a solvent wallet is refused for an amount that is not positive, for another
  -- currency and for a sum that does not fit; otherwise exactly the amount arrives.
  pub credit_exact : credit w amount ≡ (
      if not (ltb_ℤ (pos 0) amount.amount)
      then err (Error.wallet non_positive_amount)
      else if not (str_eq w.balance.currency amount.currency)
      then err (Error.money currency_mismatch)
      else if ltb_ℤ max_int64 (w.balance.amount +ℤ amount.amount)
      then err (Error.money overflow)
      else ok (moved w (w.balance.amount +ℤ amount.amount)))
  unfolding credit
  credit_exact = rw (add-exact w.balance amount (omega arith) int64) (grind int_laws)

-- A movement keeps the wallet solvent and in its currency, and changes nothing but the balance and
-- the version.
pub record IsMoved (w w' : Wallet) (z : ℤ) : Type 0 where
  pub solvent : IsSolvent w'
  pub is_moved : w' ≡ moved w z

pub debit-IsMoved :
    (w : Wallet) (amount : Money) {w' : Wallet}
    → IsSolvent w
    → IsInt64 amount.amount
    → debit w amount ≡ ok w'
    → IsMoved w w' (w.balance.amount -ℤ amount.amount)
      × (pos 0 <ℤ amount.amount)
      × (w.balance.currency ≡ amount.currency)
debit-IsMoved w amount solvent int64 e = ground (
  arith,
  debit_exact w amount solvent int64,
  -ℤ_parts w.balance.amount amount.amount,
  eq_iff w.balance.currency amount.currency,
)

pub credit-IsMoved :
    (w : Wallet) (amount : Money) {w' : Wallet}
    → IsSolvent w
    → IsInt64 amount.amount
    → credit w amount ≡ ok w'
    → IsMoved w w' (w.balance.amount +ℤ amount.amount)
      × (pos 0 <ℤ amount.amount)
      × (w.balance.currency ≡ amount.currency)
credit-IsMoved w amount solvent int64 e = ground (
  arith,
  credit_exact w amount solvent int64,
  +ℤ_parts w.balance.amount amount.amount,
  eq_iff w.balance.currency amount.currency,
)

-- the input that `process` builds for a movement from `w` to `w'`
abbrev pub entry_of : Direction → Uuid → Money → Wallet → Wallet → NewLedgerEntryInput
entry_of direction transaction_id amount w w' = record {
  wallet_id = w.id;
  transaction_id = transaction_id;
  direction = direction;
  amount = amount;
  balance_before = w.balance;
  balance_after = w'.balance;
}

-- the entry of an input
abbrev pub the_entry : Uuid → Time → NewLedgerEntryInput → LedgerEntry
the_entry fresh now input = record {
  id = fresh;
  wallet_id = input.wallet_id;
  transaction_id = input.transaction_id;
  direction = input.direction;
  amount = input.amount;
  balance_before = input.balance_before;
  balance_after = input.balance_after;
  created_at = now;
}

-- The entry of an accepted input holds what the input holds.
pub new_ledger_entry_lem :
    (fresh : Uuid) (now : Time) (input : NewLedgerEntryInput) {e : LedgerEntry}
    → new_ledger_entry fresh now input ≡ ok e
    → e ≡ the_entry fresh now input
unfolding new_ledger_entry
new_ledger_entry_lem fresh now input h = ground arith

-- A movement does not change whose wallet it is.
pub id-debit : (w : Wallet) (amount : Money) {w' : Wallet} → debit w amount ≡ ok w' → w'.id ≡ w.id
unfolding debit
id-debit w amount h = ground arith

pub id-credit : (w : Wallet) (amount : Money) {w' : Wallet} → credit w amount ≡ ok w' → w'.id ≡ w.id
unfolding credit
id-credit w amount h = ground arith

module _ (w : Wallet) (amount : Money) (transaction_id fresh : Uuid) (now : Time) {w' : Wallet}
    (solvent : IsSolvent w) (int64 : IsInt64 amount.amount) (has_id : w.id ≢ nil_uuid)
    (has_transaction : transaction_id ≢ nil_uuid) where
  -- The ledger accepts the entry of every debit, of an amount in the range of an int64, that a solvent
  -- wallet has made, where the identifiers of the wallet and of the transaction are not nil.
  pub new_ledger_entry-debit :
      debit w amount ≡ ok w'
      → new_ledger_entry fresh now (entry_of debit_direction transaction_id amount w w')
        ≡ ok (the_entry fresh now (entry_of debit_direction transaction_id amount w w'))
  unfolding new_ledger_entry equal
  new_ledger_entry-debit e =
      let (m, positive, same) = debit-IsMoved w amount solvent int64 e in
      ground (
        arith,
        m.is_moved,
        m.solvent,
        positive,
        same,
        subtract-exact w.balance amount (omega arith) int64,
        -ℤ_parts w.balance.amount amount.amount,
        eq_iff w.balance.currency amount.currency,
        eq_iff w.balance.currency w.balance.currency,
      )

  -- The ledger accepts the entry of every credit, of an amount in the range of an int64, that a solvent
  -- wallet has made, where the identifiers of the wallet and of the transaction are not nil.
  pub new_ledger_entry-credit :
      credit w amount ≡ ok w'
      → new_ledger_entry fresh now (entry_of credit_direction transaction_id amount w w')
        ≡ ok (the_entry fresh now (entry_of credit_direction transaction_id amount w w'))
  unfolding new_ledger_entry equal
  new_ledger_entry-credit e =
      let (m, positive, same) = credit-IsMoved w amount solvent int64 e in
      ground (
        arith,
        m.is_moved,
        m.solvent,
        positive,
        same,
        add-exact w.balance amount (omega arith) int64,
        +ℤ_parts w.balance.amount amount.amount,
        eq_iff w.balance.currency amount.currency,
        eq_iff w.balance.currency w.balance.currency,
      )

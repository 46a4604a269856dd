-- ===== src/Store/Books.antt =====
-- The books: what a wallet's row says it holds, what its ledger entries add up to, and how the writes
-- on the tables change the two.
pub mod Writes
pub mod Inside
use croupier.Prelude.{
  String, ==_eq, find-holds, ℕ, inl, inr, Option-cases, ◌≡◌, refl, Bool, true, false, ◌==◌, Option,
  none, some, List, [], ◌∷◌, ◌++◌, map, find, arith, if◌then◌else◌,
}
use croupier.Prelude.Int.{ℤ, pos, ◌+ℤ◌, ◌-ℤ◌, ◌≤ℤ◌, +ℤ_parts, -ℤ_parts, int_laws, eq_of_parts}
use croupier.Errors.{Result, ok, err}
use croupier.Values.{Uuid}
use croupier.Wallet.Ledger.{Direction, debit, credit, other}
use croupier.Store.Tables.{Db, WalletRow, LedgerRow}
use croupier.Wallet.{Wallet}
use croupier.Money.{from_minor_units}
use croupier.Store.Wallets.{
  select_wallet, scan_wallet, wallet_with_id, replace_wallet, update_wallet, upsert_wallet,
}

abbrev pub balance_of : Option WalletRow → ℤ
balance_of none = pos 0
balance_of (some r) = r.balance

-- what the row of a wallet says it holds
unfoldable pub stored : Uuid → List WalletRow → ℤ
stored id ws = balance_of (wallet_with_id id ws)

abbrev pub signed_amount : Direction → ℤ → ℤ
signed_amount debit a = pos 0 -ℤ a
signed_amount credit a = a
signed_amount (other s) a = pos 0

abbrev pub contribution : Uuid → LedgerRow → ℤ
contribution id r = if r.wallet_id == id then signed_amount r.direction r.amount else pos 0

-- what the entries of a wallet add up to
unfoldable pub net : Uuid → List LedgerRow → ℤ
net id [] = pos 0
net id (r ∷ rs) = contribution id r +ℤ net id rs

-- The ledger of every wallet adds up to its stored balance.
pub record IsReconciled (db : Db) : Type 0 where
  pub at : (id : Uuid) → net id db.ledger ≡ stored id db.wallets

pub net-append :
    (id : Uuid) (rs : List LedgerRow) (r : LedgerRow)
    → net id (rs ++ r ∷ []) ≡ net id rs +ℤ contribution id r
unfolding net
net-append id [] r = omega int_laws
net-append id (s ∷ rs) r = rw (net-append id rs r) (omega int_laws)

abbrev pub updated : Bool → WalletRow → Option WalletRow → Option WalletRow
updated true new none = none
updated true new (some r) = some (update_wallet new r)
updated false new o = o

pub wallet_with_id-replace :
    (new : WalletRow) (id : Uuid) (ws : List WalletRow)
    → wallet_with_id id (replace_wallet new ws) ≡ updated (new.id == id) new (wallet_with_id id ws)
unfolding replace_wallet
wallet_with_id-replace new id [] = ground arith
wallet_with_id-replace new id (r ∷ ws) = ground (arith, wallet_with_id-replace new id ws)

stored-append :
    (new : WalletRow) (id : Uuid) (ws : List WalletRow)
    → wallet_with_id new.id ws ≡ none
    → stored id (ws ++ new ∷ []) ≡ (if new.id == id then new.balance else stored id ws)
unfolding stored
stored-append new id [] h = ground arith
stored-append new id (r ∷ ws) h = ground (arith, stored-append new id ws)

module _ (new : WalletRow) (ws : List WalletRow) {ws' : List WalletRow}
    (upserted : upsert_wallet new ws ≡ ok ws') where
  upsert_old : (old : WalletRow) → wallet_with_id new.id ws ≡ some old → ws' ≡ replace_wallet new ws
  unfolding upsert_wallet
  upsert_old old e = ground arith

  upsert_new : wallet_with_id new.id ws ≡ none → ws' ≡ ws ++ new ∷ []
  unfolding upsert_wallet
  upsert_new e = ground arith

  stored-replace :
      (id : Uuid) (old : WalletRow)
      → wallet_with_id new.id ws ≡ some old
      → stored id (replace_wallet new ws) ≡ (if new.id == id then new.balance else stored id ws)
  unfolding stored
  stored-replace id old e = rw (wallet_with_id-replace new id ws) (ground arith)

  -- After an upsert the row holds the new balance, and no other balance has changed.
  pub stored-upsert :
      (id : Uuid) → stored id ws' ≡ (if new.id == id then new.balance else stored id ws)
  stored-upsert id = elim (Option-cases (wallet_with_id new.id ws)) [
    | inl e ↦ rw (upsert_new e) (stored-append new id ws e)
    | inr (old, e) ↦ rw (upsert_old old e) (stored-replace id old e)
  ]

-- The wallet that a lookup returns holds the balance of its row.
pub stored-select :
    (parse_iso : String → Bool) (id : Uuid) (db : Db) {w : Wallet}
    → select_wallet parse_iso id db ≡ ok w
    → stored w.id db.wallets ≡ w.balance.amount
unfolding stored scan_wallet from_minor_units
stored-select parse_iso id db {w} h = elim (Option-cases (wallet_with_id id db.wallets)) [
  | inl e ↦ ground arith
  | inr (r, e) ↦
      let same : r.id ≡ id =
        ==_eq r.id id (find-holds (λ (r : WalletRow). r.id == id) db.wallets e) in
      ground (arith, same)
]

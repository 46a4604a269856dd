-- ===== src/App/Submit/Lands.antt =====
-- internal/app/wager_submit.go: the run of a bet or a win that its wallet affords.
use croupier.Prelude.{true, Option, none, ℕ, suc, ◌≡◌, refl, some, [], ◌∷◌, ◌++◌}
use croupier.Prelude.Int.{ℤ, pos, ◌≤ℤ◌, ◌+ℤ◌, int_laws}
use croupier.Prelude.Int64.{add64, wrap64_id}
use croupier.Errors.{ok}
use croupier.Wallet.Ledger.{LedgerEntry}
use croupier.Wallet.Balance.{moved, entry_of, the_entry}
use croupier.Wager.{Transaction, processed}
use croupier.Outbox.{Entry}
use croupier.Store.Tables.{Db, WalletRow}
use croupier.Store.Monad.{Session, opened}
use croupier.Store.Quiet.{IsLive, quiet, Runs}
use croupier.Store.Quiet.Inserts
use croupier.Values.{Uuid, Time}
use croupier.Store.Wallets.{
  wallet_with_id, wallet_row, replace_wallet, update_wallet, upsert_wallet,
}
use croupier.Store.Entries.{ledger_row, store_ledger_entry}
use croupier.Store.Wagers.{has_referent, wager_row}
use croupier.Store.Outbox.{upsert_entry}
use croupier.App.Env.{Env}
use croupier.App.Movement.{SubmitInput, first_processing, settle, move_balance}
use croupier.App.Movement.Lands.{IsEvent, Works, settled, record_movement-Runs}
use croupier.App.Submit.{submit}
use croupier.App.Submit.Offers.{
  IsOffered, wallet_of, resolved, known, has_id, stored_row, submit-Runs,
}
use croupier.App.Submit.Plays.{
  Affords, direction_of, balance_behind, IsPlayed, played, Affords-IsPlay,
}

-- `now` is when the reference was resolved, if there is one, and `r` counts the readings before the
-- movement.
module _ (env : Env) (input : SubmitInput) (row : WalletRow) (db : Db) (u r0 : ℕ)
    (p : IsOffered env input row db u) (reference : Option Uuid) (now : Time) (r : ℕ) where
  abbrev pub behind : ℤ
  behind = balance_behind input.transaction.kind row.balance input.transaction.amount.amount

  abbrev pub landed : Transaction
  landed = settled (resolved env input row db u r0 p reference now) (env.clock (suc r))

  abbrev pub the_movement : LedgerEntry
  the_movement = the_entry (env.new_uuid (suc u)) (env.clock r) (
      entry_of (direction_of input.transaction.kind) (env.new_uuid u) input.transaction.amount
        (wallet_of row) (moved (wallet_of row) behind))

  abbrev pub moved_row : WalletRow
  moved_row = wallet_row (moved (wallet_of row) behind)

  abbrev with_transaction : Db
  with_transaction = record db { wagers = db.wagers ++ wager_row env.digest landed ∷ [] }

  abbrev with_balance : Db
  with_balance = record with_transaction { wallets = replace_wallet moved_row db.wallets }

  abbrev pub with_entry : Db
  with_entry = record with_balance { ledger = db.ledger ++ ledger_row the_movement ∷ [] }

  versioned : pos 1 ≤ℤ add64 row.version (pos 1)
  unfolding add64
  versioned = rw (wrap64_id (row.version +ℤ pos 1) (omega int_laws)) (omega int_laws)

  module _
      (facts : IsPlayed env input.transaction.kind (wallet_of row) input.transaction.amount) where
    pub rebalanced : upsert_wallet moved_row db.wallets ≡ ok (replace_wallet moved_row db.wallets)
    rebalanced =
        Inserts.replaced moved_row db.wallets facts.solvent versioned
          (known env input row db u r0 p)

    pub still_there :
        wallet_with_id row.id (replace_wallet moved_row db.wallets)
        ≡ some (update_wallet moved_row row)
    still_there =
        Inserts.still_known moved_row db.wallets facts.solvent versioned
          (known env input row db u r0 p)

    third : store_ledger_entry the_movement with_balance ≡ ok with_entry
    third =
        Inserts.entered the_movement with_balance p.positive p.solvent.0 facts.solvent
          facts.consistent still_there p.fresh_entry p.first_entry

    -- The wallet moves, and everything of it is recorded.
    pub settles :
        Works env
        → has_referent (env.new_uuid u) reference db.wagers ≡ true
        → (e1 e2 : Entry) × Runs
            (settle env
              (resolved env input row db u r0 p reference now)
              input.correlation_id
              (direction_of input.transaction.kind)
              (wallet_of row)
              (move_balance env
                (direction_of input.transaction.kind)
                (wallet_of row)
                input.transaction.amount))
            (quiet opened db (suc u) r)
            (first_processing landed (moved (wallet_of row) behind).balance)
            (quiet opened
              (record with_entry { outbox = upsert_entry e2 (upsert_entry e1 db.outbox) })
              (suc (suc (suc (suc u))))
              (suc (suc (suc (suc (suc (suc r)))))))
          × IsEvent e1 "WagerTransactionProcessed" input.correlation_id none
          × IsEvent e2 "WalletBalanceChanged" input.correlation_id (some (env.uuid_text e1.id))
    unfolding settle
    settles works referent = rw facts.moves (
        record_movement-Runs env works input.correlation_id p.has_correlation
          (resolved env input row db u r0 p reference now) (direction_of input.transaction.kind)
          (wallet_of row) behind (suc u) r refl
          (facts.enters (env.new_uuid (suc u)) (env.clock r) (env.new_uuid u) (works.new_uuid u))
          (has_id env input row db u r0 p) (works.new_uuid u) db with_transaction with_balance
          with_entry
          (stored_row env input row db u r0 p reference processed "" (env.clock (suc r)) referent)
          (rw rebalanced refl) third)

module _ (env : Env) (works : Works env) (input : SubmitInput) (row : WalletRow) (db : Db) (u r : ℕ)
    (p : IsOffered env input row db u)
    (affords : Affords input.transaction.kind row.balance input.transaction.amount.amount) where
  pub affordable : IsPlayed env input.transaction.kind (wallet_of row) input.transaction.amount
  affordable =
      played (wallet_of row) input.transaction.amount (has_id env input row db u r p) p.solvent
        p.positive p.int64 p.currency env input.transaction.kind affords

  pub submits :
      (s : Session)
      → IsLive s
      → (e1 e2 : Entry) × Runs
          (submit env input)
          (quiet s db u r)
          (first_processing
            (landed env input row db u r p none (env.clock r) (suc r))
            (moved
              (wallet_of row)
              (behind env input row db u r p none (env.clock r) (suc r))).balance)
          (quiet s
            (record (with_entry env input row db u r p none (env.clock r) (suc r)) {
              outbox = upsert_entry e2 (upsert_entry e1 db.outbox);
            })
            (suc (suc (suc (suc u))))
            (suc (suc (suc (suc (suc (suc (suc r))))))))
        × IsEvent e1 "WagerTransactionProcessed" input.correlation_id none
        × IsEvent e2 "WalletBalanceChanged" input.correlation_id (some (env.uuid_text e1.id))
  submits s live =
      let (e1, e2, runs, t1, t2) =
        settles env input row db u r p none (env.clock r) (suc r) affordable works refl in
      (
        e1,
        e2,
        submit-Runs env input row db u r p s live
            (Affords-IsPlay input.transaction.kind row.balance input.transaction.amount.amount
              affords)
            runs,
        t1,
        t2,
      )

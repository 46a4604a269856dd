-- ===== src/App/Submit/Live.antt =====
-- internal/app/wager_submit.go: a bet or a win that nothing stands against is processed.
use mathlib.Core.Path.{subst}
use croupier.Prelude.{
  suc, Option, some, none, ℕ, ◌≡◌, refl, sym, ap, ◌∙◌, true, false, [], ◌∷◌, ◌++◌, List, ◌==◌,
  if◌then◌else◌,
}
use croupier.Prelude.Int.{ℤ}
use croupier.Errors.{Result, ok, err}
use croupier.Values.{Uuid, Time}
use croupier.Wager.{is_processed}
use croupier.Outbox.{Entry}
use croupier.Outbox.Inbox.{Inbox}
use croupier.Store.Tables.{WalletRow, LedgerRow}
use croupier.Store.Monad.{World, idle}
use croupier.Store.Wagers.{wager_row}
use croupier.Store.Outbox.{upsert_entry}
use croupier.Store.Quiet.{quiet, quiet_eta}
use croupier.Store.Books.{stored, stored-upsert}
use croupier.App.Env.{Env}
use croupier.App.Movement.{SubmitInput, SubmitResult, first_processing}
use croupier.App.Movement.Lands.{IsEvent, Works}
use croupier.App.Submit.{submit}
use croupier.App.Submit.Plays.{Affords, direction_of, balance_behind, IsPlayed}
use croupier.App.Submit.Offers.{wallet_of, IsOffered, same_wallet}
use croupier.App.Submit.Lands.{
  affordable, submits, landed, with_entry, moved_row, rebalanced, the_movement,
}
use croupier.Store.Entries.{ledger_row}

-- the balance behind the bet or the win of a submission
abbrev pub new_balance : SubmitInput → WalletRow → ℤ
new_balance input row =
    balance_behind input.transaction.kind row.balance input.transaction.amount.amount

-- the submission has been processed for the first time, and everything is recorded
pub record IsLanded (env : Env) (input : SubmitInput) (row : WalletRow) (w : World)
    (result : SubmitResult) (w' : World) : Type 0 where
  pub processed : is_processed result.transaction.status ≡ true
  pub first_time : result.idempotent_replay ≡ false
  pub balance : result.balance.amount ≡ new_balance input row
  pub wallets :
      (id : Uuid)
      → stored id w'.db.wallets ≡ (
          if input.transaction.wallet_id == id
          then new_balance input row
          else stored id w.db.wallets)
  pub recorded : w'.db.wagers ≡ w.db.wagers ++ wager_row env.digest result.transaction ∷ []
  pub entry : LedgerRow
  pub entered : w'.db.ledger ≡ w.db.ledger ++ entry ∷ []
  pub entry_wallet : entry.wallet_id ≡ input.transaction.wallet_id
  pub entry_transaction : entry.transaction_id ≡ result.transaction.id
  pub entry_direction : entry.direction ≡ direction_of input.transaction.kind
  pub entry_amount : entry.amount ≡ input.transaction.amount.amount
  pub processed_event : Entry
  pub balance_changed : Entry
  pub announced :
      w'.db.outbox ≡ upsert_entry balance_changed (upsert_entry processed_event w.db.outbox)
  pub is_processed_event :
      IsEvent processed_event "WagerTransactionProcessed" input.correlation_id none
  pub is_balance_changed :
      IsEvent balance_changed "WalletBalanceChanged" input.correlation_id
        (some (env.uuid_text processed_event.id))
  pub closed : w'.session ≡ idle

abbrev pub Lands : Env → SubmitInput → WalletRow → World → Result SubmitResult × World → Type 0
Lands env input row w (ok result, w') = IsLanded env input row w result w'
Lands env input row w (err e, w') = ⊥

-- What the run of a movement leaves is what was asked for, whatever the inbox then holds.
module _ (env : Env) (input : SubmitInput) (row : WalletRow) (w : World) (u r0 : ℕ)
    (offered : IsOffered env input row w.db u) (reference : Option Uuid) (now : Time) (r : ℕ)
    (facts : IsPlayed env input.transaction.kind (wallet_of row) input.transaction.amount) where
  pub IsLanded-settled :
      (e1 e2 : Entry) (inbox : List Inbox) (u' r' : ℕ)
      → IsEvent e1 "WagerTransactionProcessed" input.correlation_id none
      → IsEvent e2 "WalletBalanceChanged" input.correlation_id (some (env.uuid_text e1.id))
      → IsLanded env input row w
          (first_processing
            (landed env input row w.db u r0 offered reference now r)
            (record { currency = row.currency; amount = new_balance input row }))
          (quiet idle
            (record (with_entry env input row w.db u r0 offered reference now r) {
              outbox = upsert_entry e2 (upsert_entry e1 w.db.outbox);
              inbox = inbox;
            })
            u'
            r')
  IsLanded-settled e1 e2 inbox u' r' t1 t2 = record {
    processed = refl;
    first_time = refl;
    balance = refl;
    wallets = λ id.
        stored-upsert (moved_row env input row w.db u r0 offered reference now r) w.db.wallets
          (rebalanced env input row w.db u r0 offered reference now r facts) id
        ∙ ap (λ (x : ℕ). if x == id then new_balance input row else stored id w.db.wallets)
            (same_wallet env input row w.db u r0 offered);
    recorded = refl;
    entry = ledger_row (the_movement env input row w.db u r0 offered reference now r);
    entered = refl;
    entry_wallet = same_wallet env input row w.db u r0 offered;
    entry_transaction = refl;
    entry_direction = refl;
    entry_amount = refl;
    processed_event = e1;
    balance_changed = e2;
    announced = refl;
    is_processed_event = t1;
    is_balance_changed = t2;
    closed = refl;
  }

module _ (env : Env) (works : Works env) (input : SubmitInput) (row : WalletRow) (w : World)
    (i : w.session ≡ idle) (no_faults : w.faults ≡ [])
    (offered : IsOffered env input row w.db w.uuids)
    (affords : Affords input.transaction.kind row.balance input.transaction.amount.amount) where
  -- Where no database call fails and nothing stands against the submission of a bet or a win, which
  -- the wallet affords, it returns: the transaction is processed and recorded, exactly the amount has
  -- left or reached the balance of that wallet and of no other, one ledger entry says so, and the two
  -- events of it wait in the outbox.
  pub submit-Lands : Lands env input row w (submit env input w)
  submit-Lands =
      let (e1, e2, runs, t1, t2) =
        submits env works input row w.db w.uuids w.readings offered affords idle tt in
      subst (Lands env input row w)
        (sym (ap (submit env input) (quiet_eta w i no_faults) ∙ runs.runs))
        (IsLanded-settled env input row w w.uuids w.readings offered none (env.clock w.readings)
          (suc w.readings) (affordable env works input row w.db w.uuids w.readings offered affords)
          e1 e2 w.db.inbox _ _ t1 t2)

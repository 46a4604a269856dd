-- ===== src/App/Resolver/Resolves.antt =====
-- internal/app/pending_reference_resolver.go: a reversal whose reference has come is processed.
use mathlib.Core.Path.{subst}
use croupier.Prelude.{
  ℕ, ◌≡◌, ◌≢◌, refl, sym, ap, ◌∙◌, some, none, [], ◌∷◌, ◌++◌, List, ==_refl, ==_eq, arith, ◌==◌,
  if◌then◌else◌,
}
use croupier.Prelude.Int.{ℤ, ◌+ℤ◌}
use croupier.Errors.{Result, ok, err}
use croupier.Values.{Uuid, Time}
use croupier.Wager.{Transaction, processed}
use croupier.Outbox.{Entry}
use croupier.Store.Tables.{WalletRow, WagerRow, LedgerRow}
use croupier.Store.Monad.{World, idle}
use croupier.Store.Quiet.{quiet_eta}
use croupier.Store.Quiet.Inserts
use croupier.Store.Books.{stored, stored-upsert}
use croupier.Store.Entries.{ledger_row}
use croupier.Store.Pending.{PendingReferenceRetry}
use croupier.Store.Wagers.{wager_with_id, wager_row, replace_wager, update_wager}
use croupier.Store.Outbox.{upsert_entry}
use croupier.App.Env.{Env}
use croupier.App.Movement.Lands.{IsEvent, Works}
use croupier.App.Submit.References.{balance_behind-reversal}
use croupier.App.Resolver.Run.{
  IsResolvable, landed, moved_row, behind, the_movement, same_wallet, rebalanced, resolves_it,
}
use croupier.App.Resolver.{Resolver, resolve_one}

-- the stored transaction is processed and refers to `ref`, and everything of it is recorded
pub record IsResolved (env : Env) (tx ref : Transaction) (row : WalletRow) (w w' : World)
    : Type 0 where
  pub stored_row : WagerRow
  pub found : wager_with_id tx.id w'.db.wagers ≡ some stored_row
  pub status : stored_row.status ≡ processed
  pub refers_to : stored_row.reference_transaction_id ≡ some ref.id
  pub others :
      (id : Uuid) → id ≢ tx.id → wager_with_id id w'.db.wagers ≡ wager_with_id id w.db.wagers
  pub wallets :
      (id : Uuid)
      → stored id w'.db.wallets
        ≡ (if tx.wallet_id == id then row.balance +ℤ tx.amount.amount else stored id w.db.wallets)
  pub entry : LedgerRow
  pub entered : w'.db.ledger ≡ w.db.ledger ++ entry ∷ []
  pub entry_wallet : entry.wallet_id ≡ tx.wallet_id
  pub entry_transaction : entry.transaction_id ≡ tx.id
  pub entry_amount : entry.amount ≡ tx.amount.amount
  pub processed_event : Entry
  pub balance_changed : Entry
  pub announced :
      w'.db.outbox ≡ upsert_entry balance_changed (upsert_entry processed_event w.db.outbox)
  pub is_processed_event :
      IsEvent processed_event "WagerTransactionProcessed"
        (env.uuid_text (env.new_uuid w.uuids))
        none
  pub is_balance_changed :
      IsEvent balance_changed "WalletBalanceChanged"
        (env.uuid_text (env.new_uuid w.uuids))
        (some (env.uuid_text processed_event.id))
  pub closed : w'.session ≡ idle

abbrev pub Resolves :
    Env → Transaction → Transaction → WalletRow → World → Result (Unit {0}) × World → Type 0
Resolves env tx ref row w (ok _, w') = IsResolved env tx ref row w w'
Resolves env tx ref row w (err e, w') = ⊥

module _ (new : WagerRow) (rs : List WagerRow) where
  row_behind :
      {old : WagerRow}
      → wager_with_id new.id rs ≡ some old
      → wager_with_id new.id (replace_wager new rs) ≡ some (update_wager new old)
  row_behind h = Inserts.wager_with_id-replace new new.id rs ∙ rw (==_refl new.id, h) refl

  row_beside :
      (id : Uuid) → id ≢ new.id → wager_with_id id (replace_wager new rs) ≡ wager_with_id id rs
  row_beside id h = rw (Inserts.wager_with_id-replace new id rs) (ground (arith, ==_eq new.id id))

module _ (env : Env) (works : Works env) (resolver : Resolver) (now : Time)
    (item : PendingReferenceRetry) (row : WalletRow) (ref : Transaction) (w : World)
    (i : w.session ≡ idle) (no_faults : w.faults ≡ [])
    (p : IsResolvable env resolver now item row ref w.db w.uuids) where
  -- Where no database call fails, a stored reversal that waits and has retries left, whose reference
  -- has come, a bet not reversed so far that the rules of references admit, and whose wallet is in its
  -- currency and can hold the amount, is settled by the resolver, which draws ids that are not taken:
  -- its row is processed and has the id of the bet, no other transaction changes, exactly the amount
  -- has come back to the balance of that wallet and of no other, one ledger entry says so, and the two
  -- events of it wait in the outbox.
  pub resolve_one-Resolves :
      Resolves env item.transaction ref row w (resolve_one env resolver now item w)
  unfolding wager_row
  resolve_one-Resolves =
      let (e1, e2, runs, t1, t2) =
        resolves_it env works resolver now item row ref w.db w.uuids w.readings p in
      let new =
        wager_row env.digest
          (landed env works resolver now item row ref w.db w.uuids w.readings p) in
      subst (Resolves env item.transaction ref row w)
        (sym (ap (resolve_one env resolver now item) (quiet_eta w i no_faults) ∙ runs.runs))
        (record {
          stored_row = update_wager new p.old;
          found = row_behind new w.db.wagers p.known;
          status = refl;
          refers_to = refl;
          others = λ id. row_beside new w.db.wagers id;
          wallets = λ id.
              stored-upsert
                (moved_row env works resolver now item row ref w.db w.uuids w.readings p)
                w.db.wallets
                (rebalanced env works resolver now item row ref w.db w.uuids w.readings p) id
              ∙ ap
                  (λ (x : ℕ).
                    if x == id
                    then behind env works resolver now item row ref w.db w.uuids w.readings p
                    else stored id w.db.wallets)
                  (same_wallet env works resolver now item row ref w.db w.uuids w.readings p)
              ∙ ap
                  (λ (b : ℤ).
                    if item.transaction.wallet_id == id then b else stored id w.db.wallets)
                  (balance_behind-reversal item.transaction.kind row.balance
                    item.transaction.amount.amount p.reversal);
          entry =
              ledger_row
                (the_movement env works resolver now item row ref w.db w.uuids w.readings p);
          entered = refl;
          entry_wallet = same_wallet env works resolver now item row ref w.db w.uuids w.readings p;
          entry_transaction = refl;
          entry_amount = refl;
          processed_event = e1;
          balance_changed = e2;
          announced = refl;
          is_processed_event = t1;
          is_balance_changed = t2;
          closed = refl;
        })

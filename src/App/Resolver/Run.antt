-- ===== src/App/Resolver/Run.antt =====
-- internal/app/pending_reference_resolver.go: the run of a retry that settles its reversal.
use croupier.Prelude.{
  ℕ, suc, str_eq, ◌≡◌, ◌≢◌, refl, sym, ap, ◌∙◌, true, false, some, none, [], ◌∷◌, ◌++◌, find, ==_eq,
  find-holds, ◌==◌,
}
use croupier.Prelude.Int.{ℤ, pos, ◌+ℤ◌, ◌≤ℤ◌, ◌<ℤ◌, int_laws}
use croupier.Prelude.Int64.{IsInt64, max_int64, add64, wrap64_id}
use croupier.Errors.{Error, ok, err, wager_transaction_not_found}
use croupier.Values.{nil_uuid, Time}
use croupier.Money.{from_minor_units}
use croupier.Wallet.Ledger.{LedgerEntry}
use croupier.Wallet.Balance.{moved, entry_of, the_entry}
use croupier.Wager.{Transaction, bet, pending_reference, is_reversal, resolve_reference}
use croupier.Wager.Reference.{IsReferenceOf, validate_reference_iff}
use croupier.Outbox.{Entry}
use croupier.Store.Tables.{Db, WalletRow, WagerRow}
use croupier.Store.Monad.{idle}
use croupier.Store.Quiet.{
  quiet, Runs, Runs-bind, Runs-pure, Runs-lift, Runs-query, Runs-attempt-query, Runs-within_tx,
  Runs-else, Runs-then, Runs-eq, Runs-draw_uuid, Runs-read_clock,
}
use croupier.Store.Quiet.Inserts
use croupier.Store.Wallets.{
  find_wallet, scan_wallet, select_wallet, wallet_with_id, wallet_row, replace_wallet,
  update_wallet, upsert_wallet,
}
use croupier.Store.Entries.{ledger_row, store_ledger_entry}
use croupier.Store.Pending.{PendingReferenceRetry}
use croupier.Store.Wagers.{
  reverses, select_reversal, find_by_key, find_reversal, select_by_key, wager_with_id, wager_row,
  replace_wager, store_wager,
}
use croupier.Store.Outbox.{upsert_entry}
use croupier.App.Env.{Env}
use croupier.App.Movement.{movement, settle}
use croupier.App.Movement.Lands.{IsEvent, Works, settled, record_movement-Runs}
use croupier.App.Submit.{process, process_reversal, against_reference}
use croupier.App.Submit.Plays.{direction_of, balance_behind, IsPlayed, reversed}
use croupier.App.Submit.Offers.{wallet_of}
use croupier.App.Submit.References.{reversal-IsBack, IsBack, has_referent_stored}
use croupier.App.Resolver.{Resolver, resolve_one, is_expired}

-- A reversal that waits, is stored, and has not run out of retries, while `ref` is the bet that it
-- reverses: its reference by the rules of the domain, stored and not reversed so far. The wallet
-- exists and can hold the amount, and no id to be drawn is taken.
pub record IsResolvable (env : Env) (resolver : Resolver) (now : Time)
    (item : PendingReferenceRetry) (row : WalletRow) (ref : Transaction) (db : Db) (uuids : ℕ)
    : Type 0 where
  pub unexpired : is_expired env resolver now item ≡ false
  pub waits : item.transaction.status ≡ pending_reference
  pub unresolved : item.transaction.reference_transaction_id ≡ none
  pub reversal : is_reversal item.transaction.kind ≡ true
  pub reverses_bet : ref.kind ≡ bet
  pub reference : IsReferenceOf ref item.transaction
  pub reference_stored :
      select_by_key env.parse_iso item.transaction.provider_id ref.external_transaction_id db
      ≡ ok ref
  pub unreversed : find (reverses ref.id) db.wagers ≡ none
  pub old : WagerRow
  pub known : wager_with_id item.transaction.id db.wagers ≡ some old
  pub has_tx : item.transaction.id ≢ nil_uuid
  pub has_provider : str_eq item.transaction.provider_id "" ≡ false
  pub has_external : str_eq item.transaction.external_transaction_id "" ≡ false
  pub has_wallet : item.transaction.wallet_id ≢ nil_uuid
  pub has_round : str_eq item.transaction.round_id "" ≡ false
  pub has_game : str_eq item.transaction.game_id "" ≡ false
  pub positive : pos 0 <ℤ item.transaction.amount.amount
  pub int64 : IsInt64 item.transaction.amount.amount
  pub stands : wallet_with_id item.transaction.wallet_id db.wallets ≡ some row
  pub currency : row.currency ≡ item.transaction.amount.currency
  pub accepted : env.parse_iso row.currency ≡ true
  pub solvent : (pos 0 ≤ℤ row.balance) × (row.balance ≤ℤ max_int64)
  pub version : (pos 1 ≤ℤ row.version) × (row.version <ℤ max_int64)
  pub fits : row.balance +ℤ item.transaction.amount.amount ≤ℤ max_int64
  pub correlated : str_eq (env.uuid_text (env.new_uuid uuids)) "" ≡ false
  pub fresh_entry : find (λ r. r.id == env.new_uuid (suc uuids)) db.ledger ≡ none
  pub first_entry : find (λ r. r.transaction_id == item.transaction.id) db.ledger ≡ none

module _ (env : Env) (works : Works env) (resolver : Resolver) (now : Time)
    (item : PendingReferenceRetry) (row : WalletRow) (ref : Transaction) (db : Db) (u r : ℕ)
    (p : IsResolvable env resolver now item row ref db u) where
  abbrev waiting : Transaction
  waiting = item.transaction

  abbrev resolved : Transaction
  resolved = record waiting { reference_transaction_id = some ref.id; updated_at = env.clock r }

  abbrev pub landed : Transaction
  landed = settled resolved (env.clock (suc (suc r)))

  abbrev pub behind : ℤ
  behind = balance_behind waiting.kind row.balance waiting.amount.amount

  abbrev pub the_movement : LedgerEntry
  the_movement = the_entry (env.new_uuid (suc u)) (env.clock (suc r)) (
      entry_of (direction_of waiting.kind) waiting.id waiting.amount (wallet_of row)
        (moved (wallet_of row) behind))

  abbrev pub moved_row : WalletRow
  moved_row = wallet_row (moved (wallet_of row) behind)

  abbrev with_transaction : Db
  with_transaction = record db { wagers = replace_wager (wager_row env.digest landed) db.wagers }

  abbrev with_balance : Db
  with_balance = record with_transaction { wallets = replace_wallet moved_row db.wallets }

  abbrev pub with_entry : Db
  with_entry = record with_balance { ledger = db.ledger ++ ledger_row the_movement ∷ [] }

  pub same_wallet : row.id ≡ waiting.wallet_id
  same_wallet = ==_eq row.id waiting.wallet_id (find-holds _ db.wallets p.stands)

  has_id : row.id ≢ nil_uuid
  has_id h = p.has_wallet (sym same_wallet ∙ h)

  known_wallet : wallet_with_id row.id db.wallets ≡ some row
  known_wallet = ap (λ (i : ℕ). wallet_with_id i db.wallets) same_wallet ∙ p.stands

  finds : select_wallet env.parse_iso waiting.wallet_id db ≡ ok (wallet_of row)
  unfolding scan_wallet from_minor_units
  finds = rw (p.stands, p.accepted) refl

  facts : IsPlayed env waiting.kind (wallet_of row) waiting.amount
  facts =
      reversed (wallet_of row) waiting.amount has_id p.solvent p.positive p.int64 p.currency env
        waiting.kind p.reversal p.fits

  back : IsBack waiting.kind ref
  back = reversal-IsBack waiting.kind ref p.reversal p.reverses_bet

  resolves : resolve_reference (env.clock r) waiting ref.id ≡ ok resolved
  unfolding resolve_reference
  resolves = rw (p.waits, p.unresolved) refl

  not_reversed :
      select_reversal env.parse_iso ref.id db ≡ err (Error.app wager_transaction_not_found)
  not_reversed = rw p.unreversed refl

  versioned : pos 1 ≤ℤ add64 row.version (pos 1)
  unfolding add64
  versioned = rw (wrap64_id (row.version +ℤ pos 1) (omega int_laws)) (omega int_laws)

  pub rebalanced : upsert_wallet moved_row db.wallets ≡ ok (replace_wallet moved_row db.wallets)
  rebalanced = Inserts.replaced moved_row db.wallets facts.solvent versioned known_wallet

  still_there :
      wallet_with_id row.id (replace_wallet moved_row db.wallets)
      ≡ some (update_wallet moved_row row)
  still_there = Inserts.still_known moved_row db.wallets facts.solvent versioned known_wallet

  first : store_wager env.digest landed db ≡ ok with_transaction
  unfolding wager_row
  first =
      rw
        (Inserts.rewritten (wager_row env.digest landed) db.wallets db.wagers
          {provider = waiting.provider_id} {external = waiting.external_transaction_id}
          {round = waiting.round_id} {game = waiting.game_id} (rw p.has_provider refl)
          (rw p.has_external refl) (rw p.has_round refl) (rw p.has_game refl)
          (has_referent_stored env.parse_iso waiting.provider_id ref db p.reference_stored
            waiting.id)
          p.known waiting.kind refl p.reversal)
        refl

  third : store_ledger_entry the_movement with_balance ≡ ok with_entry
  third =
      Inserts.entered the_movement with_balance p.positive p.solvent.0 facts.solvent
        facts.consistent still_there p.fresh_entry p.first_entry

  pub resolves_it :
      (e1 e2 : Entry) × Runs (resolve_one env resolver now item) (quiet idle db u r) tt (
        quiet idle
          (record with_entry { outbox = upsert_entry e2 (upsert_entry e1 db.outbox) })
          (suc (suc (suc (suc u))))
          (suc (suc (suc (suc (suc (suc (suc r))))))))
      × IsEvent e1 "WagerTransactionProcessed" (env.uuid_text (env.new_uuid u)) none
      × IsEvent e2 "WalletBalanceChanged"
          (env.uuid_text (env.new_uuid u))
          (some (env.uuid_text e1.id))
  unfolding resolve_one process process_reversal against_reference movement settle find_by_key
      find_wallet find_reversal
  resolves_it =
      let (e1, e2, runs, t1, t2) =
        record_movement-Runs env works (env.uuid_text (env.new_uuid u)) p.correlated resolved
          (direction_of waiting.kind) (wallet_of row) behind (suc u) (suc r) (rw p.waits refl)
          (facts.enters (env.new_uuid (suc u)) (env.clock (suc r)) waiting.id p.has_tx) has_id
          p.has_tx db with_transaction with_balance with_entry first (rw rebalanced refl) third in
      (
        e1,
        e2,
        Runs-bind _ (Runs-draw_uuid env.new_uuid) (
            Runs-else _ _ p.unexpired (
              Runs-bind _
                (Runs-then _ _ p.reversal (
                  Runs-eq
                    (ap (process_reversal env waiting (env.uuid_text (env.new_uuid u)))
                      p.reference.external)
                    (Runs-bind _ (Runs-attempt-query _ tt p.reference_stored) (
                      Runs-bind _ Runs-pure (
                        Runs-eq
                          (ap (against_reference env waiting (env.uuid_text (env.new_uuid u)) ref)
                            ((validate_reference_iff waiting ref).1 p.reference))
                          (Runs-bind _ (Runs-read_clock env.clock) (
                            Runs-bind _ (Runs-lift resolves) (
                              Runs-else _ _ back.no_loss (
                                Runs-bind _ (Runs-lift back.direction) (
                                  Runs-within_tx tt (
                                    Runs-bind _ (Runs-query _ tt finds) (
                                      Runs-bind _ (Runs-attempt-query _ tt not_reversed) (
                                        Runs-bind _ Runs-pure (
                                          Runs-eq
                                            (ap
                                              (settle env resolved (env.uuid_text (env.new_uuid u))
                                                (direction_of waiting.kind) (wallet_of row))
                                              facts.moves)
                                            runs))))))))))))))
                Runs-pure)),
        t1,
        t2,
      )

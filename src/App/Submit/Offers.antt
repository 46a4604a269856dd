-- ===== src/App/Submit/Offers.antt =====
-- internal/app/wager_submit.go: the way of an acceptable bet or win to the movement of its wallet.
use croupier.Prelude.{
  Option, ℕ, suc, String, ◌≡◌, ◌≢◌, refl, ap, sym, ◌∙◌, true, false, ◌==◌, str_eq, none, some, List,
  [], ◌∷◌, ◌++◌, arith, find, find-holds, ==_eq,
}
use croupier.Prelude.Int.{pos, ◌≤ℤ◌, ◌<ℤ◌}
use croupier.Prelude.Int64.{IsInt64, max_int64}
use croupier.Errors.{Error, ok, err, wager_transaction_not_found}
use croupier.Values.{Uuid, nil_uuid, Time}
use croupier.Money.{from_minor_units}
use croupier.Wallet.{Wallet}
use croupier.Wager.{
  TxStatus, Transaction, NewTransactionInput, new_transaction, pending, check_kind,
}
use croupier.Outbox.Inbox.{Inbox}
use croupier.Store.Tables.{Db, WalletRow}
use croupier.Store.Monad.{Session, opened}
use croupier.Store.Quiet.{
  IsLive, quiet, Runs, Runs-bind, Runs-pure, Runs-lift, Runs-query, Runs-attempt,
  Runs-attempt-query, Runs-within_tx, Runs-else, Runs-draw_uuid, Runs-read_clock,
}
use croupier.Store.Quiet.Inserts
use croupier.Store.Wallets.{wallet_with_id, find_wallet, scan_wallet, select_wallet}
use croupier.Store.Wagers.{
  wager_with_id, has_key, wager_row, store_wager, has_referent, find_by_key, select_by_key,
}
use croupier.App.Env.{Env}
use croupier.App.Movement.{SubmitInput, SubmitResult, movement, settle, move_balance}
use croupier.App.Submit.{submit, process}
use croupier.App.Submit.Plays.{direction_of, IsPlay, check_kind_complete, KindRules-is_submission}
use croupier.Wager.Reference.{KindRules}

-- A submission that nothing stands against: its fields are filled by the rules of its kind, the wallet
-- exists, in the currency of the amount, and neither its key nor the ids to be drawn are taken.
pub record IsOffered (env : Env) (input : SubmitInput) (row : WalletRow) (db : Db) (uuids : ℕ)
    : Type 0 where
  pub has_provider : str_eq input.transaction.provider_id "" ≡ false
  pub has_external : str_eq input.transaction.external_transaction_id "" ≡ false
  pub has_player : input.transaction.player_id ≢ nil_uuid
  pub has_wallet : input.transaction.wallet_id ≢ nil_uuid
  pub has_round : str_eq input.transaction.round_id "" ≡ false
  pub has_game : str_eq input.transaction.game_id "" ≡ false
  pub has_correlation : str_eq input.correlation_id "" ≡ false
  pub rules :
      KindRules input.transaction.kind input.transaction.amount.amount
        input.transaction.reference_external_transaction_id
  pub positive : pos 0 <ℤ input.transaction.amount.amount
  pub int64 : IsInt64 input.transaction.amount.amount
  pub stands : wallet_with_id input.transaction.wallet_id db.wallets ≡ some row
  pub currency : row.currency ≡ input.transaction.amount.currency
  pub accepted : env.parse_iso row.currency ≡ true
  pub solvent : (pos 0 ≤ℤ row.balance) × (row.balance ≤ℤ max_int64)
  pub version : (pos 1 ≤ℤ row.version) × (row.version <ℤ max_int64)
  pub unused :
      find
        (has_key input.transaction.provider_id input.transaction.external_transaction_id)
        db.wagers
      ≡ none
  pub fresh : wager_with_id (env.new_uuid uuids) db.wagers ≡ none
  pub fresh_entry : find (λ r. r.id == env.new_uuid (suc uuids)) db.ledger ≡ none
  pub first_entry : find (λ r. r.transaction_id == env.new_uuid uuids) db.ledger ≡ none

-- The inbox plays no part in it.
pub IsOffered-inbox :
    {env : Env} {input : SubmitInput} {row : WalletRow} {db : Db} {uuids : ℕ} (inbox : List Inbox)
    → IsOffered env input row db uuids
    → IsOffered env input row (record db { inbox = inbox }) uuids
IsOffered-inbox inbox p = ground arith

abbrev pub wallet_of : WalletRow → Wallet
wallet_of r = record {
  id = r.id;
  player_id = r.player_id;
  version = r.version;
  balance = record { currency = r.currency; amount = r.balance };
  created_at = r.created_at;
  updated_at = r.updated_at;
}

-- what `NewTransaction` makes of an accepted input
abbrev pub candidate_of : Uuid → Time → NewTransactionInput → Transaction
candidate_of fresh now input = record {
  id = fresh;
  status = pending;
  external_transaction_id = input.external_transaction_id;
  provider_id = input.provider_id;
  player_id = input.player_id;
  wallet_id = input.wallet_id;
  round_id = input.round_id;
  game_id = input.game_id;
  kind = input.kind;
  amount = input.amount;
  reference_external_transaction_id = input.reference_external_transaction_id;
  reference_transaction_id = none;
  failure_code = "";
  created_at = now;
  updated_at = now;
}

accepts :
    (fresh : Uuid) (now : Time) (input : NewTransactionInput)
    → str_eq input.provider_id "" ≡ false
    → str_eq input.external_transaction_id "" ≡ false
    → input.player_id ≢ nil_uuid
    → input.wallet_id ≢ nil_uuid
    → str_eq input.round_id "" ≡ false
    → str_eq input.game_id "" ≡ false
    → check_kind input.kind input.amount input.reference_external_transaction_id ≡ ok tt
    → new_transaction fresh now input ≡ ok (candidate_of fresh now input)
unfolding new_transaction
accepts fresh now input a b c d e f g = rw (a, b, e, f, g) (ground arith)

module _ (env : Env) (input : SubmitInput) (row : WalletRow) (db : Db) (u r : ℕ)
    (p : IsOffered env input row db u) where
  abbrev pub candidate : Transaction
  candidate = candidate_of (env.new_uuid u) (env.clock r) input.transaction

  pub same_wallet : row.id ≡ input.transaction.wallet_id
  same_wallet = ==_eq row.id input.transaction.wallet_id (find-holds _ db.wallets p.stands)

  pub has_id : row.id ≢ nil_uuid
  has_id h = p.has_wallet (sym same_wallet ∙ h)

  -- under any id and at any time
  pub makes :
      (fresh : Uuid) (now : Time)
      → new_transaction fresh now input.transaction ≡ ok (candidate_of fresh now input.transaction)
  makes fresh now =
      accepts fresh now input.transaction p.has_provider p.has_external p.has_player p.has_wallet
        p.has_round p.has_game
        (check_kind_complete input.transaction.kind input.transaction.amount
          input.transaction.reference_external_transaction_id p.rules)

  pub known : wallet_with_id row.id db.wallets ≡ some row
  known = ap (λ (i : ℕ). wallet_with_id i db.wallets) same_wallet ∙ p.stands

  pub finds : select_wallet env.parse_iso input.transaction.wallet_id db ≡ ok (wallet_of row)
  unfolding scan_wallet from_minor_units
  finds = rw (p.stands, p.accepted) refl

  pub unrecorded :
      select_by_key env.parse_iso input.transaction.provider_id
        input.transaction.external_transaction_id db
      ≡ err (Error.app wager_transaction_not_found)
  unrecorded = rw p.unused refl

  -- the transaction once its reference is resolved
  abbrev pub resolved : Option Uuid → Time → Transaction
  resolved reference now = record candidate {
    reference_transaction_id = reference;
    updated_at = now;
  }

  -- The tables accept the transaction, decided in whatever way.
  pub stored_row :
      (reference : Option Uuid) (status : TxStatus) (failure_code : String) (now : Time)
      → has_referent (env.new_uuid u) reference db.wagers ≡ true
      → let tx = record candidate {
        status = status;
        reference_transaction_id = reference;
        failure_code = failure_code;
        updated_at = now;
      } in
        store_wager env.digest tx db
        ≡ ok (record db { wagers = db.wagers ++ wager_row env.digest tx ∷ [] })
  unfolding wager_row
  stored_row reference status failure_code now referent =
      let tx = record candidate {
        status = status;
        reference_transaction_id = reference;
        failure_code = failure_code;
        updated_at = now;
      } in
      rw
        (Inserts.inserted (wager_row env.digest tx) db.wallets db.wagers
          {provider = input.transaction.provider_id}
          {external = input.transaction.external_transaction_id}
          {round = input.transaction.round_id} {game = input.transaction.game_id}
          (rw p.has_provider refl) (rw p.has_external refl) (rw p.has_round refl)
          (rw p.has_game refl) referent p.fresh p.unused p.stands input.transaction.kind refl
          (KindRules-is_submission input.transaction.kind input.transaction.amount.amount
            input.transaction.reference_external_transaction_id p.rules))
        refl

  -- The submission ends the way in which the movement of the wallet ends.
  pub submit-Runs :
      {result : SubmitResult} {db' : Db} {u' r' : ℕ} (s : Session)
      → IsLive s
      → IsPlay input.transaction.kind
      → Runs
          (settle env candidate input.correlation_id
            (direction_of input.transaction.kind)
            (wallet_of row)
            (move_balance env
              (direction_of input.transaction.kind)
              (wallet_of row)
              input.transaction.amount))
          (quiet opened db (suc u) (suc r))
          result
          (quiet opened db' u' r')
      → Runs (submit env input) (quiet s db u r) result (quiet s db' u' r')
  unfolding submit process movement find_by_key find_wallet
  submit-Runs s live play runs = Runs-bind _ (Runs-read_clock env.clock) (
      Runs-bind _ (Runs-draw_uuid env.new_uuid) (
        Runs-bind _ (Runs-lift (makes (env.new_uuid u) (env.clock r))) (
          Runs-bind _ (Runs-attempt-query _ live unrecorded) (
            Runs-bind _ Runs-pure (
              Runs-bind _
                (Runs-attempt _ (
                  Runs-else _ _ play.no_reversal (
                    Runs-else _ _ play.no_loss (
                      Runs-bind _ (Runs-lift play.direction)
                        (Runs-within_tx live (Runs-bind _ (Runs-query _ tt finds) runs))))))
                Runs-pure)))))

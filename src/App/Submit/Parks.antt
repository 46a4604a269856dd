-- ===== src/App/Submit/Parks.antt =====
-- internal/app/wager_submit.go: a reversal whose reference has not been seen waits for it.
use mathlib.Core.Path.{subst}
use croupier.Prelude.{
  ℕ, suc, String, ◌≡◌, refl, sym, ap, ◌∙◌, true, some, none, [], ◌∷◌, ◌++◌, false, find,
}
use croupier.Errors.{Error, Result, ok, err, wager_transaction_not_found}
use croupier.Wager.{Transaction, pending_reference, is_reversal, mark_pending_reference}
use croupier.Outbox.{Entry}
use croupier.Store.Tables.{Db, WalletRow}
use croupier.Store.Monad.{World, Session, idle}
use croupier.Store.Quiet.{
  IsLive, quiet, quiet_eta, Runs, Runs-bind, Runs-pure, Runs-lift, Runs-query, Runs-exec,
  Runs-attempt, Runs-attempt-query, Runs-within_tx, Runs-then, Runs-eq, Runs-draw_uuid,
  Runs-read_clock,
}
use croupier.Store.Wallets.{find_wallet}
use croupier.Store.Wagers.{has_key, wager_row, find_by_key, select_by_key, save_wager}
use croupier.Store.Outbox.{upsert_entry, store_entry, save_all}
use croupier.App.Env.{Env, pending_reference_data}
use croupier.App.Events.{new_pending_reference_event, text_or_empty}
use croupier.App.Movement.{
  SubmitInput, SubmitResult, first_processing, park_pending_reference, announce_parked,
  save_with_event, save_event,
}
use croupier.App.Movement.Lands.{IsEvent, Works, IsEvent-Runs}
use croupier.App.Submit.{submit, process, process_reversal}
use croupier.App.Submit.Offers.{
  IsOffered, wallet_of, candidate, makes, finds, unrecorded, stored_row,
}

-- the submission waits for its reference, which is recorded, and no wallet has moved
pub record IsParked (env : Env) (input : SubmitInput) (row : WalletRow) (w : World)
    (result : SubmitResult) (w' : World) : Type 0 where
  pub status : result.transaction.status ≡ pending_reference
  pub unresolved : result.transaction.reference_transaction_id ≡ none
  pub first_time : result.idempotent_replay ≡ false
  pub balance : result.balance.amount ≡ row.balance
  pub wallets : w'.db.wallets ≡ w.db.wallets
  pub ledger : w'.db.ledger ≡ w.db.ledger
  pub recorded : w'.db.wagers ≡ w.db.wagers ++ wager_row env.digest result.transaction ∷ []
  pub event : Entry
  pub announced : w'.db.outbox ≡ upsert_entry event w.db.outbox
  pub is_event : IsEvent event "WagerTransactionPendingReference" input.correlation_id none
  pub closed : w'.session ≡ idle

abbrev pub Parks : Env → SubmitInput → WalletRow → World → Result SubmitResult × World → Type 0
Parks env input row w (ok result, w') = IsParked env input row w result w'
Parks env input row w (err e, w') = ⊥

module _ (env : Env) (works : Works env) (input : SubmitInput) (row : WalletRow) (db : Db) (u r : ℕ)
    (p : IsOffered env input row db u) {reference : String}
    (reversal : is_reversal input.transaction.kind ≡ true)
    (names : input.transaction.reference_external_transaction_id ≡ some reference)
    (unseen : find (has_key input.transaction.provider_id reference) db.wagers ≡ none) where
  abbrev parked : Transaction
  parked = record (candidate env input row db u r p) {
    status = pending_reference;
    updated_at = env.clock (suc r);
  }

  abbrev with_transaction : Db
  with_transaction = record db { wagers = db.wagers ++ wager_row env.digest parked ∷ [] }

  not_seen :
      select_by_key env.parse_iso input.transaction.provider_id reference db
      ≡ err (Error.app wager_transaction_not_found)
  not_seen = rw unseen refl

  marks : mark_pending_reference (env.clock (suc r)) (candidate env input row db u r p) ≡ ok parked
  unfolding mark_pending_reference
  marks = refl

  pub parks :
      (s : Session)
      → IsLive s
      → (e : Entry) × Runs
          (submit env input)
          (quiet s db u r)
          (first_processing parked (wallet_of row).balance)
          (quiet s
            (record with_transaction { outbox = upsert_entry e db.outbox })
            (suc (suc u))
            (suc (suc (suc (suc r)))))
        × IsEvent e "WagerTransactionPendingReference" input.correlation_id none
  unfolding submit process process_reversal park_pending_reference announce_parked save_with_event
      save_event new_pending_reference_event find_by_key find_wallet save_wager save_all
  parks s live =
      let (e, announces, t) =
        IsEvent-Runs env works input.correlation_id p.has_correlation "WagerTransaction"
          "WagerTransactionPendingReference" (env.new_uuid u)
          (pending_reference_data (env.new_uuid u)
            (text_or_empty input.transaction.reference_external_transaction_id))
          none refl refl (works.new_uuid u) s db (suc u) (suc (suc r)) in
      (
        e,
        Runs-bind _ (Runs-read_clock env.clock) (
            Runs-bind _ (Runs-draw_uuid env.new_uuid) (
              Runs-bind _ (Runs-lift (makes env input row db u r p (env.new_uuid u) (env.clock r)))
                (Runs-bind _ (Runs-attempt-query _ live (unrecorded env input row db u r p)) (
                  Runs-bind _ Runs-pure (
                    Runs-bind _
                      (Runs-attempt _ (
                        Runs-then _ _ reversal (
                          Runs-eq
                            (ap
                              (process_reversal env (candidate env input row db u r p)
                                input.correlation_id)
                              names)
                            (Runs-bind _ (Runs-attempt-query _ live not_seen) (
                              Runs-bind _ Runs-pure (
                                Runs-bind _ (Runs-read_clock env.clock) (
                                  Runs-bind _ (Runs-lift marks) (
                                    Runs-bind _ announces (
                                      Runs-bind _
                                        (Runs-within_tx live (
                                          Runs-bind _
                                            (Runs-exec _ (
                                              stored_row env input row db u r p none
                                                pending_reference "" (env.clock (suc r)) refl))
                                            (Runs-bind _ (Runs-exec (store_entry e) refl)
                                              Runs-pure)))
                                        (Runs-bind _
                                          (Runs-query _ live (finds env input row db u r p))
                                          Runs-pure))))))))))
                      Runs-pure))))),
        t,
      )

module _ (env : Env) (works : Works env) (input : SubmitInput) (row : WalletRow) (w : World)
    (i : w.session ≡ idle) (no_faults : w.faults ≡ [])
    (offered : IsOffered env input row w.db w.uuids) {reference : String}
    (reversal : is_reversal input.transaction.kind ≡ true)
    (names : input.transaction.reference_external_transaction_id ≡ some reference)
    (unseen : find (has_key input.transaction.provider_id reference) w.db.wagers ≡ none) where
  -- Where no database call fails and nothing stands against the submission of a refund or a rollback,
  -- but the transaction that it names is not recorded, it returns: the submission is recorded as
  -- waiting for its reference, no wallet and no ledger entry changes, and the event of it waits in
  -- the outbox.
  pub submit-Parks : Parks env input row w (submit env input w)
  submit-Parks =
      let (e, runs, t) =
        parks env works input row w.db w.uuids w.readings offered reversal names unseen idle tt in
      subst (Parks env input row w)
        (sym (ap (submit env input) (quiet_eta w i no_faults) ∙ runs.runs))
        (record {
          status = refl;
          unresolved = refl;
          first_time = refl;
          balance = refl;
          wallets = refl;
          ledger = refl;
          recorded = refl;
          event = e;
          announced = refl;
          is_event = t;
          closed = refl;
        })

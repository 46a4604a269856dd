-- ===== src/App/Submit/Reverses.antt =====
-- internal/app/wager_submit.go: a refund or a rollback of a processed bet gives the amount back.
use mathlib.Core.Path.{subst}
use croupier.Prelude.{ℕ, suc, ◌≡◌, refl, sym, ap, ◌∙◌, true, some, none, [], find}
use croupier.Prelude.Int.{◌+ℤ◌, ◌≤ℤ◌}
use croupier.Prelude.Int64.{max_int64}
use croupier.Errors.{Error, Result, ok, err, wager_transaction_not_found}
use croupier.Wager.{Transaction, bet, is_reversal, validate_reference, resolve_reference}
use croupier.Wager.Reference.{IsReferenceOf, validate_reference_iff}
use croupier.Outbox.{Entry}
use croupier.Store.Tables.{Db, WalletRow}
use croupier.Store.Monad.{World, Session, idle}
use croupier.Store.Quiet.{
  IsLive, quiet, quiet_eta, Runs, Runs-bind, Runs-pure, Runs-lift, Runs-query, Runs-attempt,
  Runs-attempt-query, Runs-within_tx, Runs-else, Runs-then, Runs-eq, Runs-draw_uuid,
  Runs-read_clock,
}
use croupier.Store.Wallets.{find_wallet}
use croupier.Store.Wagers.{
  has_referent, reverses, find_by_key, find_reversal, select_by_key, select_reversal,
}
use croupier.Store.Outbox.{upsert_entry}
use croupier.App.Env.{Env}
use croupier.App.Movement.{SubmitInput, SubmitResult, first_processing, movement}
use croupier.App.Movement.Lands.{IsEvent, Works}
use croupier.App.Submit.{submit, process, process_reversal, against_reference}
use croupier.App.Submit.References.{
  IsBack, reversal-IsBack, has_referent_stored, balance_behind-reversal,
}
use croupier.App.Submit.Plays.{IsPlayed, reversed}
use croupier.App.Submit.Offers.{
  IsOffered, wallet_of, candidate, candidate_of, resolved, has_id, makes, finds, unrecorded,
}
use croupier.App.Submit.Lands.{landed, behind, with_entry, settles}
use croupier.App.Submit.Live.{IsLanded, IsLanded-settled}

-- `ref` is the bet that the submission reverses: its reference by the rules of the domain, stored and
-- not reversed so far. The wallet can hold the amount.
pub record IsReversible (env : Env) (input : SubmitInput) (row : WalletRow) (db : Db)
    (uuids readings : ℕ) (ref : Transaction) : Type 0 where
  pub reversal : is_reversal input.transaction.kind ≡ true
  pub reverses_bet : ref.kind ≡ bet
  pub reference :
      IsReferenceOf ref (candidate_of (env.new_uuid uuids) (env.clock readings) input.transaction)
  pub stored :
      select_by_key env.parse_iso input.transaction.provider_id ref.external_transaction_id db
      ≡ ok ref
  pub unreversed : find (reverses ref.id) db.wagers ≡ none
  pub fits : row.balance +ℤ input.transaction.amount.amount ≤ℤ max_int64

module _ (env : Env) (works : Works env) (input : SubmitInput) (row : WalletRow) (db : Db) (u r : ℕ)
    (p : IsOffered env input row db u) (ref : Transaction)
    (v : IsReversible env input row db u r ref) where
  pub fits_on_top : IsPlayed env input.transaction.kind (wallet_of row) input.transaction.amount
  fits_on_top =
      reversed (wallet_of row) input.transaction.amount (has_id env input row db u r p) p.solvent
        p.positive p.int64 p.currency env input.transaction.kind v.reversal v.fits

  back : IsBack input.transaction.kind ref
  back = reversal-IsBack input.transaction.kind ref v.reversal v.reverses_bet

  valid : validate_reference (candidate env input row db u r p) ref ≡ ok tt
  valid = (validate_reference_iff (candidate env input row db u r p) ref).1 v.reference

  refers : has_referent (env.new_uuid u) (some ref.id) db.wagers ≡ true
  refers =
      has_referent_stored env.parse_iso input.transaction.provider_id ref db v.stored
        (env.new_uuid u)

  not_reversed :
      select_reversal env.parse_iso ref.id db ≡ err (Error.app wager_transaction_not_found)
  not_reversed = rw v.unreversed refl

  resolves :
      resolve_reference (env.clock (suc r)) (candidate env input row db u r p) ref.id
      ≡ ok (resolved env input row db u r p (some ref.id) (env.clock (suc r)))
  unfolding resolve_reference
  resolves = refl

  pub reverses_it :
      (s : Session)
      → IsLive s
      → (e1 e2 : Entry) × Runs
          (submit env input)
          (quiet s db u r)
          (first_processing
            (landed env input row db u r p (some ref.id) (env.clock (suc r)) (suc (suc r)))
            (record {
              currency = row.currency;
              amount =
                  behind env input row db u r p (some ref.id) (env.clock (suc r)) (suc (suc r));
            }))
          (quiet s
            (record (with_entry env input row db u r p
              (some ref.id)
              (env.clock (suc r))
              (suc (suc r))) { outbox = upsert_entry e2 (upsert_entry e1 db.outbox) })
            (suc (suc (suc (suc u))))
            (suc (suc (suc (suc (suc (suc (suc (suc r)))))))))
        × IsEvent e1 "WagerTransactionProcessed" input.correlation_id none
        × IsEvent e2 "WalletBalanceChanged" input.correlation_id (some (env.uuid_text e1.id))
  unfolding submit process process_reversal against_reference movement find_by_key find_wallet
      find_reversal
  reverses_it s live =
      let (e1, e2, runs, t1, t2) =
        settles env input row db u r p (some ref.id) (env.clock (suc r)) (suc (suc r)) fits_on_top
          works refers in
      (
        e1,
        e2,
        Runs-bind _ (Runs-read_clock env.clock) (
            Runs-bind _ (Runs-draw_uuid env.new_uuid) (
              Runs-bind _ (Runs-lift (makes env input row db u r p (env.new_uuid u) (env.clock r)))
                (Runs-bind _ (Runs-attempt-query _ live (unrecorded env input row db u r p)) (
                  Runs-bind _ Runs-pure (
                    Runs-bind _
                      (Runs-attempt _ (
                        Runs-then _ _ v.reversal (
                          Runs-eq
                            (ap
                              (process_reversal env (candidate env input row db u r p)
                                input.correlation_id)
                              v.reference.external)
                            (Runs-bind _ (Runs-attempt-query _ live v.stored) (
                              Runs-bind _ Runs-pure (
                                Runs-eq
                                  (ap
                                    (against_reference env (candidate env input row db u r p)
                                      input.correlation_id ref)
                                    valid)
                                  (Runs-bind _ (Runs-read_clock env.clock) (
                                    Runs-bind _ (Runs-lift resolves) (
                                      Runs-else _ _ back.no_loss (
                                        Runs-bind _ (Runs-lift back.direction) (
                                          Runs-within_tx live (
                                            Runs-bind _
                                              (Runs-query _ tt (finds env input row db u r p))
                                              (Runs-bind _ (Runs-attempt-query _ tt not_reversed)
                                                (Runs-bind _ Runs-pure runs))))))))))))))
                      Runs-pure))))),
        t1,
        t2,
      )

-- the submission has landed, and it refers to `ref`, whose amount is back on the balance
pub record IsReversed (env : Env) (input : SubmitInput) (row : WalletRow) (ref : Transaction)
    (w : World) (result : SubmitResult) (w' : World) : Type 0 where
  pub lands : IsLanded env input row w result w'
  pub refers_to : result.transaction.reference_transaction_id ≡ some ref.id
  pub credited : result.balance.amount ≡ row.balance +ℤ input.transaction.amount.amount

abbrev pub Reverses :
    Env → SubmitInput → WalletRow → Transaction → World → Result SubmitResult × World → Type 0
Reverses env input row ref w (ok result, w') = IsReversed env input row ref w result w'
Reverses env input row ref w (err e, w') = ⊥

module _ (env : Env) (works : Works env) (input : SubmitInput) (row : WalletRow) (ref : Transaction)
    (w : World) (i : w.session ≡ idle) (no_faults : w.faults ≡ [])
    (offered : IsOffered env input row w.db w.uuids)
    (reversible : IsReversible env input row w.db w.uuids w.readings ref) where
  -- Where no database call fails and nothing stands against the submission of a refund or a rollback
  -- of a stored bet, which the rules of references admit and which is not reversed so far, and the
  -- wallet can hold the amount, it returns: the transaction is processed and recorded with the id of
  -- the bet, exactly the amount has come back to the balance of that wallet and of no other, one
  -- ledger entry says so, and the two events of it wait in the outbox.
  pub submit-Reverses : Reverses env input row ref w (submit env input w)
  submit-Reverses =
      let (e1, e2, runs, t1, t2) =
        reverses_it env works input row w.db w.uuids w.readings offered ref reversible idle tt in
      subst (Reverses env input row ref w)
        (sym (ap (submit env input) (quiet_eta w i no_faults) ∙ runs.runs))
        (record {
          lands =
              IsLanded-settled env input row w w.uuids w.readings offered (some ref.id)
                (env.clock (suc w.readings)) (suc (suc w.readings))
                (fits_on_top env works input row w.db w.uuids w.readings offered ref reversible) e1
                e2 w.db.inbox _ _ t1 t2;
          refers_to = refl;
          credited =
              balance_behind-reversal input.transaction.kind row.balance
                input.transaction.amount.amount reversible.reversal;
        })

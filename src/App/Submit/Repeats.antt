-- ===== src/App/Submit/Repeats.antt =====
-- internal/app/wager_submit.go: a submission that has landed, sent again.
use mathlib.Core.Path.{subst}
use croupier.Prelude.{
  ℕ, suc, ◌≡◌, Bool, refl, sym, ap, ◌∙◌, arith, true, false, none, some, [], ◌∷◌, ◌++◌, find,
  String, str_eq, eq_iff, List, ==_refl, ◌==◌, not,
}
use croupier.Errors.{Result, ok, err}
use croupier.Values.{Uuid, Time, micros}
use croupier.Outbox.{Entry}
use croupier.Wager.{Transaction, payload_hash}
use croupier.Store.Tables.{Db, WalletRow, LedgerRow}
use croupier.Store.Monad.{World, Session, idle}
use croupier.Store.Quiet.{
  IsLive, quiet, quiet_eta, Runs, Runs-bind, Runs-pure, Runs-lift, Runs-attempt-query, Runs-else,
  Runs-read_clock, Runs-draw_uuid,
}
use croupier.Store.RoundTrip.{scan_wager-wager_row, scan_ledger_entry-ledger_row}
use croupier.Store.Wagers.{has_key, wager_row, find_by_key, select_by_key}
use croupier.Store.Entries.{find_ledger_entry, select_ledger_entry, ledger_row}
use croupier.Store.Outbox.{upsert_entry}
use croupier.App.Env.{Env}
use croupier.App.Movement.{SubmitInput, SubmitResult, first_processing}
use croupier.App.Movement.Lands.{Works}
use croupier.App.Submit.{submit, replay}
use croupier.App.Submit.Offers.{IsOffered, candidate_of, makes}
use croupier.App.Submit.Plays.{Affords}
use croupier.App.Submit.Lands.{
  affordable, submits, still_there, behind, landed, with_entry, the_movement,
}

text_refl : (s : String) → str_eq s s ≡ true
text_refl s = (eq_iff s s).1 refl

find-append {ℓ} :
    {A : Type ℓ} (p : A → Bool) (xs : List A) (x : A)
    → find p xs ≡ none
    → p x ≡ true
    → find p (xs ++ x ∷ []) ≡ some x
find-append p [] x h k = ground arith
find-append p (y ∷ xs) x h k = ground (arith, find-append p xs x)

-- what a scan gives back of a stored transaction
abbrev pub reread : Transaction → Transaction
reread tx = record tx { created_at = micros tx.created_at; updated_at = micros tx.updated_at }

-- the same result, flagged as a replay, with the times that the tables keep, from the same tables
abbrev pub IsReplayOf : SubmitResult → Db → Result SubmitResult × World → Type 0
IsReplayOf result db (ok again, w) =
    (again ≡ record result { transaction = reread result.transaction; idempotent_replay = true })
    × (w.db ≡ db)
IsReplayOf result db (err e, w) = ⊥

-- ... once the first submission has returned
abbrev pub Repeats : Env → SubmitInput → Result SubmitResult × World → Type 0
Repeats env again (ok result, w) = IsReplayOf result w.db (submit env again w)
Repeats env again (err e, w) = ⊥

module _ (env : Env) (works : Works env) (input : SubmitInput) (row : WalletRow) (db : Db) (u r : ℕ)
    (p : IsOffered env input row db u)
    (affords : Affords input.transaction.kind row.balance input.transaction.amount.amount)
    (outbox : List Entry) where
  abbrev tx : Transaction
  tx = landed env input row db u r p none (env.clock r) (suc r)

  abbrev behind_db : Db
  behind_db = record (with_entry env input row db u r p none (env.clock r) (suc r)) {
    outbox = outbox;
  }

  accepted : env.parse_iso input.transaction.amount.currency ≡ true
  accepted = ap env.parse_iso (sym p.currency) ∙ p.accepted

  has_its_key :
      has_key input.transaction.provider_id input.transaction.external_transaction_id
        (wager_row env.digest tx)
      ≡ true
  unfolding wager_row
  has_its_key =
      rw
        (
          p.has_provider,
          p.has_external,
          text_refl input.transaction.provider_id,
          text_refl input.transaction.external_transaction_id,
        )
        refl

  found_again :
      select_by_key env.parse_iso input.transaction.provider_id
        input.transaction.external_transaction_id behind_db
      ≡ ok (reread tx)
  found_again =
      rw
        (find-append
          (has_key input.transaction.provider_id input.transaction.external_transaction_id)
          db.wagers (wager_row env.digest tx) p.unused has_its_key)
        (scan_wager-wager_row env.parse_iso env.digest tx accepted)

  entered :
      select_ledger_entry env.parse_iso tx.id behind_db
      ≡ ok (record (the_movement env input row db u r p none (env.clock r) (suc r)) {
        created_at = micros (env.clock (suc r));
      })
  entered =
      rw
        (
          find-append (λ (e : LedgerRow). e.transaction_id == tx.id) db.ledger
              (ledger_row (the_movement env input row db u r p none (env.clock r) (suc r)))
              p.first_entry (==_refl tx.id),
          still_there env input row db u r p none (env.clock r) (suc r)
              (affordable env works input row db u r p affords),
        )
        (scan_ledger_entry-ledger_row env.parse_iso row.currency
          (the_movement env input row db u r p none (env.clock r) (suc r)) p.accepted
          (sym p.currency) refl refl)

  same_hash :
      (fresh : Uuid) (now : Time)
      → not (
          payload_hash env.digest tx
          == payload_hash env.digest (candidate_of fresh now input.transaction))
        ≡ false
  same_hash fresh now = rw (==_refl (payload_hash env.digest tx)) refl

  pub repeats :
      (again : SubmitInput) (s : Session) (u' r' : ℕ)
      → IsLive s
      → again.transaction ≡ input.transaction
      → Runs
          (submit env again)
          (quiet s behind_db u' r')
          (record {
            transaction = reread tx;
            balance = record {
              currency = row.currency;
              amount = behind env input row db u r p none (env.clock r) (suc r);
            };
            idempotent_replay = true;
          })
          (quiet s behind_db (suc u') (suc r'))
  unfolding submit find_by_key replay find_ledger_entry
  repeats again s u' r' live same =
      let candidate = candidate_of (env.new_uuid u') (env.clock r') input.transaction in
      rw same (
        Runs-bind _ (Runs-read_clock env.clock) (
          Runs-bind _ (Runs-draw_uuid env.new_uuid) (
            Runs-bind _ (Runs-lift (makes env input row db u r p (env.new_uuid u') (env.clock r')))
              (Runs-bind _ (Runs-attempt-query _ live found_again) (
                Runs-bind _ Runs-pure (
                  Runs-else _ _ (same_hash (env.new_uuid u') (env.clock r')) (
                    Runs-bind _
                      (Runs-bind _ (Runs-attempt-query _ live entered)
                        (Runs-bind _ Runs-pure Runs-pure))
                      Runs-pure)))))))

module _ (env : Env) (works : Works env) (input again : SubmitInput) (row : WalletRow) (w : World)
    (i : w.session ≡ idle) (no_faults : w.faults ≡ [])
    (offered : IsOffered env input row w.db w.uuids)
    (affords : Affords input.transaction.kind row.balance input.transaction.amount.amount)
    (same : again.transaction ≡ input.transaction) where
  -- Where no database call fails, and the submission of a bet or a win has nothing against it and its
  -- wallet affords it, sending it and then sending it again, under whatever correlation id, returns
  -- twice: the second result is the first one, flagged as a replay and with the times of the transaction cut to
  -- the microseconds that the tables keep, and it changes no table.
  pub submit-Repeats : Repeats env again (submit env input w)
  submit-Repeats =
      let (e1, e2, first, t1, t2) =
        submits env works input row w.db w.uuids w.readings offered affords idle tt in
      let second =
        repeats env works input row w.db w.uuids w.readings offered affords
          (upsert_entry e2 (upsert_entry e1 w.db.outbox)) again idle _ _ tt same in
      let processed_once =
        first_processing
          (landed env input row w.db w.uuids w.readings offered none (env.clock w.readings)
            (suc w.readings))
          (record {
            currency = row.currency;
            amount =
                behind env input row w.db w.uuids w.readings offered none (env.clock w.readings)
                  (suc w.readings);
          }) in
      subst (Repeats env again) (sym (ap (submit env input) (quiet_eta w i no_faults) ∙ first.runs))
        (subst (IsReplayOf processed_once _) (sym second.runs) (refl, refl))

-- ===== src/App/Movement/Duplicate.antt =====
-- internal/app/wager_submit.go: a reference is reversed at most once.
use croupier.Prelude.{String, ◌≡◌, refl, sym, ◌∙◌, arith, some, ◌⊎◌, inl, inr, List}
use croupier.Errors.{Error, AppError, Result, ok, err}
use croupier.Values.{Time}
use croupier.Wager.{Transaction, rejected, mark_rejected}
use croupier.Wallet.{Wallet}
use croupier.Wallet.Ledger.{Direction}
use croupier.Store.Tables.{Db, WalletRow, LedgerRow}
use croupier.Store.Monad.{World, ◌>>=◌}
use croupier.Store.Rules.{
  Ensures, After, Ensures-bind, Ensures-bind-lift, Ensures-pure, Ensures-query,
  Ensures-attempt-query, Ensures-given, Ensures-pure-bind, Ensures-raise-bind, Ensures-weaken,
  Ensures-read_clock, IsFault, no_connection, broken,
}
use croupier.Store.Wallets.{find_wallet}
use croupier.Store.Wagers.{select_reversal, find_reversal}
use croupier.Store.Books.Writes.{BookPred, On, Ensures-save_wager, Ensures-save_all}
use croupier.App.Env.{Env}
use croupier.App.Events.Frame.{rejected_event-Ensures}
use croupier.App.Movement.{
  SubmitResult, failure_duplicate_reversal, movement, check_duplicate, reject_duplicate,
  reject_in_tx, wager_or_nil,
}

-- The transaction of the result is rejected with the code.
pub record IsRejected (code : String) (r : SubmitResult) : Type 0 where
  pub status_is : r.transaction.status ≡ rejected
  pub code_is : r.transaction.failure_code ≡ code

module _ (env : Env) (tx : Transaction) (correlation_id : String) (ws : List WalletRow)
    (ls : List LedgerRow) where
  -- the wallets and the ledger are those
  abbrev Still : BookPred
  Still ws' ls' = (ws' ≡ ws) × (ls' ≡ ls)

  rejected_fields :
      (now : Time) (code : String) {tx' : Transaction}
      → mark_rejected now tx code ≡ ok tx'
      → (tx'.status ≡ rejected) × (tx'.failure_code ≡ code)
  unfolding mark_rejected
  rejected_fields now code h = ground arith

  reject_in_tx-IsRejected :
      (code : String) (w : Wallet)
      → Ensures
          (On Still)
          (reject_in_tx env tx code correlation_id w)
          (λ r db. On Still db × IsRejected code r)
  unfolding reject_in_tx
  reject_in_tx-IsRejected code w = Ensures-bind (Ensures-read_clock env.clock) λ now.
      Ensures-bind-lift _ λ tx' marked.
        Ensures-bind (rejected_event-Ensures env tx' correlation_id) λ event.
          Ensures-bind (Ensures-save_wager Still env.digest tx') λ _.
            Ensures-bind (Ensures-save_all Still _) λ _.
              let (status, failure) = rejected_fields now code marked in
              Ensures-pure _ (λ db b. (b, record { status_is = status; code_is = failure }))

  module _ (referenced duplicate : Transaction) where
    -- the lookup of the reversal as a value
    abbrev Looked : Result Transaction → Db → Type 0
    Looked r db = On Still db × ((r ≡ ok duplicate) ⊎ ((e : Error) × (r ≡ err e) × IsFault e))

    abbrev Reversed : Db → Type 0
    Reversed db = On Still db × (select_reversal env.parse_iso referenced.id db ≡ ok duplicate)

    still : (r : Result Transaction) (db : Db) → Looked r db → On Still db
    still r db (s, _) = s

    never_missing : (db : Db) → Looked (err (Error.app AppError.wager_transaction_not_found)) db → ⊥
    never_missing db (s, inl e) = cc
    never_missing db (s, inr (x, e, no_connection)) = cc
    never_missing db (s, inr (x, e, broken n)) = cc

    Looked-IsRejected :
        (d : Direction) (w : Wallet) (r : Result Transaction)
        → Ensures
            (Looked r)
            (wager_or_nil r >>= reject_duplicate env tx correlation_id d w)
            (λ r db. On Still db × IsRejected failure_duplicate_reversal r)
    unfolding reject_duplicate
    Looked-IsRejected d w (ok t) = Ensures-pure-bind _ _ (
        Ensures-weaken _ (reject_in_tx-IsRejected failure_duplicate_reversal w) (still (ok t))
          (λ r db h. h))
    Looked-IsRejected d w (err (Error.app AppError.wager_transaction_not_found)) =
        Ensures-given (λ db l. absurd (never_missing db l))
    Looked-IsRejected d w (err e) = Ensures-raise-bind _ _

    duplicate-Ensures :
        (d : Direction)
        → Ensures Reversed
            (movement env tx correlation_id d (some referenced))
            (λ r db. On Still db × IsRejected failure_duplicate_reversal r)
    unfolding movement check_duplicate find_wallet find_reversal
    duplicate-Ensures d = Ensures-bind {Q = λ _. Reversed} (Ensures-query _ (λ w db e p. p)) λ w.
        Ensures-bind {Q = Looked}
          (Ensures-attempt-query _ (λ r db e (s, p). (s, inl (sym e ∙ p)))
            (λ e db f (s, p). (s, inr (e, refl, f))))
          λ found. Looked-IsRejected d w found

-- Where the referenced transaction has a processed reversal, the body of the transaction in `process`
-- moves nothing: if it returns, the wallets and the ledger are what they were, and the new reversal is
-- rejected as a duplicate.
pub movement-IsRejected :
    (env : Env) (tx referenced duplicate : Transaction) (correlation_id : String) (d : Direction)
    (w : World)
    → select_reversal env.parse_iso referenced.id w.db ≡ ok duplicate
    → After
        (λ r db.
          (db.wallets ≡ w.db.wallets)
          × (db.ledger ≡ w.db.ledger)
          × IsRejected failure_duplicate_reversal r)
        (movement env tx correlation_id d (some referenced) w)
movement-IsRejected env tx referenced duplicate correlation_id d w h =
    (Ensures-weaken _
        (duplicate-Ensures env tx correlation_id w.db.wallets w.db.ledger referenced duplicate d)
        (λ db p. p) (λ r db ((a, b), c). (a, b, c))).at
      w ((refl, refl), h)

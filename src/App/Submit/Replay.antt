-- ===== src/App/Submit/Replay.antt =====
-- internal/app/wager_submit.go: what a second submission under a recorded key does.
use mathlib.Core.Path.{subst}
use croupier.Prelude.{
  ℕ, String, ◌≡◌, refl, sym, ap, ◌∙◌, true, false, not, ◌==◌, inl, inr, ◌⊎◌, Option, none, some,
  arith,
}
use croupier.Errors.{Error, AppError, Result, ok, err, ok_injective}
use croupier.Values.{Uuid, Time}
use croupier.Money.{Money}
use croupier.Wager.{Transaction, new_transaction, payload_hash}
use croupier.Wallet.Ledger.{LedgerEntry}
use croupier.Store.Tables.{Db}
use croupier.Store.Monad.{World, idle, ◌>>=◌}
use croupier.Store.Rules.{
  Ensures, After, Ensures-bind, Ensures-bind-lift, Ensures-pure, Ensures-raise, Ensures-if,
  Ensures-given, Ensures-weaken, Ensures-pure-bind, Ensures-raise-bind, Ensures-query,
  Ensures-attempt-query, Ensures-draw_uuid, Ensures-read_clock, IsFault, no_connection, broken,
}
use croupier.Store.Keeps.Answers.{Keeps-attempt-query}
use croupier.Store.Keeps.{
  Keeps, Keeps-bind, Keeps-bind-lift, Keeps-pure-bind, Keeps-raise-bind, Keeps-draw_uuid,
  Keeps-read_clock,
}
use croupier.Store.Wallets.{find_wallet}
use croupier.Store.Entries.{select_ledger_entry, find_ledger_entry}
use croupier.Store.Wagers.{select_by_key, find_by_key}
use croupier.App.Env.{Env}
use croupier.App.Movement.{SubmitInput, SubmitResult, wager_or_nil, entry_or_nil}
use croupier.App.Submit.{
  balance_or_current, balance_at_processing, replay_same, replay, submit_candidate, submit,
}
use croupier.App.Submit.Books.{replay-Keeps}

abbrev after_or : LedgerEntry → Option LedgerEntry → Money
after_or d none = d.balance_after
after_or d (some e) = e.balance_after

the_entry :
    {e entry : LedgerEntry}
    → (ok e ≡ ok entry) ⊎ ((x : Error) × (ok e ≡ err x) × IsFault x)
    → some e ≡ some entry
the_entry (inl h) = cc
the_entry (inr (x, h, f)) = cc

-- the balance behind an entry, if there is one
abbrev pub HasBalance : Result LedgerEntry → Money → Type 0
HasBalance (ok e) b = b ≡ e.balance_after
HasBalance (err x) b = Unit

has_balance :
    (r : Result LedgerEntry) (b : Money)
    → ((entry : LedgerEntry) → r ≡ ok entry → b ≡ entry.balance_after)
    → HasBalance r b
has_balance (ok e) b h = h e refl
has_balance (err x) b h = tt

-- what a result says when it is a replay of `existing`
pub record IsReplay (env : Env) (input : SubmitInput) (existing : Transaction) (db : Db)
    (r : SubmitResult) : Type 0 where
  pub same_transaction : r.transaction ≡ existing
  pub is_replay : r.idempotent_replay ≡ true
  pub same_payload :
      (id : Uuid) × (now : Time) × (candidate : Transaction) × (new_transaction id now
          input.transaction
        ≡ ok candidate)
      × (payload_hash env.digest existing ≡ payload_hash env.digest candidate)
  pub balance_then : HasBalance (select_ledger_entry env.parse_iso existing.id db) r.balance

module _ (env : Env) (input : SubmitInput) (existing : Transaction) where
  -- the table has `existing` under the key of the input
  abbrev pub Recorded : Db → Type 0
  Recorded db =
      select_by_key env.parse_iso input.transaction.provider_id
        input.transaction.external_transaction_id db
      ≡ ok existing

  module _ (db0 : Db) (recorded : Recorded db0) where
    found_at : (db : Db) → db ≡ db0 → Recorded db
    found_at db same = subst Recorded (sym same) recorded

    -- the first read of a submission finds the recorded transaction, or fails
    found-Keeps :
        (candidate : Transaction) (c : String) (r : Result Transaction)
        → r ≡ ok existing
        → Keeps (λ db. db ≡ db0) (wager_or_nil r >>= submit_candidate env candidate c)
    unfolding submit_candidate
    found-Keeps candidate c (ok tx) e = Keeps-pure-bind _ _ (replay-Keeps env tx candidate)
    found-Keeps candidate c (err x) e = absurd (cc)

    fault-Keeps :
        (candidate : Transaction) (c : String) (e : Error)
        → IsFault e
        → Keeps (λ db. db ≡ db0) (wager_or_nil (err e) >>= submit_candidate env candidate c)
    fault-Keeps candidate c _ no_connection = Keeps-raise-bind _ _
    fault-Keeps candidate c _ (broken n) = Keeps-raise-bind _ _

    resubmitted : Keeps (λ db. db ≡ db0) (submit env input)
    unfolding submit find_by_key
    resubmitted = Keeps-bind (Keeps-read_clock _) λ now. Keeps-bind (Keeps-draw_uuid _) λ id.
        Keeps-bind-lift _ λ candidate _.
          Keeps-attempt-query _ _
            (λ r db e same. found-Keeps candidate input.correlation_id r (sym e ∙ found_at db same))
            (fault-Keeps candidate input.correlation_id)

  -- the read that opens a submission, as a value
  abbrev Read : Result Transaction → Db → Type 0
  Read r db = ((r ≡ ok existing) × Recorded db) ⊎ ((e : Error) × (r ≡ err e) × IsFault e)

  abbrev EntryRead : Result LedgerEntry → Db → Type 0
  EntryRead r db =
      (entry : LedgerEntry)
      → select_ledger_entry env.parse_iso existing.id db ≡ ok entry
      → (r ≡ ok entry) ⊎ ((e : Error) × (r ≡ err e) × IsFault e)

  abbrev EntryIs : Option LedgerEntry → Db → Type 0
  EntryIs o db =
      (entry : LedgerEntry)
      → select_ledger_entry env.parse_iso existing.id db ≡ ok entry
      → o ≡ some entry

  abbrev BalanceThen : Money → Db → Type 0
  BalanceThen b db =
      (entry : LedgerEntry)
      → select_ledger_entry env.parse_iso existing.id db ≡ ok entry
      → b ≡ entry.balance_after

  not_fault :
      {entry : LedgerEntry}
      → (err (Error.app AppError.ledger_entry_not_found) ≡ ok entry)
        ⊎ ((e : Error) × (◌≡◌ {A = Result LedgerEntry}
              (err (Error.app AppError.ledger_entry_not_found))
              (err e))
            × IsFault e)
      → none ≡ some entry
  not_fault (inl h) = cc
  not_fault (inr (e, h, no_connection)) = cc
  not_fault (inr (e, h, broken n)) = cc

  entry_or_nil-Ensures : (r : Result LedgerEntry) → Ensures (EntryRead r) (entry_or_nil r) EntryIs
  entry_or_nil-Ensures (ok e) = Ensures-pure _ (λ db p entry h. the_entry (p entry h))
  entry_or_nil-Ensures (err (Error.app AppError.ledger_entry_not_found)) =
      Ensures-pure _ (λ db p entry h. not_fault (p entry h))
  entry_or_nil-Ensures (err e) = Ensures-raise e

  balance_or_current-Ensures :
      (o : Option LedgerEntry) → Ensures (EntryIs o) (balance_or_current env existing o) BalanceThen
  unfolding balance_or_current find_wallet
  balance_or_current-Ensures (some e) =
      Ensures-pure _ (λ db p entry h. ap (λ o. after_or e o) (p entry h))
  balance_or_current-Ensures none =
      Ensures-bind {Q = λ _ db. EntryIs none db} (Ensures-query _ (λ a db e p. p))
        λ w. Ensures-pure _ (λ db p entry h. absurd (let q = p entry h in cc))

  replay_same-IsReplay :
      (id : Uuid) (now : Time) (candidate : Transaction)
      → new_transaction id now input.transaction ≡ ok candidate
      → payload_hash env.digest existing ≡ payload_hash env.digest candidate
      → Ensures Recorded (replay_same env existing) (λ r db. IsReplay env input existing db r)
  unfolding replay_same balance_at_processing find_ledger_entry
  replay_same-IsReplay id now candidate accepted same =
      Ensures-bind {Q = BalanceThen}
        (Ensures-bind {Q = EntryRead}
          (Ensures-attempt-query _ (λ r db e p entry h. inl (sym e ∙ h))
            (λ e db f p entry h. inr (e, refl, f)))
          (λ r. Ensures-bind {Q = EntryIs} (entry_or_nil-Ensures r) balance_or_current-Ensures))
        (λ b. Ensures-pure _ (λ db h. record {
          same_transaction = refl;
          is_replay = refl;
          same_payload = (id, now, candidate, accepted, same);
          balance_then = has_balance _ _ (h);
        }))

  same_hash : (a b : ℕ) → not (a == b) ≡ false → a ≡ b
  same_hash a b h = ground arith

  replay-IsReplay :
      (id : Uuid) (now : Time) (candidate : Transaction)
      → new_transaction id now input.transaction ≡ ok candidate
      → Ensures Recorded (replay env existing candidate) (λ r db. IsReplay env input existing db r)
  unfolding replay
  replay-IsReplay id now candidate accepted =
      Ensures-if _ (λ _. Ensures-raise _)
        (λ e. replay_same-IsReplay id now candidate accepted (same_hash _ _ e))

  still-Recorded : (db : Db) → Read (ok existing) db → Recorded db
  still-Recorded db (inl (e, rec)) = rec
  still-Recorded db (inr (x, e, f)) = absurd (cc)

  never_missing : (db : Db) → Read (err (Error.app AppError.wager_transaction_not_found)) db → ⊥
  never_missing db (inl (e, rec)) = cc
  never_missing db (inr (x, e, no_connection)) = cc
  never_missing db (inr (x, e, broken n)) = cc

  recorded_one :
      (id : Uuid) (now : Time) (candidate : Transaction)
      → new_transaction id now input.transaction ≡ ok candidate
      → (tx : Transaction) (db : Db) → Read (ok tx) db
      → Ensures (Read (ok tx)) (replay env tx candidate) (λ r db. IsReplay env input existing db r)
  recorded_one id now candidate accepted tx db (inl (e, rec)) =
      let at_existing =
        Ensures-weaken (replay env existing candidate) (replay-IsReplay id now candidate accepted)
          (λ db read. still-Recorded db read) (λ r db h. h) in
      subst
        (λ t.
          Ensures (Read (ok t)) (replay env t candidate) (λ r db. IsReplay env input existing db r))
        (sym (ok_injective e)) at_existing
  recorded_one id now candidate accepted tx db (inr (x, e, f)) = absurd (cc)

  chosen :
      (id : Uuid) (now : Time) (candidate : Transaction) (c : String)
      → new_transaction id now input.transaction ≡ ok candidate
      → (r : Result Transaction)
      → Ensures
          (Read r)
          (wager_or_nil r >>= submit_candidate env candidate c)
          (λ r db. IsReplay env input existing db r)
  unfolding submit_candidate
  chosen id now candidate c accepted (ok tx) =
      Ensures-pure-bind _ _
        (Ensures-given (λ db read. recorded_one id now candidate accepted tx db read))
  chosen id now candidate c accepted (err (Error.app AppError.wager_transaction_not_found)) =
      Ensures-given (λ db read. absurd (never_missing db read))
  chosen id now candidate c accepted (err x) = Ensures-raise-bind _ _

  submit-Ensures : Ensures Recorded (submit env input) (λ r db. IsReplay env input existing db r)
  unfolding submit find_by_key
  submit-Ensures = Ensures-bind {Q = λ _. Recorded} (Ensures-read_clock _) λ now.
      Ensures-bind {Q = λ _. Recorded} (Ensures-draw_uuid _) λ id.
        Ensures-bind-lift _ λ candidate accepted.
          Ensures-bind {Q = Read}
            (Ensures-attempt-query _ (λ r db e p. inl (sym e ∙ p, p))
              (λ e db f p. inr (e, refl, f)))
            (λ found. chosen id now candidate input.correlation_id accepted found)

  -- Outside a transaction and with a recorded transaction under the key of the input, a submission
  -- changes no table, whatever fails. If it succeeds, the result is that transaction, flagged as a
  -- replay; its payload hash is that of the input; and where a ledger entry of that transaction is
  -- found, the balance is the one behind the entry.
  pub submit-IsReplay :
      (w : World)
      → w.session ≡ idle
      → Recorded w.db
      → ((submit env input w).1.db ≡ w.db)
        × After (λ r db. IsReplay env input existing db r) (submit env input w)
  submit-IsReplay w i h =
      let (same, _) = (resubmitted w.db h).at w i refl in (same, submit-Ensures.at w h)

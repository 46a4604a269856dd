-- ===== src/Wager/Lifecycle.antt =====
-- The states of a transaction under the methods of internal/wager/transaction.go.
use croupier.Prelude.{String, ◌≡◌, refl, true, false, arith}
use croupier.Errors.{ok}
use croupier.Values.{Uuid, Time}
use croupier.Wager.{
  Transaction, is_terminal, hash_input, resolve_reference, mark_processed, mark_rejected,
  mark_pending_reference, mark_failed,
}

-- One call of a method that returns no error.
pub data Step (tx tx' : Transaction) : Type 0 where
  resolve : (now : Time) (id : Uuid) → resolve_reference now tx id ≡ ok tx' → Step tx tx'
  process : (now : Time) → mark_processed now tx ≡ ok tx' → Step tx tx'
  reject : (now : Time) (code : String) → mark_rejected now tx code ≡ ok tx' → Step tx tx'
  park : (now : Time) → mark_pending_reference now tx ≡ ok tx' → Step tx tx'
  fail : (now : Time) (code : String) → mark_failed now tx code ≡ ok tx' → Step tx tx'

pub data Reach (tx : Transaction) : Transaction → Type 0 where
  here : Reach tx tx
  next : {tx' tx'' : Transaction} → Reach tx tx' → Step tx' tx'' → Reach tx tx''

-- What a transaction is about: its identity, its content and its time of creation.
pub record SameSubject (tx tx' : Transaction) : Type 0 where
  pub id : tx'.id ≡ tx.id
  pub provider_id : tx'.provider_id ≡ tx.provider_id
  pub external_transaction_id : tx'.external_transaction_id ≡ tx.external_transaction_id
  pub content : hash_input tx' ≡ hash_input tx
  pub created_at : tx'.created_at ≡ tx.created_at

Step-SameSubject : (tx tx' : Transaction) → Step tx tx' → SameSubject tx tx'
unfolding resolve_reference mark_processed mark_rejected mark_pending_reference mark_failed
Step-SameSubject tx tx' (resolve now id e) = ground arith
Step-SameSubject tx tx' (process now e) = ground arith
Step-SameSubject tx tx' (reject now code e) = ground arith
Step-SameSubject tx tx' (park now e) = ground arith
Step-SameSubject tx tx' (fail now code e) = ground arith

-- No method has an effect on a terminal transaction.
Step-live : (tx tx' : Transaction) → Step tx tx' → is_terminal tx.status ≡ false
unfolding resolve_reference mark_processed mark_rejected mark_pending_reference mark_failed
Step-live tx tx' (resolve now id e) = ground arith
Step-live tx tx' (process now e) = ground arith
Step-live tx tx' (reject now code e) = ground arith
Step-live tx tx' (park now e) = ground arith
Step-live tx tx' (fail now code e) = ground arith

-- Whatever methods are called on a transaction, its subject stays, with it the payload hash.
pub Reach-SameSubject : {tx tx' : Transaction} → Reach tx tx' → SameSubject tx tx'
Reach-SameSubject here = ground arith
Reach-SameSubject {tx} (next {tx' = t} {tx'' = u} r s) =
    ground (arith, Reach-SameSubject r, Step-SameSubject t u s)

-- A transaction that is processed, rejected or failed stays as it is, whatever methods are called.
pub Reach-terminal : {tx tx' : Transaction} → is_terminal tx.status ≡ true → Reach tx tx' → tx' ≡ tx
Reach-terminal h here = refl
Reach-terminal {tx} h (next {tx' = t} {tx'' = u} r s) =
    ground (arith, Reach-terminal h r, Step-live t u s)

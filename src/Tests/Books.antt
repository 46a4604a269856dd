-- ===== src/Tests/Books.antt =====
-- Theorems on the use cases, applied.
use croupier.Prelude.{◌≡◌, refl, true, Bool, false, none, some, ◌==◌, if◌then◌else◌}
use croupier.Prelude.Int.{pos, ◌+ℤ◌}
use croupier.Store.Books.{net, stored, balance_of}
use croupier.Store.Monad.{idle}
use croupier.App.Submit.{submit}
use croupier.App.Movement.Conservation.{Reconciled}
use croupier.App.Submit.Books.{submit-Reconciled}
use croupier.Tests.Data.{wallet_entry, env, submission, opened_db, at}

books_at :
    (b : Bool)
    → (if b then pos 100 else pos 0) +ℤ pos 0
      ≡ balance_of (elim b [ true ↦ some wallet_entry | false ↦ none ])
unfolding ◌+ℤ◌
books_at true = refl
books_at false = refl

pub opened_books : Reconciled opened_db.wallets opened_db.ledger
unfolding net stored
opened_books id = books_at (7 == id)

submit-Reconciled_example :
    let w' = (submit env submission (at opened_db)).1 in
    Reconciled w'.db.wallets w'.db.ledger × (w'.session ≡ idle)
submit-Reconciled_example = submit-Reconciled env submission (at opened_db) refl opened_books

-- ===== src/Store/Quiet/Inserts.antt =====
-- When the tables accept the rows of a movement: a new transaction, the new balance of a wallet that
-- exists, and its ledger entry.
use croupier.Prelude.{
  String, ◌≡◌, refl, Bool, true, false, none, some, List, [], ◌∷◌, ◌++◌, arith, find, ◌==◌, ==_refl,
  ◌∙◌, ◌||◌, ◌&&◌, if◌then◌else◌,
}
use croupier.Prelude.Int.{pos, ◌≤ℤ◌, ◌<ℤ◌}
use mathlib.Core.Option.{map}
use croupier.Errors.{ok}
use croupier.Values.{Uuid}
use croupier.Wager.{Kind, opening, bet, win, loss, refund, rollback, other, is_reversal}
use croupier.Wallet.Ledger.{LedgerEntry}
use croupier.Store.Tables.{Db, WalletRow, WagerRow}
use croupier.Store.Wallets.{wallet_with_id, replace_wallet, upsert_wallet, update_wallet}
use croupier.Store.Books.{wallet_with_id-replace}
use croupier.Store.Entries.{store_ledger_entry, ledger_row, is_consistent}
use croupier.Store.Wagers.{
  wager_with_id, has_key, upsert_wager, is_opening, has_referent, replace_wager, update_wager,
}

-- The kinds that a provider submits.
abbrev pub is_submission : Kind → Bool
is_submission opening = false
is_submission (other s) = false
is_submission _ = true

find_nothing {ℓ} : {A : Type ℓ} (p : A → Bool) (xs : List A) → find (λ x. false && p x) xs ≡ none
find_nothing p [] = refl
find_nothing p (x ∷ xs) = find_nothing p xs

module _ (new : WagerRow) (ws : List WalletRow) (rs : List WagerRow)
    {provider external round game : String} {w : WalletRow}
    (has_provider : new.provider_id ≡ some provider)
    (has_external : new.external_transaction_id ≡ some external)
    (has_round : new.round_id ≡ some round) (has_game : new.game_id ≡ some game)
    (refers : has_referent new.id new.reference_transaction_id rs ≡ true)
    (fresh : wager_with_id new.id rs ≡ none) (unused : find (has_key provider external) rs ≡ none)
    (known : wallet_with_id new.wallet_id ws ≡ some w) where
  pub inserted :
      (k : Kind)
      → new.kind ≡ k
      → is_submission k ≡ true
      → upsert_wager new ws rs ≡ ok (rs ++ new ∷ [])
  unfolding upsert_wager
  inserted bet e h =
      rw
        (
          e,
          has_provider,
          has_external,
          has_round,
          has_game,
          refers,
          fresh,
          unused,
          known,
          find_nothing (λ r. is_opening r.kind && r.wallet_id == new.wallet_id) rs,
        )
        refl
  inserted win e h =
      rw
        (
          e,
          has_provider,
          has_external,
          has_round,
          has_game,
          refers,
          fresh,
          unused,
          known,
          find_nothing (λ r. is_opening r.kind && r.wallet_id == new.wallet_id) rs,
        )
        refl
  inserted loss e h =
      rw
        (
          e,
          has_provider,
          has_external,
          has_round,
          has_game,
          refers,
          fresh,
          unused,
          known,
          find_nothing (λ r. is_opening r.kind && r.wallet_id == new.wallet_id) rs,
        )
        refl
  inserted refund e h =
      rw
        (
          e,
          has_provider,
          has_external,
          has_round,
          has_game,
          refers,
          fresh,
          unused,
          known,
          find_nothing (λ r. is_opening r.kind && r.wallet_id == new.wallet_id) rs,
        )
        refl
  inserted rollback e h =
      rw
        (
          e,
          has_provider,
          has_external,
          has_round,
          has_game,
          refers,
          fresh,
          unused,
          known,
          find_nothing (λ r. is_opening r.kind && r.wallet_id == new.wallet_id) rs,
        )
        refl
  inserted opening e h = absurd (cc)
  inserted (other t) e h = absurd (cc)

module _ (new : WagerRow) (ws : List WalletRow) (rs : List WagerRow)
    {provider external round game : String} {old : WagerRow}
    (has_provider : new.provider_id ≡ some provider)
    (has_external : new.external_transaction_id ≡ some external)
    (has_round : new.round_id ≡ some round) (has_game : new.game_id ≡ some game)
    (refers : has_referent new.id new.reference_transaction_id rs ≡ true)
    (known : wager_with_id new.id rs ≡ some old) where
  -- a transaction that is stored
  pub rewritten :
      (k : Kind)
      → new.kind ≡ k
      → is_reversal k ≡ true
      → upsert_wager new ws rs ≡ ok (replace_wager new rs)
  unfolding upsert_wager
  rewritten refund e h = rw (e, has_provider, has_external, has_round, has_game, refers, known) refl
  rewritten rollback e h =
      rw (e, has_provider, has_external, has_round, has_game, refers, known) refl
  rewritten bet e h = absurd (cc)
  rewritten win e h = absurd (cc)
  rewritten loss e h = absurd (cc)
  rewritten opening e h = absurd (cc)
  rewritten (other t) e h = absurd (cc)

pub wager_with_id-replace :
    (new : WagerRow) (id : Uuid) (rs : List WagerRow)
    → wager_with_id id (replace_wager new rs)
      ≡ (if new.id == id then map (update_wager new) (wager_with_id id rs) else wager_with_id id rs)
unfolding replace_wager
wager_with_id-replace new id [] = ground arith
wager_with_id-replace new id (r ∷ rs) = ground (arith, wager_with_id-replace new id rs)

module _ (new : WalletRow) (ws : List WalletRow) {w : WalletRow} (solvent : pos 0 ≤ℤ new.balance)
    (versioned : pos 1 ≤ℤ new.version) (known : wallet_with_id new.id ws ≡ some w) where
  pub replaced : upsert_wallet new ws ≡ ok (replace_wallet new ws)
  unfolding upsert_wallet
  replaced = ground arith

  -- The row is still there.
  pub still_known : wallet_with_id new.id (replace_wallet new ws) ≡ some (update_wallet new w)
  still_known = wallet_with_id-replace new new.id ws ∙ rw (==_refl new.id, known) refl

find_neither {ℓ} :
    {A : Type ℓ} (p q s : A → Bool) (xs : List A)
    → find p xs ≡ none
    → find s xs ≡ none
    → find (λ x. p x || q x && s x) xs ≡ none
find_neither p q s [] h k = refl
find_neither p q s (x ∷ xs) h k = ground (arith, find_neither p q s xs)

module _ (e : LedgerEntry) (db : Db) {w : WalletRow} (positive : pos 0 <ℤ e.amount.amount)
    (before : pos 0 ≤ℤ e.balance_before.amount) (after : pos 0 ≤ℤ e.balance_after.amount)
    (consistent : is_consistent e.direction e.amount.amount e.balance_before.amount
        e.balance_after.amount
      ≡ true)
    (known : wallet_with_id e.wallet_id db.wallets ≡ some w)
    (fresh : find (λ r. r.id == e.id) db.ledger ≡ none)
    (first : find (λ r. r.transaction_id == e.transaction_id) db.ledger ≡ none) where
  pub entered : store_ledger_entry e db ≡ ok (record db { ledger = db.ledger ++ ledger_row e ∷ [] })
  unfolding store_ledger_entry
  entered =
      rw
        (
          consistent,
          known,
          find_neither (λ r. r.id == e.id) (λ r. r.wallet_id == e.wallet_id)
              (λ r. r.transaction_id == e.transaction_id) db.ledger fresh first,
        )
        (ground arith)

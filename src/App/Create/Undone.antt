-- ===== src/App/Create/Undone.antt =====
-- internal/app/wallet_create.go: a creation is one write or one transaction, after reads alone.
use mathlib.Core.Path.{subst}
use croupier.Prelude.{◌≡◌, refl, sym, ap, ◌∙◌, Option, none, some, suc, inl, if◌then◌else◌}
use croupier.Errors.{Error, AppError, Result, ok, err}
use croupier.Wallet.{Wallet, new}
use croupier.Money.{is_zero, currency_zero}
use croupier.Prelude.Int.{pos}
use croupier.Wallet.Balance.{new_ledger_entry_lem}
use croupier.Store.Tables.{Db}
use croupier.Store.Monad.{
  World, Session, Fault, safe_to_retry, unsafe_to_retry, acknowledgement_lost, idle, opened,
  aborted, lift, query, attempt, statement, deliver, first_fault, later_faults, read_clock,
  draw_uuid, ◌>>=◌,
}
use croupier.Values.{Uuid, Time}
use croupier.Store.Rules.{Ensures-weaken}
use croupier.Store.Keeps.{Keeps-draw_uuid, Keeps-read_clock}
use croupier.Store.Atomic.Undone.{
  OrUndone, OrUndone-Keeps, OrUndone-lift, OrUndone-exec, OrUndone-within_tx, OrUndone-bind,
  OrUndone-map, OrUndone-if, Final,
}
use croupier.Store.Wallets.{
  find_wallet_of, wallet_with_id, select_wallet_of, save_wallet, store_wallet,
}
use croupier.Store.Books.Writes.{On, stored_wallet}
use croupier.App.Env.{Env}
use croupier.App.Events.Frame.{processed_event-Keeps, balance_changed_event-Keeps}
use croupier.App.Movement.Conservation.{Reconciled}
use croupier.App.Create.Books.{
  Free, opened_empty, opening_writes-Reconciled, new_wallet, zero_amount,
}
use croupier.App.Create.{
  CreateWalletInput, wallet_or_nil, create_with_opening, create_empty, create_absent, create,
}

module _ (env : Env) (input : CreateWalletInput) (d : Db) where
  save_wallet-OrUndone :
      (w : Wallet)
      → w.balance.amount ≡ pos 0
      → On (Free w.id) d
      → OrUndone d (save_wallet w) (λ _. On Reconciled)
  unfolding save_wallet
  save_wallet-OrUndone w zero free =
      OrUndone-exec (store_wallet w) d (On Reconciled) λ db db' e same.
        stored_wallet (Free w.id) Reconciled w (opened_empty w zero) db db' e
          (subst (On (Free w.id)) (sym same) free)

  create_empty-OrUndone :
      (w : Wallet)
      → w.balance.amount ≡ pos 0
      → On (Free w.id) d
      → OrUndone d (create_empty env w) (λ _. On Reconciled)
  unfolding create_empty
  create_empty-OrUndone w zero free =
      OrUndone-map _ (λ _. w) (save_wallet-OrUndone w zero free) (λ _ db b. b)

  create_with_opening-OrUndone :
      (w : Wallet)
      → w.balance ≡ input.initial_balance
      → On (Free w.id) d
      → OrUndone d (create_with_opening env input w) (λ _. On Reconciled)
  unfolding create_with_opening
  create_with_opening-OrUndone w holds free =
      OrUndone-bind (OrUndone-Keeps (Keeps-read_clock env.clock)) λ now _.
        OrUndone-bind (OrUndone-Keeps (Keeps-draw_uuid env.new_uuid)) λ id _.
          OrUndone-bind (OrUndone-lift _) λ tx _.
            OrUndone-bind (OrUndone-Keeps (Keeps-read_clock env.clock)) λ created_at _.
              OrUndone-bind (OrUndone-Keeps (Keeps-draw_uuid env.new_uuid)) λ entry_id _.
                OrUndone-bind (OrUndone-lift _) λ entry made.
                  OrUndone-bind (OrUndone-Keeps (processed_event-Keeps env tx input.correlation_id))
                    λ processed_event _.
                      OrUndone-bind
                        (OrUndone-Keeps
                          (balance_changed_event-Keeps env w entry input.correlation_id _))
                        λ balance_changed _.
                          let e = new_ledger_entry_lem entry_id created_at _ made in
                          OrUndone-map _ (λ _. w)
                            (OrUndone-within_tx _ (
                              Ensures-weaken _
                                (opening_writes-Reconciled env input w tx entry _
                                  (ap (λ x. x.wallet_id) e)
                                  (ap (λ x. x.balance_before) e
                                    ∙ ap (λ b. currency_zero b.currency) (sym holds))
                                  (ap (λ x. x.balance_after) e ∙ sym holds))
                                (λ db same. subst (On (Free w.id)) (sym same) free) (λ _ db b. b)))
                            (λ _ db b. b)

  after_draw :
      (now : Time) (id : Uuid)
      → On Reconciled d
      → wallet_with_id id d.wallets ≡ none
      → OrUndone d
          (lift (new id now input.player_id input.initial_balance) >>= λ w.
            if is_zero input.initial_balance
            then create_empty env w
            else create_with_opening env input w)
          (λ _. On Reconciled)
  after_draw now id books free = OrUndone-bind (OrUndone-lift _) λ w made.
      let (same, holds) = new_wallet env input id now made in
      let free' = subst (λ i. wallet_with_id i d.wallets ≡ none) (sym same) free in
      OrUndone-if (is_zero input.initial_balance)
        (λ zero.
          create_empty-OrUndone w
            (ap (λ b. b.amount) holds ∙ zero_amount env input input.initial_balance zero)
            (books, free'))
        (λ _. create_with_opening-OrUndone w holds (books, free'))

  -- from here on the next id to be drawn is that of the wallet
  module _ (books : On Reconciled d) (v : World) (i : v.session ≡ idle) (same : v.db ≡ d)
      (free : wallet_with_id (env.new_uuid v.uuids) d.wallets ≡ none) where
    absent_at :
        (existing : Option Wallet)
        → Final d (λ _. On Reconciled) (create_absent env input existing v)
    unfolding create_absent read_clock draw_uuid ◌>>=◌
    absent_at (some existing) = (inl same, i)
    absent_at none =
        (after_draw (env.clock v.readings) (env.new_uuid v.uuids) books free).at
          (record v { readings = suc v.readings; uuids = suc v.uuids }) i same

    looked_up_at :
        (r : Result Wallet)
        → Final d
            (λ _. On Reconciled)
            ((wallet_or_nil r >>= λ existing. create_absent env input existing) v)
    unfolding ◌>>=◌
    looked_up_at (ok w) = absent_at (some w)
    looked_up_at (err (Error.app AppError.wallet_not_found)) = absent_at none
    looked_up_at (err e) = (inl same, i)

-- A read leaves everything but the faults to come.
module _ {A : Type 0} (f : Db → Result A) where
  delivered_world :
      (o : Option Fault) (w : World) → w.session ≡ idle → (deliver o (λ v. (f v.db, v)) w).1 ≡ w
  delivered_world none w i = refl
  delivered_world (some (safe_to_retry n)) w i = rw i refl
  delivered_world (some (unsafe_to_retry n)) w i = rw i refl
  delivered_world (some (acknowledgement_lost n)) w i = rw i refl

  asked_world :
      (s : Session) (w : World)
      → s ≡ idle
      → w.session ≡ idle
      → (statement s (λ v. (f v.db, v)) w).1 ≡ record w { faults = later_faults w.faults }
  asked_world idle w e i =
      delivered_world (first_fault w.faults) (record w { faults = later_faults w.faults }) i
  asked_world opened w e i = absurd (cc)
  asked_world aborted w e i = absurd (cc)

  query_world :
      (w : World) → w.session ≡ idle → (query f w).1 ≡ record w { faults = later_faults w.faults }
  unfolding query
  query_world w i = asked_world w.session w i i

pub create-IsAtomic :
    (env : Env) (input : CreateWalletInput) (w : World)
    → w.session ≡ idle
    → Reconciled w.db.wallets w.db.ledger
    → wallet_with_id (env.new_uuid w.uuids) w.db.wallets ≡ none
    → Final w.db (λ _ db. Reconciled db.wallets db.ledger) (create env input w)
unfolding create find_wallet_of attempt ◌>>=◌
create-IsAtomic env input w i books free =
    let lookup = select_wallet_of env.parse_iso input.player_id input.initial_balance.currency in
    subst
      (λ v.
        Final w.db (λ _ db. Reconciled db.wallets db.ledger)
          ((wallet_or_nil (query lookup w).0 >>= λ existing. create_absent env input existing) v))
      (sym (query_world lookup w i))
      (looked_up_at env input w.db books (record w { faults = later_faults w.faults }) i refl free
        (query lookup w).0)

-- ===== src/App/Submit/References.antt =====
-- internal/app/wager_submit.go: what a reversal of a bet comes to, and the row that it refers to.
use croupier.Prelude.{
  String, ◌≡◌, refl, true, false, some, [], ◌∷◌, Bool, List, find, ==_refl, arith, ◌==◌, inl, inr,
  Option-cases, Bool-cases,
}
use croupier.Prelude.Int.{ℤ, ◌+ℤ◌}
use croupier.Errors.{ok}
use croupier.Values.{Uuid, is_some}
use croupier.Money.{from_minor_units}
use croupier.Wager.{
  Transaction, Kind, bet, win, loss, refund, rollback, opening, other, is_reversal, is_loss,
}
use croupier.Store.Tables.{Db, WagerRow}
use croupier.Store.Wagers.{has_key, has_referent, select_by_key, scan_wager}
use croupier.App.Movement.{movement_direction}
use croupier.App.Submit.Plays.{direction_of, balance_behind}

-- what the code asks of the kind of a reversal
pub record IsBack (k : Kind) (ref : Transaction) : Type 0 where
  pub no_loss : is_loss k ≡ false
  pub direction : movement_direction k (some ref) ≡ ok (direction_of k)

pub reversal-IsBack :
    (k : Kind) (ref : Transaction) → is_reversal k ≡ true → ref.kind ≡ bet → IsBack k ref
unfolding movement_direction
reversal-IsBack refund ref h e = record { no_loss = refl; direction = refl }
reversal-IsBack rollback ref h e = record { no_loss = refl; direction = rw e refl }
reversal-IsBack bet ref h e = absurd (cc)
reversal-IsBack win ref h e = absurd (cc)
reversal-IsBack loss ref h e = absurd (cc)
reversal-IsBack opening ref h e = absurd (cc)
reversal-IsBack (other t) ref h e = absurd (cc)

find-other {ℓ} :
    {A : Type ℓ} (p q : A → Bool) (xs : List A) {x : A}
    → find p xs ≡ some x
    → q x ≡ true
    → is_some (find q xs) ≡ true
find-other p q [] h k = absurd (cc)
find-other p q (y ∷ ys) {x = x} h k = elim (Bool-cases (p y)) [
  | inl e ↦ ground arith
  | inr e ↦ ground (arith, find-other p q ys {x = x} (ground arith) k)
]

scan_wager-id :
    (parse_iso : String → Bool) (r : WagerRow) {tx : Transaction}
    → scan_wager parse_iso r ≡ ok tx
    → r.id ≡ tx.id
unfolding scan_wager from_minor_units
scan_wager-id parse_iso r h = ground arith

-- What a lookup finds, a row may refer to.
pub has_referent_stored :
    (parse_iso : String → Bool) (provider : String) (ref : Transaction) (db : Db)
    → select_by_key parse_iso provider ref.external_transaction_id db ≡ ok ref
    → (self : Uuid) → has_referent self (some ref.id) db.wagers ≡ true
has_referent_stored parse_iso provider ref db h self =
    elim (Option-cases (find (has_key provider ref.external_transaction_id) db.wagers)) [
      | inl e ↦ absurd (ground arith)
      | inr (r, e) ↦
          rw
            (find-other _ (λ t. t.id == ref.id) db.wagers e
              (rw (scan_wager-id parse_iso r {tx = ref} (ground arith)) (==_refl ref.id)))
            (ground arith)
    ]

pub balance_behind-reversal :
    (k : Kind) (balance amount : ℤ)
    → is_reversal k ≡ true
    → balance_behind k balance amount ≡ balance +ℤ amount
balance_behind-reversal bet balance amount h = absurd (cc)
balance_behind-reversal _ balance amount h = refl

-- ===== src/App/Submit/Plays.antt =====
-- What a bet or a win does to a wallet that affords it.
use croupier.Prelude.{Option, some, String, ◌≡◌, ◌≢◌, refl, true, false, none, arith, eq_iff}
use croupier.Prelude.Int.{ℤ, pos, ◌+ℤ◌, ◌-ℤ◌, ◌≤ℤ◌, ◌<ℤ◌, int_laws}
use croupier.Prelude.Int64.{IsInt64, max_int64}
use croupier.Errors.{ok}
use croupier.Values.{Uuid, nil_uuid, Time}
use croupier.Money.{Money}
use croupier.Wallet.{Wallet, debit, credit}
use croupier.Wallet.Ledger.{
  Direction, debit as debit_direction, credit as credit_direction, new_ledger_entry,
}
use croupier.Wallet.Balance.{
  IsSolvent, moved, entry_of, the_entry, debit_exact, credit_exact, new_ledger_entry-debit,
  new_ledger_entry-credit,
}
use croupier.Wager.{
  Kind, bet, win, loss, refund, rollback, opening, other, is_reversal, is_loss, check_kind,
}
use croupier.Wager.Reference.{KindRules}
use croupier.Store.Entries.{is_consistent}
use croupier.Store.Quiet.Inserts.{is_submission}
use croupier.App.Env.{Env}
use croupier.App.Movement.{move_balance, movement_direction}

-- the direction of a bet or a win
abbrev pub direction_of : Kind → Direction
direction_of bet = debit_direction
direction_of _ = credit_direction

-- the balance behind it
abbrev pub balance_behind : Kind → ℤ → ℤ → ℤ
balance_behind bet balance amount = balance -ℤ amount
balance_behind _ balance amount = balance +ℤ amount

-- A bet is covered by the balance, and a win fits on top of it.
abbrev pub Affords : Kind → ℤ → ℤ → Type 0
Affords bet balance amount = amount ≤ℤ balance
Affords win balance amount = balance +ℤ amount ≤ℤ max_int64
Affords _ balance amount = ⊥

-- what the code asks of a kind comes out so for a bet or a win
pub record IsPlay (k : Kind) : Type 0 where
  pub no_reversal : is_reversal k ≡ false
  pub no_loss : is_loss k ≡ false
  pub direction : movement_direction k none ≡ ok (direction_of k)

pub Affords-IsPlay : (k : Kind) (balance amount : ℤ) → Affords k balance amount → IsPlay k
unfolding movement_direction
Affords-IsPlay bet balance amount h = record {
  no_reversal = refl;
  no_loss = refl;
  direction = refl;
}
Affords-IsPlay win balance amount h = record {
  no_reversal = refl;
  no_loss = refl;
  direction = refl;
}
Affords-IsPlay _ balance amount h = absurd h

pub bet-IsPlay : (k : Kind) → k ≡ bet → IsPlay k
unfolding movement_direction
bet-IsPlay k h = rw h (record { no_reversal = refl; no_loss = refl; direction = refl })

-- The rules of a kind are what `NewTransaction` tests.
pub check_kind_complete :
    (k : Kind) (amount : Money) (reference : Option String)
    → KindRules k amount.amount reference
    → check_kind k amount reference ≡ ok tt
unfolding check_kind
check_kind_complete bet amount reference (positive, none_given) = rw none_given (ground arith)
check_kind_complete win amount reference positive = ground arith
check_kind_complete loss amount reference zero_amount = rw zero_amount (ground arith)
check_kind_complete refund amount none (positive, given) = absurd (given refl)
check_kind_complete refund amount (some r) (positive, given) = ground arith
check_kind_complete rollback amount none (positive, given) = absurd (given refl)
check_kind_complete rollback amount (some r) (positive, given) = ground arith
check_kind_complete opening amount reference h = absurd h
check_kind_complete (other t) amount reference h = absurd h

pub KindRules-is_submission :
    (k : Kind) (amount : ℤ) (reference : Option String)
    → KindRules k amount reference
    → is_submission k ≡ true
KindRules-is_submission opening amount reference h = absurd h
KindRules-is_submission (other t) amount reference h = absurd h
KindRules-is_submission bet amount reference h = refl
KindRules-is_submission win amount reference h = refl
KindRules-is_submission loss amount reference h = refl
KindRules-is_submission refund amount reference h = refl
KindRules-is_submission rollback amount reference h = refl

pub record IsPlayed (env : Env) (k : Kind) (w : Wallet) (amount : Money) : Type 0 where
  pub moves :
      move_balance env (direction_of k) w amount
      ≡ ok (moved w (balance_behind k w.balance.amount amount.amount))
  pub solvent : pos 0 ≤ℤ balance_behind k w.balance.amount amount.amount
  pub consistent :
      is_consistent
        (direction_of k)
        amount.amount
        w.balance.amount
        (balance_behind k w.balance.amount amount.amount)
      ≡ true
  pub enters :
      (id : Uuid) (now : Time) (tid : Uuid)
      → tid ≢ nil_uuid
      → new_ledger_entry id now (
          entry_of
            (direction_of k)
            tid
            amount
            w
            (moved w (balance_behind k w.balance.amount amount.amount)))
        ≡ ok (
            the_entry id now (
              entry_of
                (direction_of k)
                tid
                amount
                w
                (moved w (balance_behind k w.balance.amount amount.amount))))

module _ (w : Wallet) (amount : Money) (has_id : w.id ≢ nil_uuid) (solvent : IsSolvent w)
    (positive : pos 0 <ℤ amount.amount) (int64 : IsInt64 amount.amount)
    (same : w.balance.currency ≡ amount.currency) where
  debits :
      amount.amount ≤ℤ w.balance.amount
      → debit w amount ≡ ok (moved w (w.balance.amount -ℤ amount.amount))
  debits h =
      rw (debit_exact w amount solvent int64)
        (ground (arith, eq_iff w.balance.currency amount.currency))

  credits :
      w.balance.amount +ℤ amount.amount ≤ℤ max_int64
      → credit w amount ≡ ok (moved w (w.balance.amount +ℤ amount.amount))
  credits h =
      rw (credit_exact w amount solvent int64)
        (ground (arith, eq_iff w.balance.currency amount.currency))

  pub played :
      (env : Env) (k : Kind) → Affords k w.balance.amount amount.amount → IsPlayed env k w amount
  unfolding move_balance
  played env bet h = record {
    moves = debits h;
    solvent = omega int_laws;
    consistent = ground arith;
    enters = λ id now tid t.
        new_ledger_entry-debit w amount tid id now solvent int64 has_id t (debits h);
  }
  played env win h = record {
    moves = credits h;
    solvent = omega int_laws;
    consistent = ground arith;
    enters = λ id now tid t.
        new_ledger_entry-credit w amount tid id now solvent int64 has_id t (credits h);
  }
  played env _ h = absurd h

  -- a reversal of a bet gives the amount back
  pub reversed :
      (env : Env) (k : Kind)
      → is_reversal k ≡ true
      → w.balance.amount +ℤ amount.amount ≤ℤ max_int64
      → IsPlayed env k w amount
  unfolding move_balance
  reversed env refund h fits = record {
    moves = credits fits;
    solvent = omega int_laws;
    consistent = ground arith;
    enters = λ id now tid t.
        new_ledger_entry-credit w amount tid id now solvent int64 has_id t (credits fits);
  }
  reversed env rollback h fits = record {
    moves = credits fits;
    solvent = omega int_laws;
    consistent = ground arith;
    enters = λ id now tid t.
        new_ledger_entry-credit w amount tid id now solvent int64 has_id t (credits fits);
  }
  reversed env bet h fits = absurd (cc)
  reversed env win h fits = absurd (cc)
  reversed env loss h fits = absurd (cc)
  reversed env opening h fits = absurd (cc)
  reversed env (other t) h fits = absurd (cc)

-- ===== src/Tests/Reversals.antt =====
-- Theorems on reversals that nothing stands against, applied.
use croupier.Prelude.Int.{◌+ℤ◌}
use croupier.Prelude.{inl, arith, ◌≡◌, refl, none, some, [], ◌∷◌}
use croupier.Errors.{ok}
use croupier.App.Movement.{SubmitInput}
use croupier.App.Submit.{submit}
use croupier.App.Submit.Offers.{IsOffered}
use croupier.App.Submit.Reverses.{IsReversible, Reverses, submit-Reverses}
use croupier.App.Submit.Parks.{Parks, submit-Parks}
use croupier.App.Resolver.{resolve_one, is_expired}
use croupier.App.Resolver.Run.{IsResolvable}
use croupier.App.Resolver.Resolves.{Resolves, resolve_one-Resolves}
use croupier.Store.Pending.{PendingReferenceRetry}
use croupier.Store.Tables.{Db, WagerRow}
use croupier.Wager.{refund, pending_reference}
use croupier.Wager.Kinds.{referenceable_kind}
use croupier.Store.Wagers.{scan_wager}
use croupier.Money.{from_minor_units}
use croupier.Tests.Data.{env, bet_input, wallet_entry, opened_db, played_db, the_bet, bet_row, at}
use croupier.Tests.Data.{refund_row, stale_refund, resolver}
use croupier.Tests.Live.{env-Works, offered}

abbrev refund_submission : SubmitInput
refund_submission = record {
  transaction = record bet_input {
    external_transaction_id = "refund-1";
    kind = refund;
    reference_external_transaction_id = some "bet-1";
  };
  correlation_id = "c3";
}

refund_offered : IsOffered env refund_submission wallet_entry played_db 0
refund_offered = ground (arith, offered)

early_refund : IsOffered env refund_submission wallet_entry opened_db 0
early_refund = ground (arith, offered)

submit-Parks_example :
    Parks env refund_submission wallet_entry
      (at opened_db)
      (submit env refund_submission (at opened_db))
submit-Parks_example =
    submit-Parks env env-Works refund_submission wallet_entry (at opened_db) refl refl early_refund
      refl refl refl

scanned : scan_wager env.parse_iso bet_row ≡ ok the_bet
unfolding scan_wager from_minor_units
scanned = refl

reversible : IsReversible env refund_submission wallet_entry played_db 0 0 the_bet
unfolding referenceable_kind ◌+ℤ◌
reversible = record {
  reversal = refl;
  reverses_bet = refl;
  reference = record {
    kinds = inl (refl, refl);
    settled = refl;
    provider_id = refl;
    external = refl;
    player_id = refl;
    wallet_id = refl;
    round_id = refl;
    amount = refl;
  };
  stored = scanned;
  unreversed = refl;
  fits = omega arith;
}

submit-Reverses_example :
    Reverses env refund_submission wallet_entry the_bet
      (at played_db)
      (submit env refund_submission (at played_db))
submit-Reverses_example =
    submit-Reverses env env-Works refund_submission wallet_entry the_bet (at played_db) refl refl
      refund_offered reversible

abbrev waiting_row : WagerRow
waiting_row = record refund_row { status = pending_reference; reference_transaction_id = none }

abbrev waiting_db : Db
waiting_db = record opened_db { wagers = bet_row ∷ waiting_row ∷ [] }

abbrev retry : PendingReferenceRetry
retry = record { transaction = stale_refund; attempts = 1 }

resolvable : IsResolvable env resolver 60 retry wallet_entry the_bet waiting_db 0
unfolding is_expired referenceable_kind ◌+ℤ◌
resolvable = record {
  unexpired = refl;
  waits = refl;
  unresolved = refl;
  reversal = refl;
  reverses_bet = refl;
  reference = record {
    kinds = inl (refl, refl);
    settled = refl;
    provider_id = refl;
    external = refl;
    player_id = refl;
    wallet_id = refl;
    round_id = refl;
    amount = refl;
  };
  reference_stored = scanned;
  unreversed = refl;
  old = waiting_row;
  known = refl;
  has_tx = λ h. absurd (omega arith);
  has_provider = refl;
  has_external = refl;
  has_wallet = λ h. absurd (omega arith);
  has_round = refl;
  has_game = refl;
  positive = omega arith;
  int64 = (omega arith, omega arith);
  stands = refl;
  currency = refl;
  accepted = refl;
  solvent = (omega arith, omega arith);
  version = (omega arith, omega arith);
  fits = omega arith;
  correlated = refl;
  fresh_entry = refl;
  first_entry = refl;
}

resolve_one-Resolves_example :
    Resolves env stale_refund the_bet wallet_entry
      (at waiting_db)
      (resolve_one env resolver 60 retry (at waiting_db))
resolve_one-Resolves_example =
    resolve_one-Resolves env env-Works resolver 60 retry wallet_entry the_bet (at waiting_db) refl
      refl resolvable

-- ===== src/Tests/Live.antt =====
-- Theorems on submissions that nothing stands against, applied.
use croupier.Prelude.Int.{pos}
use croupier.Prelude.{arith, ◌≡◌, refl, suc, none, [], ◌∷◌}
use croupier.Errors.{ok}
use croupier.Auth.{verify}
use croupier.Http.{Request, Web, SubmitRequest, submit_wager_transaction}
use croupier.Http.Server.{serve}
use croupier.Http.Server.Live.{Accepts, serve-Lands}
use croupier.Http.Wagering.{submit_input as requested}
use croupier.Sqs.{check_envelope}
use croupier.Sqs.Consumer.{process_message, submit_input}
use croupier.Sqs.Consumer.Live.{Delivered, process_message-Lands}
use croupier.App.Movement.{SubmitInput}
use croupier.App.Movement.Lands.{Works}
use croupier.App.Submit.{submit}
use croupier.App.Submit.Offers.{IsOffered}
use croupier.App.Submit.Live.{Lands, submit-Lands}
use croupier.App.Submit.Declined.{Declines, submit-Declines}
use croupier.App.Submit.Repeats.{Repeats, submit-Repeats}
use croupier.Command.{drain}
use croupier.Command.Drain.{pending_count}
use croupier.Command.Drain.Empties.{Emptied, drain-Empties}
use croupier.Wager.{bet}
use croupier.Tests.Data.{env, reais, submission, bet_input, wallet_entry, opened_db, at}
use croupier.Tests.Service.{envelope, consumer, delivery, claims, web, request}

pub env-Works : Works env
env-Works = record {
  clock = λ n h. absurd (omega arith);
  new_uuid = λ n h. absurd (omega arith);
  marshal = λ e. (123, 125 ∷ [], refl);
}

abbrev large_bet : SubmitInput
large_bet = record submission { transaction = record bet_input { amount = reais 130 } }

pub offered : IsOffered env submission wallet_entry opened_db 0
offered = record {
  has_provider = refl;
  has_external = refl;
  has_player = λ h. absurd (omega arith);
  has_wallet = λ h. absurd (omega arith);
  has_round = refl;
  has_game = refl;
  has_correlation = refl;
  rules = (omega arith, refl);
  positive = omega arith;
  int64 = (omega arith, omega arith);
  stands = refl;
  currency = refl;
  accepted = refl;
  solvent = (omega arith, omega arith);
  version = (omega arith, omega arith);
  unused = refl;
  fresh = refl;
  fresh_entry = refl;
  first_entry = refl;
}

submit-Lands_example :
    Lands env submission wallet_entry (at opened_db) (submit env submission (at opened_db))
submit-Lands_example =
    submit-Lands env env-Works submission wallet_entry (at opened_db) refl refl offered
      (omega arith)

submit-Repeats_example :
    Repeats env (record submission { correlation_id = "c2" }) (submit env submission (at opened_db))
submit-Repeats_example =
    submit-Repeats env env-Works submission (record submission { correlation_id = "c2" })
      wallet_entry (at opened_db) refl refl offered (omega arith) refl

large_offered : IsOffered env large_bet wallet_entry opened_db 0
large_offered = ground (arith, offered)

submit-Declines_example :
    Declines env large_bet wallet_entry (at opened_db) (submit env large_bet (at opened_db))
submit-Declines_example =
    submit-Declines env env-Works large_bet wallet_entry (at opened_db) refl refl large_offered refl
      (omega arith)

well_formed : check_envelope envelope ≡ ok tt
unfolding check_envelope
well_formed = refl

delivered_offer : IsOffered env (submit_input envelope.message "uuid") wallet_entry opened_db 1
unfolding submit_input
delivered_offer = ground (arith, offered)

process_message-Lands_example :
    Delivered env consumer delivery envelope wallet_entry
      (at opened_db)
      (process_message env consumer delivery (at opened_db))
process_message-Lands_example =
    process_message-Lands env env-Works consumer delivery envelope wallet_entry (at opened_db) refl
      refl refl refl well_formed refl delivered_offer (omega arith)

abbrev bet_request : SubmitRequest
bet_request = record {
  external_transaction_id = "bet-1";
  player_id = 3;
  wallet_id = 7;
  round_id = "r1";
  game_id = "g1";
  kind = bet;
  money = reais 30;
  reference_external_transaction_id = none;
}

abbrev betting : Web
betting = record web { decode_submit = λ b. ok bet_request }

abbrev bet_call : Request
bet_call = record request { route = submit_wager_transaction; idempotency_key = "acme:bet-1" }

accepted : verify betting.tokens "token" ≡ ok claims
unfolding verify
accepted = refl

requested_offer : IsOffered env (requested claims bet_request "uuid") wallet_entry opened_db 1
unfolding requested
requested_offer = ground (arith, offered)

serve-Lands_example :
    Accepts env
      (requested claims bet_request "uuid")
      wallet_entry
      (record (at opened_db) { uuids = 1 })
      (serve env betting bet_call (at opened_db))
serve-Lands_example =
    serve-Lands env env-Works betting bet_call claims bet_request wallet_entry (at opened_db) refl
      refl refl refl accepted refl refl refl requested_offer (omega arith)

drain-Empties_example :
    Emptied opened_db.outbox
      (drain env (λ e. none) (pos 10) (suc (pending_count opened_db.outbox)) (at opened_db))
drain-Empties_example =
    drain-Empties env (λ e. none) (pos 10) 50 (at opened_db) (λ e. refl) (λ n. omega arith) refl
      refl (tt, tt) (λ h. omega arith, tt)

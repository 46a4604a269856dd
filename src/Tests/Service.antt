-- ===== src/Tests/Service.antt =====
-- Theorems on the consumer, the server and the whole service, applied.
use croupier.Prelude.{
  ◌≤◌, ◌+◌, if◌then◌else◌, str_eq, length, ℕ, arith, ◌≡◌, refl, ◌⊎◌, inl, none, some, [], ◌∷◌,
}
use croupier.Prelude.Int.{pos}
use croupier.Errors.{Error, ok, err, unavailable}
use croupier.Outbox.Inbox.{Inbox}
use croupier.Wager.{bet}
use croupier.Store.Tables.{Db, empty, WalletRow}
use croupier.Store.Monad.{World, idle}
use croupier.Store.Rules.{After}
use croupier.Store.Wallets.{wallet_with_id}
use croupier.Values.{micros}
use croupier.Auth.{Claims}
use croupier.Http.Server.Books.{Free}
use croupier.App.Create.{create, CreateWalletInput}
use croupier.App.Movement.Conservation.{Reconciled}
use croupier.App.Reconcile.{reconcile}
use croupier.App.Reconcile.Report.{FitsColumns}
use croupier.Sqs.{Envelope, Delivery, Settings}
use croupier.Sqs.Consumer.{process_message}
use croupier.Sqs.Consumer.Commit.{Settled, process_message-Settles}
use croupier.Sqs.Consumer.Redelivery.{Deduplicated, process_message-Deduplicates}
use croupier.Http.{handling, Request, Web, create_wallet, get_wager_transaction_by_provider}
use croupier.Http.Failures.{write_error, IsErrorAnswer, write_error-IsErrorAnswer}
use croupier.Http.Server.{serve, route_handler}
use croupier.Http.Guards.{require_internal_role, require_auth}
use croupier.Http.Wallets.{create_wallet as handle_create, create_decoded}
use croupier.Auth.{verify, any_role}
use croupier.Store.Wallets.{find_wallet_of, save_wallet, upsert_wallet}
use croupier.Wallet.{new}
use croupier.Wallet.Ledger.{new_ledger_entry, expected_after}
use croupier.Wager.{new_opening_transaction}
use croupier.Store.Monad.{◌>>=◌, attempt, query, exec, read_clock, draw_uuid, within_tx}
use croupier.Money.{equal, from_minor_units, add}
use croupier.App.Events.{new_processed_event, new_balance_changed_event, new_event}
use croupier.Outbox.{new_entry}
use croupier.Store.Wagers.{save_wager, wager_row, upsert_wager}
use croupier.Store.Entries.{save_ledger_entry, store_ledger_entry}
use croupier.Store.Outbox.{save_all, upsert_entry}
use croupier.Store.Books.{stored}
use croupier.Prelude.Int.{◌+ℤ◌}
use croupier.Prelude.Int64.{add64, wrap64}
use croupier.Http.Server.Entitled.{IsEntitled, IsRefused, serve-IsEntitled}
use croupier.Http.Server.Isolation.{IsIsolated, serve-IsIsolated}
use croupier.Http.Server.Safety.{serve-Reads}
use croupier.System.{
  Parts, Reach, start, next, served, Reach-Reconciled, Reach-Consistent, FoundConsistent,
}
use croupier.Tests.Data.{env, reais, opened_db, played_db, resolver, at}

abbrev pub envelope : Envelope
envelope = record {
  message_id = "m1";
  type_name = "WagerTransactionRequested";
  occurred_at = 40;
  message = record {
    provider_id = "acme";
    external_transaction_id = "bet-1";
    idempotency_key = "acme:bet-1";
    player_id = 3;
    wallet_id = 7;
    round_id = "r1";
    game_id = "g1";
    kind = bet;
    money = reais 30;
    reference_external_transaction_id = none;
  };
}

abbrev pub consumer : Settings
consumer = record {
  consumer_name = "c";
  codec = record { decode_envelope = λ b. ok envelope; body_hash = λ b. 5 };
}

abbrev pub delivery : Delivery
delivery = record { receipt_handle = "h1"; body = "{}" }

abbrev seen : Inbox
seen = record {
  consumer_name = "c";
  message_id = "m1";
  payload_hash = 6;
  completed_at = some 3;
  created_at = 2;
}

abbrev seen_db : Db
seen_db = record played_db { inbox = seen ∷ [] }

abbrev pub claims : Claims
claims = record { provider_id = "acme"; roles = "internal-service" ∷ [] }

abbrev pub web : Web
web = record {
  tokens = record { verify_token = λ t. ok t; decode_claims = λ t. ok claims };
  decode_create =
      λ b. ok (record { player_id = if str_eq b "" then 3 else 4; initial_balance = reais 100 });
  decode_submit = λ b. err (Error.backend 1);
  parse_uuid = λ s. ok 7;
  atoi = λ s. ok (pos 10);
  format_time = λ t. "now";
  ready = none;
}

abbrev pub request : Request
request = record {
  route = get_wager_transaction_by_provider "acme" "bet-1";
  authorization = "Bearer token";
  idempotency_key = "";
  correlation_id = "";
  content = "";
}

abbrev parts : Parts
parts = record {
  env = env;
  web = web;
  consumer = consumer;
  resolver = resolver;
  publish = λ e. none;
  outbox_backoff = pos 10;
}

process_message-Settles_example :
    Settled env consumer delivery opened_db (process_message env consumer delivery (at opened_db))
process_message-Settles_example = process_message-Settles env consumer delivery (at opened_db) refl

process_message-Deduplicates_example :
    Deduplicated seen seen_db 5 (process_message env consumer delivery (at seen_db))
process_message-Deduplicates_example =
    process_message-Deduplicates env consumer delivery envelope seen (at seen_db) refl refl refl
      (inl refl)

serve-IsEntitled_example :
    IsEntitled web create_wallet (record request { route = create_wallet })
    ⊎ IsRefused opened_db (serve env web (record request { route = create_wallet }) (at opened_db))
serve-IsEntitled_example =
    serve-IsEntitled env web (record request { route = create_wallet }) (at opened_db)

serve-IsIsolated_example :
    IsIsolated env web request "acme" "bet-1" (serve env web request (at played_db)).0
serve-IsIsolated_example = serve-IsIsolated env web request "acme" "bet-1" (at played_db) refl refl

serve-Reads_example :
    ((serve env web request (at played_db)).1.db ≡ played_db)
    × ((serve env web request (at played_db)).1.session ≡ idle)
serve-Reads_example = serve-Reads env web request (at played_db) refl refl

write_error-IsErrorAnswer_example :
    IsErrorAnswer
      (Error.app unavailable)
      (at played_db)
      (write_error (Error.app unavailable) (at played_db))
write_error-IsErrorAnswer_example = write_error-IsErrorAnswer (Error.app unavailable) (at played_db)

none_to_come : (n : ℕ) → wallet_with_id (env.new_uuid n) opened_db.wallets ≡ none
none_to_come n = ground arith

abbrev new_wallet : CreateWalletInput
new_wallet = record { player_id = 4; initial_balance = reais 50; correlation_id = "c9" }

abbrev opening : Request
opening = record request { route = create_wallet }

abbrev created : World
created = (serve env web opening (at empty)).1

reached : Reach parts created
reached = next (start (at empty) refl refl) (served opening (at empty) (λ _ n _. refl))

abbrev another_opening : Request
another_opening = record opening { content = "another player" }

abbrev created_twice : World
created_twice = (serve env web another_opening created).1

abbrev first_row : WalletRow
first_row = record {
  id = 101;
  player_id = 3;
  currency = "BRL";
  balance = pos 100;
  version = pos 1;
  created_at = 0;
  updated_at = 0;
}

other_id : (n : ℕ) → 6 ≤ n → wallet_with_id (100 + n) (first_row ∷ []) ≡ none
other_id n h = ground arith

none_left : Free env web created
unfolding serve route_handler require_internal_role require_auth verify any_role handle_create
    create_decoded handling create find_wallet_of new ◌>>=◌ attempt query exec read_clock draw_uuid
    within_tx new_opening_transaction new_ledger_entry expected_after equal new_processed_event
    new_balance_changed_event new_event new_entry save_wager wager_row upsert_wager save_wallet
    upsert_wallet save_ledger_entry store_ledger_entry save_all upsert_entry from_minor_units add
    add64 wrap64 ◌+ℤ◌ micros
none_left n h = other_id n h

two_wallets : length created_twice.db.wallets ≡ 2
unfolding serve route_handler require_internal_role require_auth verify any_role handle_create
    create_decoded handling create find_wallet_of new ◌>>=◌ attempt query exec read_clock draw_uuid
    within_tx new_opening_transaction new_ledger_entry expected_after equal new_processed_event
    new_balance_changed_event new_event new_entry save_wager wager_row upsert_wager save_wallet
    upsert_wallet save_ledger_entry store_ledger_entry save_all upsert_entry from_minor_units add
    add64 wrap64 ◌+ℤ◌
two_wallets = refl

reached_twice : Reach parts created_twice
reached_twice = next reached (served another_opening created (λ _. none_left))

-- Two wallets have been created, one after the other.
Reach-Reconciled_example :
    Reconciled created_twice.db.wallets created_twice.db.ledger × (created_twice.session ≡ idle)
Reach-Reconciled_example = Reach-Reconciled parts reached_twice

columns : FitsColumns 101 created.db
unfolding stored serve route_handler require_internal_role require_auth verify any_role
    handle_create create_decoded handling create find_wallet_of new ◌>>=◌ attempt query exec
    read_clock draw_uuid within_tx new_opening_transaction new_ledger_entry expected_after equal
    new_processed_event new_balance_changed_event new_event new_entry save_wager wager_row
    upsert_wager save_wallet upsert_wallet save_ledger_entry store_ledger_entry save_all
    upsert_entry from_minor_units add add64 wrap64 ◌+ℤ◌
columns = record {
  balance_fits = (omega arith, omega arith);
  amounts_fit = ((omega arith, omega arith), tt);
}

Reach-Consistent_example : After FoundConsistent (reconcile env 101 created)
Reach-Consistent_example = Reach-Consistent parts 101 reached columns

-- ===== src/App/Events/Frame.antt =====
-- The constructors of the events touch no table.
use croupier.Prelude.{String, Option}
use croupier.Values.{Uuid}
use croupier.Wallet.{Wallet}
use croupier.Wallet.Ledger.{LedgerEntry}
use croupier.Wager.{Transaction}
use croupier.Store.Tables.{Db}
use croupier.Store.Rules.{
  Ensures, Ensures-bind, Ensures-bind-lift, Ensures-lift, Ensures-read_clock, Ensures-draw_uuid,
}
use croupier.Store.Keeps.{Keeps, Keeps-bind, Keeps-lift, Keeps-read_clock, Keeps-draw_uuid}
use croupier.App.Env.{Env, EventData}
use croupier.App.Events.{
  new_event, new_processed_event, new_rejected_event, new_pending_reference_event,
  new_balance_changed_event,
}

module _ {P : Db → Type 0} (env : Env) where
  event-Ensures :
      (aggregate_type : String) (aggregate_id : Uuid) (event_type : String) (event_data : EventData)
      (correlation_id : String) (causation_id : Option String)
      → Ensures P
          (new_event env aggregate_type aggregate_id event_type event_data correlation_id
            causation_id)
          (λ _. P)
  unfolding new_event
  event-Ensures _ _ _ _ _ _ = Ensures-bind-lift _ λ payload _.
      Ensures-bind (Ensures-read_clock env.clock) λ occurred_at.
        Ensures-bind (Ensures-read_clock env.clock)
          λ now. Ensures-bind (Ensures-draw_uuid env.new_uuid) λ id. Ensures-lift _ (λ e db _ p. p)

  event-Keeps :
      (aggregate_type : String) (aggregate_id : Uuid) (event_type : String) (event_data : EventData)
      (correlation_id : String) (causation_id : Option String)
      → Keeps P (
          new_event env aggregate_type aggregate_id event_type event_data correlation_id
            causation_id)
  unfolding new_event
  event-Keeps _ _ _ _ _ _ = Keeps-bind (Keeps-lift _) λ payload.
      Keeps-bind (Keeps-read_clock env.clock) λ occurred_at.
        Keeps-bind (Keeps-read_clock env.clock)
          λ now. Keeps-bind (Keeps-draw_uuid env.new_uuid) λ id. Keeps-lift _

  pub processed_event-Ensures :
      (tx : Transaction) (c : String) → Ensures P (new_processed_event env tx c) (λ _. P)
  unfolding new_processed_event
  processed_event-Ensures tx c = event-Ensures _ _ _ _ c _

  pub rejected_event-Ensures :
      (tx : Transaction) (c : String) → Ensures P (new_rejected_event env tx c) (λ _. P)
  unfolding new_rejected_event
  rejected_event-Ensures tx c = event-Ensures _ _ _ _ c _

  pub balance_changed_event-Ensures :
      (w : Wallet) (e : LedgerEntry) (c : String) (causation_id : Option String)
      → Ensures P (new_balance_changed_event env w e c causation_id) (λ _. P)
  unfolding new_balance_changed_event
  balance_changed_event-Ensures w e c causation_id = event-Ensures _ _ _ _ c causation_id

  pub processed_event-Keeps :
      (tx : Transaction) (c : String) → Keeps P (new_processed_event env tx c)
  unfolding new_processed_event
  processed_event-Keeps tx c = event-Keeps _ _ _ _ c _

  pub rejected_event-Keeps : (tx : Transaction) (c : String) → Keeps P (new_rejected_event env tx c)
  unfolding new_rejected_event
  rejected_event-Keeps tx c = event-Keeps _ _ _ _ c _

  pub pending_reference_event-Keeps :
      (tx : Transaction) (c : String) → Keeps P (new_pending_reference_event env tx c)
  unfolding new_pending_reference_event
  pending_reference_event-Keeps tx c = event-Keeps _ _ _ _ c _

  pub balance_changed_event-Keeps :
      (w : Wallet) (e : LedgerEntry) (c : String) (causation_id : Option String)
      → Keeps P (new_balance_changed_event env w e c causation_id)
  unfolding new_balance_changed_event
  balance_changed_event-Keeps w e c causation_id = event-Keeps _ _ _ _ c causation_id

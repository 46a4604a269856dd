-- ===== src/App/Env.antt =====
-- What the use cases take from outside the repository: the ISO 4217 table of golang.org/x/text,
-- SHA-256 over JSON, JSON, the text that a JSONB column gives back for the text written into it, the
-- text of a UUID, and the UUIDs and the clock readings to come.
use croupier.Prelude.{ℕ, String, Bool, List}
use croupier.Prelude.Int.{ℤ}
use croupier.Errors.{Result}
use croupier.Values.{Uuid, Time, Digest}
use croupier.Money.{Money}
use croupier.Wallet.Ledger.{Direction}
use croupier.Wager.{Kind, HashInput}

-- the payload structs of internal/app/events.go
pub data EventData : Type 0 where
  processed_data : Uuid → Kind → Money → EventData
  rejected_data : Uuid → Kind → String → EventData
  pending_reference_data : Uuid → String → EventData
  balance_changed_data : Uuid → Uuid → Direction → Money → Money → Money → ℤ → EventData

pub record Env : Type 0 where
  pub parse_iso : String → Bool
  pub digest : HashInput → Digest
  pub marshal : EventData → Result (List ℕ)
  pub jsonb_text : List ℕ → List ℕ
  pub uuid_text : Uuid → String
  pub new_uuid : ℕ → Uuid
  pub clock : ℕ → Time

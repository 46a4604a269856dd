-- ===== src/Wager/Kinds.antt =====
-- The kinds and the states of internal/wager/transaction.go. `Kind` is a string type: `other` is any
-- text that is none of its constants. The schema admits the five constants of `TxStatus` alone.
use croupier.Prelude.{String, Bool, true, false, str_eq, if◌then◌else◌}
use croupier.Errors.{Error, Result, ok, err, invalid_kind}

pub data Kind : Type 0 where
  opening bet win loss refund rollback : Kind
  other : String → Kind

pub data TxStatus : Type 0 where
  pending pending_reference processed rejected failed : TxStatus

-- `ParseKind`
unfoldable pub parse_kind : String → Result Kind
parse_kind s =
    if str_eq s "OPENING"
    then ok opening
    else if str_eq s "BET"
    then ok bet
    else if str_eq s "WIN"
    then ok win
    else if str_eq s "LOSS"
    then ok loss
    else if str_eq s "REFUND"
    then ok refund
    else if str_eq s "ROLLBACK"
    then ok rollback
    else err (Error.wager invalid_kind)

-- `string(kind)`
abbrev pub kind_text : Kind → String
kind_text opening = "OPENING"
kind_text bet = "BET"
kind_text win = "WIN"
kind_text loss = "LOSS"
kind_text refund = "REFUND"
kind_text rollback = "ROLLBACK"
kind_text (other s) = s

abbrev pub is_pending : TxStatus → Bool
is_pending pending = true
is_pending _ = false

abbrev pub is_pending_reference : TxStatus → Bool
is_pending_reference pending_reference = true
is_pending_reference _ = false

abbrev pub is_processed : TxStatus → Bool
is_processed processed = true
is_processed _ = false

-- `IsTerminal`
abbrev pub is_terminal : TxStatus → Bool
is_terminal processed = true
is_terminal rejected = true
is_terminal failed = true
is_terminal _ = false

abbrev pub is_loss : Kind → Bool
is_loss loss = true
is_loss _ = false

abbrev pub is_bet : Kind → Bool
is_bet bet = true
is_bet _ = false

-- `kind == KindRefund || kind == KindRollback`
abbrev pub is_reversal : Kind → Bool
is_reversal refund = true
is_reversal rollback = true
is_reversal _ = false

-- `referenceableKind`
unfoldable pub referenceable_kind : Kind → Kind → Bool
referenceable_kind refund bet = true
referenceable_kind rollback bet = true
referenceable_kind rollback win = true
referenceable_kind rollback refund = true
referenceable_kind _ _ = false

-- ===== src/Wager/Reference.antt =====
-- What a new transaction and a reversal's reference satisfy (internal/wager/transaction.go).
use croupier.Prelude.{
  ◌⊎◌, refl, inl, inr, Option-cases, String, ◌≡◌, ◌≢◌, ◌↔◌, true, arith, Option, none, some, eq_iff,
}
use croupier.Prelude.Int.{ℤ, pos, ◌<ℤ◌, eq_of_parts}
use croupier.Errors.{ok}
use croupier.Values.{Uuid, nil_uuid, Time}
use croupier.Wager.Kinds.{referenceable_kind}
use croupier.Money.{equal}
use croupier.Wager.{
  Kind, opening, bet, win, loss, refund, rollback, other, Transaction, pending, processed,
  NewTransactionInput, check_kind, new_transaction, validate_reference,
}

-- The rules of a kind for the amount and the reference.
abbrev pub KindRules : Kind → ℤ → Option String → Type 0
KindRules bet amount reference = (pos 0 <ℤ amount) × (reference ≡ none)
KindRules win amount reference = pos 0 <ℤ amount
KindRules loss amount reference = amount ≡ pos 0
KindRules refund amount reference = (pos 0 <ℤ amount) × (reference ≢ none)
KindRules rollback amount reference = (pos 0 <ℤ amount) × (reference ≢ none)
KindRules opening amount reference = ⊥
KindRules (other s) amount reference = ⊥

-- What an accepted submission looks like.
pub record IsSubmission (tx : Transaction) : Type 0 where
  pub provider_id : tx.provider_id ≢ ""
  pub external_transaction_id : tx.external_transaction_id ≢ ""
  pub player_id : tx.player_id ≢ nil_uuid
  pub wallet_id : tx.wallet_id ≢ nil_uuid
  pub round_id : tx.round_id ≢ ""
  pub game_id : tx.game_id ≢ ""
  pub rules : KindRules tx.kind tx.amount.amount tx.reference_external_transaction_id

check_kind-rules :
    (k : Kind) (input : NewTransactionInput)
    → check_kind k input.amount input.reference_external_transaction_id ≡ ok tt
    → KindRules k input.amount.amount input.reference_external_transaction_id
unfolding check_kind
check_kind-rules bet input h = ground arith
check_kind-rules win input h = ground arith
check_kind-rules loss input h = ground arith
check_kind-rules refund input h = ground arith
check_kind-rules rollback input h = ground arith
check_kind-rules opening input h = cc
check_kind-rules (other s) input h = cc

-- the transaction that an accepted input gives
abbrev pub submitted : Uuid → Time → NewTransactionInput → Transaction
submitted fresh now input = record {
  id = fresh;
  status = pending;
  external_transaction_id = input.external_transaction_id;
  provider_id = input.provider_id;
  player_id = input.player_id;
  wallet_id = input.wallet_id;
  round_id = input.round_id;
  game_id = input.game_id;
  kind = input.kind;
  amount = input.amount;
  reference_external_transaction_id = input.reference_external_transaction_id;
  reference_transaction_id = none;
  failure_code = "";
  created_at = now;
  updated_at = now;
}

module _ (fresh : Uuid) (now : Time) (input : NewTransactionInput) {tx : Transaction}
    (accepted : new_transaction fresh now input ≡ ok tx) where
  checked : check_kind input.kind input.amount input.reference_external_transaction_id ≡ ok tt
  unfolding new_transaction
  checked = ground arith

  pub new_transaction_lem : tx ≡ submitted fresh now input
  unfolding new_transaction
  new_transaction_lem = ground arith

  submitted_fields :
      (input.provider_id ≢ "")
      × (input.external_transaction_id ≢ "")
      × (input.player_id ≢ nil_uuid)
      × (input.wallet_id ≢ nil_uuid)
      × (input.round_id ≢ "")
      × (input.game_id ≢ "")
  unfolding new_transaction
  submitted_fields = ground (
    arith,
    eq_iff input.provider_id "",
    eq_iff input.external_transaction_id "",
    eq_iff input.round_id "",
    eq_iff input.game_id "",
  )

  kind-ne-opening :
      (k : Kind)
      → check_kind k input.amount input.reference_external_transaction_id ≡ ok tt
      → k ≢ opening
  unfolding check_kind
  kind-ne-opening opening h e = cc
  kind-ne-opening _ h e = cc

  -- Whatever `NewTransaction` accepts is a pending submission that has its identifiers and meets
  -- the rules of its kind; OPENING is never accepted.
  pub new_transaction-IsSubmission : IsSubmission tx × (tx.status ≡ pending) × (tx.kind ≢ opening)
  new_transaction-IsSubmission =
      let (provider, external, player, wallet, round, game) = submitted_fields in
      rw new_transaction_lem (
        record {
          provider_id = provider;
          external_transaction_id = external;
          player_id = player;
          wallet_id = wallet;
          round_id = round;
          game_id = game;
          rules = check_kind-rules input.kind input checked;
        },
        refl,
        kind-ne-opening input.kind checked,
      )

-- A refund reverses a bet, and a rollback a bet, a win or a refund; nothing else reverses anything.
abbrev pub MayReverse : Kind → Kind → Type 0
MayReverse reversal kind =
    ((reversal ≡ refund) × (kind ≡ bet))
    ⊎ ((reversal ≡ rollback) × ((kind ≡ bet) ⊎ (kind ≡ win) ⊎ (kind ≡ refund)))

pair_sound : (k k' : Kind) → referenceable_kind k k' ≡ true → MayReverse k k'
unfolding referenceable_kind
pair_sound refund bet h = inl (refl, refl)
pair_sound rollback bet h = inr (refl, inl refl)
pair_sound rollback win h = inr (refl, inr (inl refl))
pair_sound rollback refund h = inr (refl, inr (inr refl))
pair_sound _ _ h = absurd (cc)

pair_complete : (k k' : Kind) → MayReverse k k' → referenceable_kind k k' ≡ true
unfolding referenceable_kind
pair_complete k k' (inl (e, f)) = rw (e, f) refl
pair_complete k k' (inr (e, inl f)) = rw (e, f) refl
pair_complete k k' (inr (e, inr (inl f))) = rw (e, f) refl
pair_complete k k' (inr (e, inr (inr f))) = rw (e, f) refl

-- What makes a transaction a valid reference of a reversal.
pub record IsReferenceOf (ref tx : Transaction) : Type 0 where
  pub kinds : MayReverse tx.kind ref.kind
  pub settled : ref.status ≡ processed
  pub provider_id : ref.provider_id ≡ tx.provider_id
  pub external : tx.reference_external_transaction_id ≡ some ref.external_transaction_id
  pub player_id : ref.player_id ≡ tx.player_id
  pub wallet_id : ref.wallet_id ≡ tx.wallet_id
  pub round_id : ref.round_id ≡ tx.round_id
  pub amount : ref.amount ≡ tx.amount

module _ (tx ref : Transaction) where
  validate_kinds :
      (r : String)
      → tx.reference_external_transaction_id ≡ some r
      → validate_reference tx ref ≡ ok tt
      → referenceable_kind tx.kind ref.kind ≡ true
  unfolding validate_reference
  validate_kinds r e h = ground arith

  validate_known :
      (r : String)
      → tx.reference_external_transaction_id ≡ some r
      → validate_reference tx ref ≡ ok tt
      → IsReferenceOf ref tx
  unfolding validate_reference equal
  validate_known r e h = ground (
    arith,
    pair_sound tx.kind ref.kind (validate_kinds r e h),
    eq_of_parts ref.amount.amount tx.amount.amount,
    eq_iff ref.provider_id tx.provider_id,
    eq_iff ref.round_id tx.round_id,
    eq_iff ref.amount.currency tx.amount.currency,
    eq_iff ref.external_transaction_id r,
  )

  validate_sound : validate_reference tx ref ≡ ok tt → IsReferenceOf ref tx
  unfolding validate_reference
  validate_sound h = elim (Option-cases tx.reference_external_transaction_id) [
    | inl e ↦ absurd (ground arith)
    | inr (r, e) ↦ validate_known r e h
  ]

  validate_complete : IsReferenceOf ref tx → validate_reference tx ref ≡ ok tt
  unfolding validate_reference equal
  validate_complete h = ground (
    arith,
    pair_complete tx.kind ref.kind h.kinds,
    eq_iff ref.provider_id tx.provider_id,
    eq_iff ref.round_id tx.round_id,
    eq_iff ref.amount.currency tx.amount.currency,
    eq_iff ref.external_transaction_id ref.external_transaction_id,
  )

-- `ValidateReference` accepts a reference exactly when it is a processed transaction of a kind that
-- may be reversed so, by the same provider, for the same player, wallet, round and money, and the
-- one that the reversal names.
pub validate_reference_iff :
    (tx ref : Transaction) → (validate_reference tx ref ≡ ok tt) ↔ IsReferenceOf ref tx
validate_reference_iff tx ref = (validate_sound tx ref, validate_complete tx ref)

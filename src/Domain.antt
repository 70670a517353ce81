-- ===== src/Domain.antt =====
-- src/domain/schemas.ts: the data that the services exchange. Optional fields are `Option`; a number
-- field that the schema holds to a non-negative integer is a natural number. A reason, which the
-- services search, is a list of code units.
use Prim.Native.Nat.{ℕ}
use Prim.Native.String.{String}
use mathlib.Core.Bool.{Bool}
use mathlib.Core.List.{List}
use mathlib.Core.Option.{Option}

pub data PaymentErrorCode : Type 0 where
  payment_unfunded : PaymentErrorCode
  payment_replay : PaymentErrorCode
  payment_invalid : PaymentErrorCode
  payment_expired : PaymentErrorCode
  payment_blockhash_stale : PaymentErrorCode

-- `MvxTransactionPayloadSchema`
pub record TxPayload : Type 0 where
  pub nonce : ℕ
  pub value : String
  pub receiver : String
  pub sender : String
  pub gas_price : ℕ
  pub gas_limit : ℕ
  pub payload_data : Option String
  pub chain_id : String
  pub version : ℕ
  pub options : ℕ
  pub signature : String
  pub relayer : Option String
  pub relayer_signature : Option String
  pub guardian : Option String
  pub guardian_signature : Option String
  pub valid_after : Option ℕ
  pub valid_before : Option ℕ

-- `PaymentRequirementsSchema`, less the `extra` that no service reads.
pub record Requirements : Type 0 where
  pub scheme : String
  pub network : String
  pub asset : String
  pub amount : String
  pub pay_to : String
  pub max_timeout_seconds : ℕ

-- `X402PayloadContainerSchema`: the transaction inside a container, or on its own.
pub data PayloadContainer : Type 0 where
  container : Option String → TxPayload → PayloadContainer
  direct : TxPayload → PayloadContainer

-- `VerifyRequestSchema` and `SettleRequestSchema`, which are alike.
pub record Request : Type 0 where
  pub payload : PayloadContainer
  pub accepted : Requirements
  pub requirements : Requirements

-- `"transaction" in rawPayload ? rawPayload.transaction : rawPayload`
abbrev pub transaction_of : PayloadContainer → TxPayload
transaction_of (container signature tx) = tx
transaction_of (direct tx) = tx

pub record VerifyResponse : Type 0 where
  pub is_valid : Bool
  pub invalid_reason : Option (List ℕ)
  pub error_code : Option PaymentErrorCode
  pub payer : Option String

pub record SettleResponse : Type 0 where
  pub success : Bool
  pub error_reason : Option (List ℕ)
  pub error_code : Option PaymentErrorCode
  pub payer : Option String
  pub transaction : Option String
  pub network : Option String

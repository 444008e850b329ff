-- ===== src/Domain/Operation.antt =====
-- internal/domain/operation.go: requests, results and steps of an operation.
use Prim.Native.Nat.{ℕ}
use Prim.Native.String.{String}
use mathlib.Core.Option.{Option}
use mathlib.Core.List.{List}
use compose_cockpit.Domain.Errors.{Code, Message}

-- A Go string type: `other` is any text that is none of the constants.
pub data OperationType : Type 0 where
  op_up op_down op_start op_stop op_restart op_pull : OperationType
  other : String → OperationType

pub data OpStatus : Type 0 where
  pending running succeeded failed cancelled rolled_back : OpStatus

pub record OperationScope : Type 0 where
  pub project_id : String
  pub services : List String

pub record OperationRequest : Type 0 where
  pub id : String
  pub type : OperationType
  pub scope : OperationScope
  pub user_id : String
  pub priority : ℕ
  pub timeout : ℕ
  pub created_at : ℕ

pub record OpError : Type 0 where
  pub code : Code
  pub message : Message

pub record OpStep : Type 0 where
  pub service : String
  pub action : String
  pub status : OpStatus
  pub error : Option Message

pub record OperationResult : Type 0 where
  pub request_id : String
  pub status : OpStatus
  pub error : Option OpError
  pub steps : List OpStep

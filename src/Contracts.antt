-- ===== src/Contracts.antt =====
-- src/asterun/contracts.py: the statuses of runs and of operations here, the other enumerations in
-- Contracts/Enums, and a module for each record with its documents.
pub mod Enums
pub mod Tasks
pub mod Runs
pub mod Sessions
pub mod Approvals
pub mod Operations
pub mod Events
pub mod Examples
use asterun.Prelude.{Bool, true, false, ◌≡◌, refl, sym, String, Option, none, some}
use asterun.Json.{Json, string, text_only}

pub data RunStatus : Type 0 where
  queued dispatching running succeeded failed cancelled waiting_input waiting_auth : RunStatus
  pending_reconcile paused : RunStatus

-- `status in TERMINAL_RUN_STATUSES`
abbrev pub is_terminal : RunStatus → Bool
is_terminal succeeded = true
is_terminal failed = true
is_terminal cancelled = true
is_terminal _ = false

pub data OperationStatus : Type 0 where
  intended dispatched completed failed unknown : OperationStatus

abbrev pub is_failed : RunStatus → Bool
is_failed failed = true
is_failed _ = false

-- the reason of a plugin is written for a failed run only
abbrev pub failed_reason : RunStatus → Option String → Option Json
failed_reason failed (some reason) = some (string reason)
failed_reason _ _ = none

pub text_only-failed_reason :
    (status : RunStatus) (reason : Option String)
    → (is_failed status ≡ false → reason ≡ none)
    → text_only (failed_reason status reason) ≡ reason
text_only-failed_reason failed none h = refl
text_only-failed_reason failed (some reason) h = refl
text_only-failed_reason queued reason h = sym (h refl)
text_only-failed_reason dispatching reason h = sym (h refl)
text_only-failed_reason running reason h = sym (h refl)
text_only-failed_reason succeeded reason h = sym (h refl)
text_only-failed_reason cancelled reason h = sym (h refl)
text_only-failed_reason waiting_input reason h = sym (h refl)
text_only-failed_reason waiting_auth reason h = sym (h refl)
text_only-failed_reason pending_reconcile reason h = sym (h refl)
text_only-failed_reason paused reason h = sym (h refl)

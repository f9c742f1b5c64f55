-- ===== src/Contracts/Enums.antt =====
-- The enumerations of src/asterun/contracts.py, each with the text of its members (`str(value)`) and
-- the reading of a text (`Status(value)`, a ValueError for another value).
use asterun.Prelude.{String, ◌≡◌, refl, Option, none, some, ◌==◌, string_eq, if◌then◌else◌}
use asterun.Errors.{Result, ok, err, value_error, key_error}
use asterun.Json.{Json, string}
use asterun.Contracts.{RunStatus, OperationStatus}

pub data AcceptanceStatus : Type 0 where
  pending passed failed not_configured : AcceptanceStatus

pub data DeliveryStatus : Type 0 where
  not_configured pending delivered : DeliveryStatus

pub data EventType : Type 0 where
  task_created run_queued run_dispatching run_started : EventType
  message waiting_input approval_requested approval_responded : EventType
  approval_assessed approval_forwarding cancel_requested run_terminated : EventType
  run_succeeded run_failed capability_rejected reconciled : EventType
  handoff_paused handoff_resumed evidence_invalidated acceptance_evaluated : EventType
  review_unavailable repair_limit queue_accepted : EventType

pub data ApprovalState : Type 0 where
  pending forwarding invalidated approved : ApprovalState
  denied : ApprovalState

abbrev pub run_status_text : RunStatus → String
run_status_text RunStatus.queued = "queued"
run_status_text RunStatus.dispatching = "dispatching"
run_status_text RunStatus.running = "running"
run_status_text RunStatus.succeeded = "succeeded"
run_status_text RunStatus.failed = "failed"
run_status_text RunStatus.cancelled = "cancelled"
run_status_text RunStatus.waiting_input = "waiting_input"
run_status_text RunStatus.waiting_auth = "waiting_auth"
run_status_text RunStatus.pending_reconcile = "pending_reconcile"
run_status_text RunStatus.paused = "paused"

abbrev pub run_status_named : String → Result RunStatus
run_status_named s =
    if s == "queued"
    then ok RunStatus.queued
    else if s == "dispatching"
    then ok RunStatus.dispatching
    else if s == "running"
    then ok RunStatus.running
    else if s == "succeeded"
    then ok RunStatus.succeeded
    else if s == "failed"
    then ok RunStatus.failed
    else if s == "cancelled"
    then ok RunStatus.cancelled
    else if s == "waiting_input"
    then ok RunStatus.waiting_input
    else if s == "waiting_auth"
    then ok RunStatus.waiting_auth
    else if s == "pending_reconcile"
    then ok RunStatus.pending_reconcile
    else if s == "paused"
    then ok RunStatus.paused
    else err value_error

abbrev pub run_status_from : Option Json → Result RunStatus
run_status_from none = err key_error
run_status_from (some (string s)) = run_status_named s
run_status_from (some v) = err value_error

pub run_status_from-text :
    (x : RunStatus) → run_status_from (some (string (run_status_text x))) ≡ ok x
run_status_from-text RunStatus.queued = refl
run_status_from-text RunStatus.dispatching = refl
run_status_from-text RunStatus.running = refl
run_status_from-text RunStatus.succeeded = refl
run_status_from-text RunStatus.failed = refl
run_status_from-text RunStatus.cancelled = refl
run_status_from-text RunStatus.waiting_input = refl
run_status_from-text RunStatus.waiting_auth = refl
run_status_from-text RunStatus.pending_reconcile = refl
run_status_from-text RunStatus.paused = refl

abbrev pub operation_status_text : OperationStatus → String
operation_status_text OperationStatus.intended = "intended"
operation_status_text OperationStatus.dispatched = "dispatched"
operation_status_text OperationStatus.completed = "completed"
operation_status_text OperationStatus.failed = "failed"
operation_status_text OperationStatus.unknown = "unknown"

abbrev pub operation_status_named : String → Result OperationStatus
operation_status_named s =
    if s == "intended"
    then ok OperationStatus.intended
    else if s == "dispatched"
    then ok OperationStatus.dispatched
    else if s == "completed"
    then ok OperationStatus.completed
    else if s == "failed"
    then ok OperationStatus.failed
    else if s == "unknown"
    then ok OperationStatus.unknown
    else err value_error

abbrev pub operation_status_from : Option Json → Result OperationStatus
operation_status_from none = err key_error
operation_status_from (some (string s)) = operation_status_named s
operation_status_from (some v) = err value_error

pub operation_status_from-text :
    (x : OperationStatus) → operation_status_from (some (string (operation_status_text x))) ≡ ok x
operation_status_from-text OperationStatus.intended = refl
operation_status_from-text OperationStatus.dispatched = refl
operation_status_from-text OperationStatus.completed = refl
operation_status_from-text OperationStatus.failed = refl
operation_status_from-text OperationStatus.unknown = refl

abbrev pub acceptance_status_text : AcceptanceStatus → String
acceptance_status_text AcceptanceStatus.pending = "pending"
acceptance_status_text AcceptanceStatus.passed = "passed"
acceptance_status_text AcceptanceStatus.failed = "failed"
acceptance_status_text AcceptanceStatus.not_configured = "not_configured"

abbrev pub acceptance_status_named : String → Result AcceptanceStatus
acceptance_status_named s =
    if s == "pending"
    then ok AcceptanceStatus.pending
    else if s == "passed"
    then ok AcceptanceStatus.passed
    else if s == "failed"
    then ok AcceptanceStatus.failed
    else if s == "not_configured"
    then ok AcceptanceStatus.not_configured
    else err value_error

abbrev pub acceptance_status_from : Option Json → Result AcceptanceStatus
acceptance_status_from none = err key_error
acceptance_status_from (some (string s)) = acceptance_status_named s
acceptance_status_from (some v) = err value_error

pub acceptance_status_from-text :
    (x : AcceptanceStatus)
    → acceptance_status_from (some (string (acceptance_status_text x))) ≡ ok x
acceptance_status_from-text AcceptanceStatus.pending = refl
acceptance_status_from-text AcceptanceStatus.passed = refl
acceptance_status_from-text AcceptanceStatus.failed = refl
acceptance_status_from-text AcceptanceStatus.not_configured = refl

abbrev pub delivery_status_text : DeliveryStatus → String
delivery_status_text DeliveryStatus.not_configured = "not_configured"
delivery_status_text DeliveryStatus.pending = "pending"
delivery_status_text DeliveryStatus.delivered = "delivered"

abbrev pub delivery_status_named : String → Result DeliveryStatus
delivery_status_named s =
    if s == "not_configured"
    then ok DeliveryStatus.not_configured
    else if s == "pending"
    then ok DeliveryStatus.pending
    else if s == "delivered"
    then ok DeliveryStatus.delivered
    else err value_error

abbrev pub delivery_status_from : Option Json → Result DeliveryStatus
delivery_status_from none = err key_error
delivery_status_from (some (string s)) = delivery_status_named s
delivery_status_from (some v) = err value_error

pub delivery_status_from-text :
    (x : DeliveryStatus) → delivery_status_from (some (string (delivery_status_text x))) ≡ ok x
delivery_status_from-text DeliveryStatus.not_configured = refl
delivery_status_from-text DeliveryStatus.pending = refl
delivery_status_from-text DeliveryStatus.delivered = refl

abbrev pub event_type_text : EventType → String
event_type_text EventType.task_created = "task_created"
event_type_text EventType.run_queued = "run_queued"
event_type_text EventType.run_dispatching = "run_dispatching"
event_type_text EventType.run_started = "run_started"
event_type_text EventType.message = "message"
event_type_text EventType.waiting_input = "waiting_input"
event_type_text EventType.approval_requested = "approval_requested"
event_type_text EventType.approval_responded = "approval_responded"
event_type_text EventType.approval_assessed = "approval_assessed"
event_type_text EventType.approval_forwarding = "approval_forwarding"
event_type_text EventType.cancel_requested = "cancel_requested"
event_type_text EventType.run_terminated = "run_terminated"
event_type_text EventType.run_succeeded = "run_succeeded"
event_type_text EventType.run_failed = "run_failed"
event_type_text EventType.capability_rejected = "capability_rejected"
event_type_text EventType.reconciled = "reconciled"
event_type_text EventType.handoff_paused = "handoff_paused"
event_type_text EventType.handoff_resumed = "handoff_resumed"
event_type_text EventType.evidence_invalidated = "evidence_invalidated"
event_type_text EventType.acceptance_evaluated = "acceptance_evaluated"
event_type_text EventType.review_unavailable = "review_unavailable"
event_type_text EventType.repair_limit = "repair_limit"
event_type_text EventType.queue_accepted = "queue_accepted"

abbrev pub event_type_named : String → Result EventType
event_type_named s =
    if s == "task_created"
    then ok EventType.task_created
    else if s == "run_queued"
    then ok EventType.run_queued
    else if s == "run_dispatching"
    then ok EventType.run_dispatching
    else if s == "run_started"
    then ok EventType.run_started
    else if s == "message"
    then ok EventType.message
    else if s == "waiting_input"
    then ok EventType.waiting_input
    else if s == "approval_requested"
    then ok EventType.approval_requested
    else if s == "approval_responded"
    then ok EventType.approval_responded
    else if s == "approval_assessed"
    then ok EventType.approval_assessed
    else if s == "approval_forwarding"
    then ok EventType.approval_forwarding
    else if s == "cancel_requested"
    then ok EventType.cancel_requested
    else if s == "run_terminated"
    then ok EventType.run_terminated
    else if s == "run_succeeded"
    then ok EventType.run_succeeded
    else if s == "run_failed"
    then ok EventType.run_failed
    else if s == "capability_rejected"
    then ok EventType.capability_rejected
    else if s == "reconciled"
    then ok EventType.reconciled
    else if s == "handoff_paused"
    then ok EventType.handoff_paused
    else if s == "handoff_resumed"
    then ok EventType.handoff_resumed
    else if s == "evidence_invalidated"
    then ok EventType.evidence_invalidated
    else if s == "acceptance_evaluated"
    then ok EventType.acceptance_evaluated
    else if s == "review_unavailable"
    then ok EventType.review_unavailable
    else if s == "repair_limit"
    then ok EventType.repair_limit
    else if s == "queue_accepted"
    then ok EventType.queue_accepted
    else err value_error

abbrev pub event_type_from : Option Json → Result EventType
event_type_from none = err key_error
event_type_from (some (string s)) = event_type_named s
event_type_from (some v) = err value_error

pub event_type_from-text :
    (x : EventType) → event_type_from (some (string (event_type_text x))) ≡ ok x
event_type_from-text EventType.task_created = refl
event_type_from-text EventType.run_queued = refl
event_type_from-text EventType.run_dispatching = refl
event_type_from-text EventType.run_started = refl
event_type_from-text EventType.message = refl
event_type_from-text EventType.waiting_input = refl
event_type_from-text EventType.approval_requested = refl
event_type_from-text EventType.approval_responded = refl
event_type_from-text EventType.approval_assessed = refl
event_type_from-text EventType.approval_forwarding = refl
event_type_from-text EventType.cancel_requested = refl
event_type_from-text EventType.run_terminated = refl
event_type_from-text EventType.run_succeeded = refl
event_type_from-text EventType.run_failed = refl
event_type_from-text EventType.capability_rejected = refl
event_type_from-text EventType.reconciled = refl
event_type_from-text EventType.handoff_paused = refl
event_type_from-text EventType.handoff_resumed = refl
event_type_from-text EventType.evidence_invalidated = refl
event_type_from-text EventType.acceptance_evaluated = refl
event_type_from-text EventType.review_unavailable = refl
event_type_from-text EventType.repair_limit = refl
event_type_from-text EventType.queue_accepted = refl

abbrev pub approval_state_text : ApprovalState → String
approval_state_text ApprovalState.pending = "pending"
approval_state_text ApprovalState.forwarding = "forwarding"
approval_state_text ApprovalState.invalidated = "invalidated"
approval_state_text ApprovalState.approved = "approved"
approval_state_text ApprovalState.denied = "denied"

abbrev pub approval_state_named : String → Result ApprovalState
approval_state_named s =
    if s == "pending"
    then ok ApprovalState.pending
    else if s == "forwarding"
    then ok ApprovalState.forwarding
    else if s == "invalidated"
    then ok ApprovalState.invalidated
    else if s == "approved"
    then ok ApprovalState.approved
    else if s == "denied"
    then ok ApprovalState.denied
    else err value_error

abbrev pub approval_state_from : Option Json → Result ApprovalState
approval_state_from none = err key_error
approval_state_from (some (string s)) = approval_state_named s
approval_state_from (some v) = err value_error

pub approval_state_from-text :
    (x : ApprovalState) → approval_state_from (some (string (approval_state_text x))) ≡ ok x
approval_state_from-text ApprovalState.pending = refl
approval_state_from-text ApprovalState.forwarding = refl
approval_state_from-text ApprovalState.invalidated = refl
approval_state_from-text ApprovalState.approved = refl
approval_state_from-text ApprovalState.denied = refl

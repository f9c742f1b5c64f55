-- ===== src/Control/Outbox.antt =====
-- The outbox of control_store.py: `enqueue`, `mark_delivery`, `finish_delivery` and the lists of
-- deliveries. A payload is its canonical JSON text.
pub mod Once
use asterun.Prelude.{
  ℕ, String, Bool, true, false, not, ◌&&◌, Option, none, some, List, [], ◌∷◌, lookup, insert, Dict,
  ◌==◌, string_eq, pair_eq, if◌then◌else◌,
}
use asterun.Errors.{
  Code, Result, ok, err, idempotency_conflict, invalid_request, invalid_state, not_found,
  unknown_remote,
}
use asterun.Errors.Exec.{Exec, pure, raise, gets, modify, need, transaction, ◌>>=◌, ◌>>◌}
use asterun.Control.Db.{Db, DeliveryStatus, waiting, delivering, done}

-- `_outbox_row`
pub record Delivery : Type 0 where
  pub namespace_id : String
  pub action_id : String
  pub payload : String
  pub status : DeliveryStatus

abbrev pub row_of : Db → String → String → Option (String × DeliveryStatus)
row_of s namespace action = lookup (namespace, action) s.outbox

abbrev pub outbox_row : String → String → String × DeliveryStatus → Delivery
outbox_row namespace action (payload, status) = record {
  namespace_id = namespace;
  action_id = action;
  payload = payload;
  status = status;
}

-- the UPDATE of the status, and the INSERT of `enqueue`
abbrev pub store_row : String → String → String → DeliveryStatus → Db → Db
store_row namespace action payload status s = record s {
  outbox = insert (namespace, action) (payload, status) s.outbox;
}

abbrev pub enqueue_row :
    String → String → String → Option (String × DeliveryStatus) → Exec Db Delivery
enqueue_row action namespace payload none s = (
  ok (outbox_row namespace action (payload, waiting)),
  store_row namespace action payload waiting s,
)
enqueue_row action namespace payload (some (old, status)) s =
    if old == payload
    then (ok (outbox_row namespace action (old, status)), s)
    else (err idempotency_conflict, s)

unfoldable pub enqueue : String → String → String → Exec Db Delivery
unfolding transaction
enqueue action namespace payload =
    transaction (λ s. enqueue_row action namespace payload (row_of s namespace action) s)

-- `_deliveries`, in the order of the rows
unfoldable pub deliveries :
    String
    → (DeliveryStatus → Bool)
    → Dict (String × String) (String × DeliveryStatus)
    → List Delivery
deliveries namespace wanted [] = []
deliveries namespace wanted (((n, action), (payload, status)) ∷ rows) =
    let rest = deliveries namespace wanted rows in
    if (n == namespace) && wanted status then outbox_row n action (payload, status) ∷ rest else rest

abbrev pub is_waiting : DeliveryStatus → Bool
is_waiting waiting = true
is_waiting _ = false

abbrev pub is_delivering : DeliveryStatus → Bool
is_delivering delivering = true
is_delivering _ = false

unfoldable pub pending : String → Db → List Delivery
pending namespace s = deliveries namespace is_waiting s.outbox

unfoldable pub uncertain_deliveries : String → Db → List Delivery
uncertain_deliveries namespace s = deliveries namespace is_delivering s.outbox

-- `_delivery` without a namespace: the rows of the action in all of them
unfoldable pub rows_of_action :
    String → Dict (String × String) (String × DeliveryStatus) → List Delivery
rows_of_action action [] = []
rows_of_action action (((n, a), row) ∷ rows) =
    let rest = rows_of_action action rows in if a == action then outbox_row n a row ∷ rest else rest

abbrev pub only_row : List Delivery → Result Delivery
only_row [] = err not_found
only_row (row ∷ []) = ok row
only_row (row ∷ (other ∷ rows)) = err invalid_request

abbrev pub named_row : String → String → Option (String × DeliveryStatus) → Result Delivery
named_row namespace action none = err not_found
named_row namespace action (some row) = ok (outbox_row namespace action row)

unfoldable pub delivery : String → Option String → Db → Result Delivery
unfolding rows_of_action
delivery action none s = only_row (rows_of_action action s.outbox)
delivery action (some namespace) s = named_row namespace action (row_of s namespace action)

-- The test of `mark_delivery`: only a waiting delivery may be claimed.
abbrev pub claim : Result Delivery → Exec Db Delivery
claim (err c) s = (err c, s)
claim (ok item) s = elim item.status [
  | waiting ↦ (
    ok (record item { status = delivering }),
    store_row item.namespace_id item.action_id item.payload delivering s,
  )
  | delivering ↦ (err unknown_remote, s)
  | done ↦ (err invalid_state, s)
]

unfoldable pub mark_delivery : String → Option String → Exec Db Delivery
unfolding transaction delivery
mark_delivery action namespace = transaction (λ s. claim (delivery action namespace s) s)

abbrev pub complete : Result Delivery → Exec Db Delivery
complete (err c) s = (err c, s)
complete (ok item) s = (
  ok (record item { status = done }),
  store_row item.namespace_id item.action_id item.payload done s,
)

unfoldable pub finish_delivery : String → Option String → Exec Db Delivery
unfolding transaction delivery
finish_delivery action namespace = transaction (λ s. complete (delivery action namespace s) s)

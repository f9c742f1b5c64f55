-- ===== src/Control/Db.antt =====
-- The documents and the tables of control_store.py.
use asterun.Prelude.{ℕ, String, Option, List, [], Dict}
use asterun.Prelude.Int.{ℤ}

-- _MAX_INT
abbrev pub max_int : ℕ
max_int = 9007199254740991

-- A JSON number: an integer, or a value that is none (`type(amount) is not int`).
pub data Number : Type 0 where
  int : ℤ → Number
  other : Number

-- One entry of `reserved`, `actual` or `limits`; `amount` is the field `limit` in the last.
pub record Measure : Type 0 where
  pub meter : String
  pub billing_pool_ref : Option String
  pub amount : Number

pub data ReservationStatus : Type 0 where
  held settled released uncertain : ReservationStatus

pub record Reservation : Type 0 where
  pub task_id : String
  pub budget_id : String
  pub action_id : String
  pub reserved : List Measure
  pub actual : Option (List Measure)
  pub status : ReservationStatus
  pub receipt_evidence_ids : List String
  pub revision : ℕ
  pub updated_at : String

pub record Budget : Type 0 where
  pub task_id : String
  pub limits : List Measure

pub record Event : Type 0 where
  pub namespace_id : String
  pub task_id : String
  pub id : String
  pub sequence : ℕ
  pub payload : String

-- What a document holds besides its identity; the kinds whose fields the store does not read are
-- a text.
pub data Body : Type 0 where
  reservation : Reservation → Body
  budget : Budget → Body
  event : Event → Body
  document : String → Body

pub record Entity : Type 0 where
  pub namespace_id : String
  pub kind : String
  pub id : String
  pub body : Body

pub data DeliveryStatus : Type 0 where
  waiting delivering done : DeliveryStatus

pub record Lease : Type 0 where
  pub holder_id : Option String
  pub expires_at : String
  pub fencing_token : ℕ

-- a row of control_event_streams
pub record Stream : Type 0 where
  pub sequence : ℕ
  pub floor : ℕ

-- a row of control_reservations
pub record ReservationRow : Type 0 where
  pub namespace_id : String
  pub id : String
  pub budget_id : String
  pub action_id : String

pub record Db : Type 0 where
  -- by namespace, kind and id
  pub entities : Dict (String × (String × String)) Entity
  -- by namespace, principal, method and idempotency key: the operation's id and the digest
  pub operations : Dict (String × (String × (String × String))) (String × String)
  -- by namespace and task
  pub event_streams : Dict (String × String) Stream
  pub events : List Event
  -- namespace and id
  pub event_ids : List (String × String)
  -- by namespace and action: the payload and its status
  pub outbox : Dict (String × String) (String × DeliveryStatus)
  -- by namespace and resource
  pub leases : Dict (String × String) Lease
  pub reservations : List ReservationRow
  -- by namespace and digest
  pub blobs : Dict (String × String) (List ℕ)

abbrev pub empty : Db
empty = record {
  entities = [];
  operations = [];
  event_streams = [];
  events = [];
  event_ids = [];
  outbox = [];
  leases = [];
  reservations = [];
  blobs = [];
}

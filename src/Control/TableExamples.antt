-- ===== src/Control/TableExamples.antt =====
-- The theorems about leases, the outbox, operations and blobs at concrete tables.
use asterun.Prelude.{
  ℕ, String, ◌≡◌, ◌≢◌, refl, ◌⊎◌, inl, inr, List, [], ◌∷◌, arith, lookup, insert, Option, none,
  some, string_eq, nat_eq, option_eq, pair_eq, list_eq, ◌==◌, if◌then◌else◌, ltb,
}
use asterun.Errors.{
  ok, err, lease_conflict, lease_lost, idempotency_conflict, invalid_state, unknown_remote,
}
use asterun.Control.Db.{Db, Entity, Body, Lease, empty, delivering}
use asterun.Control.Entities.{get_blob, put_blob}
use asterun.Control.Entities.Blobs.{get_blob-put_blob}
use asterun.Control.Leases.{claim_lease, check_lease}
use asterun.Control.Leases.Tenure.{AllForeign, claim_lease-excludes, check_lease-claimed}
use asterun.Control.Leases.Fencing
use asterun.Control.Leases.Fencing.{LeaseOp, claim, release, check_lease-fenced}
use asterun.Control.Outbox.{Delivery, enqueue, mark_delivery}
use asterun.Control.Outbox.Once
use asterun.Control.Outbox.Once.{OutboxOp, put, mark, finish, mark_delivery-once}
use asterun.Control.Operations.{save_operation, find_operation, bound}
use asterun.Control.Operations.Binding.{save_operation-bound}

-- Three instants of a clock.
abbrev clock : String → Option ℕ
clock t =
    if t == "10:00Z"
    then some 600
    else if t == "10:30Z"
    then some 630
    else if t == "11:00Z"
    then some 660
    else none

abbrev lease : Lease
lease = record { holder_id = some "a"; expires_at = "10:30Z"; fencing_token = 1 }

abbrev leased : Db
leased = record empty { leases = (("ns", "run/1"), lease) ∷ [] }

claimed : claim_lease clock "ns" "run/1" "a" "10:30Z" "10:00Z" empty ≡ (ok lease, leased)
unfolding claim_lease lookup insert
claimed = refl

-- Another holder claims and releases in vain, and the holder claims another resource.
abbrev vain : List LeaseOp
vain =
    claim "ns" "run/1" "b" "11:00Z" "10:00Z"
    ∷ release "ns" "run/1" "b" 1
    ∷ claim "ns" "run/2" "a" "11:00Z" "10:30Z"
    ∷ []

2-ne-1 : ◌≢◌ {A = String} "run/2" "run/1"
2-ne-1 e = cc ((string_eq.equal_iff "run/2" "run/1").1 e)

b-ne-a : ◌≢◌ {A = String} "b" "a"
b-ne-a e = cc ((string_eq.equal_iff "b" "a").1 e)

vain-AllForeign : AllForeign clock "ns" "run/1" "a" 630 vain
vain-AllForeign = (inr (b-ne-a, omega arith), (inr b-ne-a, (inl (inr 2-ne-1), tt)))

claim_lease-excludes_example :
    claim_lease clock "ns" "run/1" "b" "11:00Z" "10:00Z" (Fencing.run_ops clock leased vain)
    ≡ (err lease_conflict, Fencing.run_ops clock leased vain)
claim_lease-excludes_example =
    claim_lease-excludes clock "ns" "run/1" "a" "b" "10:30Z" "10:00Z" "11:00Z" "10:00Z" empty leased
      lease vain claimed refl vain-AllForeign b-ne-a refl refl (omega arith) (omega arith)

check_lease-claimed_example :
    check_lease clock "ns" "run/1" "a" 1 "10:30Z" (Fencing.run_ops clock leased vain) ≡ (
      if ltb 630 630
      then (ok lease, Fencing.run_ops clock leased vain)
      else (err lease_lost, Fencing.run_ops clock leased vain))
check_lease-claimed_example =
    check_lease-claimed clock "ns" "run/1" "a" "10:30Z" "10:00Z" "10:30Z" empty leased lease vain
      claimed refl vain-AllForeign refl

-- The holder lets go and another claims.
abbrev handover : List LeaseOp
handover = release "ns" "run/1" "a" 1 ∷ claim "ns" "run/1" "b" "11:00Z" "10:30Z" ∷ []

check_lease-fenced_example :
    check_lease clock "ns" "run/1" "a" 0 "10:00Z" (Fencing.run_ops clock leased handover)
    ≡ (err lease_lost, Fencing.run_ops clock leased handover)
check_lease-fenced_example =
    check_lease-fenced clock "ns" "run/1" "a" "a" "10:30Z" "10:00Z" "10:00Z" empty leased lease
      handover 0 claimed (omega arith)

abbrev queued : Db
queued = (enqueue "act" "ns" "{}" empty).1

abbrev item : Delivery
item = record { namespace_id = "ns"; action_id = "act"; payload = "{}"; status = delivering }

marked :
    mark_delivery "act" (some "ns") queued ≡ (ok item, (mark_delivery "act" (some "ns") queued).1)
unfolding mark_delivery enqueue lookup insert
marked = refl

abbrev retries : List OutboxOp
retries = put "act" "ns" "{}" ∷ mark "act" none ∷ finish "act" (some "ns") ∷ []

abbrev retried : Db
retried = Once.run_ops (mark_delivery "act" (some "ns") queued).1 retries

mark_delivery-once_example :
    (mark_delivery "act" (some "ns") retried ≡ (err unknown_remote, retried))
    ⊎ (mark_delivery "act" (some "ns") retried ≡ (err invalid_state, retried))
mark_delivery-once_example =
    mark_delivery-once "act" "ns" queued (mark_delivery "act" (some "ns") queued).1 item retries
      marked

abbrev operation : Entity
operation = record {
  namespace_id = "ns";
  kind = "Operation";
  id = "op_1";
  body = Body.document "{}";
}

abbrev saved : Db
saved = (save_operation operation "task.create" "me" "k" "d1" empty).1

first_save : save_operation operation "task.create" "me" "k" "d1" empty ≡ (ok operation, saved)
unfolding save_operation lookup insert
first_save = refl

unbound : bound empty ("ns", ("me", ("task.create", "k"))) ≡ none
unfolding lookup
unbound = refl

save_operation-bound_example :
    (save_operation operation "task.create" "me" "k" "d2" saved ≡ (
      if (◌==◌ {A = String} "d1" "d2")
      then (ok operation, saved)
      else (err idempotency_conflict, saved)))
    × (find_operation "ns" "me" "task.create" "k" saved ≡ (ok (some operation), saved))
save_operation-bound_example =
    save_operation-bound operation "task.create" "me" "k" "d1" operation operation "d2" empty saved
      refl refl unbound first_save

-- A digest of two texts, for the example.
abbrev length_digest : List ℕ → String
length_digest [] = "empty"
length_digest (b ∷ bs) = "some"

abbrev content : List ℕ
content = 7 ∷ 8 ∷ []

no_blob : lookup ("ns", "some") empty.blobs ≡ none
unfolding lookup
no_blob = refl

get_blob-put_blob_example :
    (s' : Db) × (put_blob length_digest "ns" content empty ≡ (ok "some", s'))
    × (get_blob length_digest "ns" "some" s' ≡ (ok content, s'))
    × (put_blob length_digest "ns" content s' ≡ (ok "some", s'))
get_blob-put_blob_example = get_blob-put_blob length_digest "ns" content empty no_blob

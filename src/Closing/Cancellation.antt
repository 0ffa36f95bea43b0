-- ===== src/Closing/Cancellation.antt =====
-- `cancelLoad` and `closeLoad` of load.service.ts: when they succeed and what they write.
use truckmaster.Base.{ℕ, ◌≡◌, Bool, true, false, String, some, arith, if◌then◌else◌}
use truckmaster.Store.Statuses.{LoadStatus, load_status_enum}
use truckmaster.Store.Rows.{Load}
use truckmaster.Store.Transaction.{Store, ok, err, with_tenant_transaction, invalid_transition}
use truckmaster.Store.Queries.{find_load}
use truckmaster.Closing.{cancel_load, close_load, notify_of_cancellation}
use truckmaster.Notifying.{create_for_user_and_roles}

-- What a cancellation leaves alone.
pub record IsPreserved (s t : Store) : Type 0 where
  stops : t.stops ≡ s.stops
  check_calls : t.check_calls ≡ s.check_calls
  documents : t.documents ≡ s.documents
  charges : t.charges ≡ s.charges
  carrier_payments : t.carrier_payments ≡ s.carrier_payments
  dispatch_records : t.dispatch_records ≡ s.dispatch_records
  carriers : t.carriers ≡ s.carriers

-- Cancelling leaves the stops, check calls, documents, charges, carrier payments, dispatch records and
-- carriers as they were, whether it succeeds or not.
pub cancel_load-IsPreserved :
    (now org load_id : ℕ) (reason : String) (actor : ℕ) (s : Store)
    → IsPreserved s (cancel_load now org load_id reason actor s).1
unfolding cancel_load with_tenant_transaction notify_of_cancellation create_for_user_and_roles
cancel_load-IsPreserved now org load_id reason actor s = ground arith

-- The statuses in which a load can still be cancelled.
abbrev pub can_still_be_cancelled : LoadStatus → Bool
can_still_be_cancelled LoadStatus.booked = true
can_still_be_cancelled LoadStatus.carrier_sourcing = true
can_still_be_cancelled LoadStatus.carrier_assigned = true
can_still_be_cancelled LoadStatus.rate_confirmation = true
can_still_be_cancelled other = false

-- A load that is found is cancelled if it is Booked, in Carrier Sourcing, Carrier Assigned or at Rate
-- Confirmation, and refused as an invalid transition otherwise; the cancelled load differs in its
-- status, its time of cancellation and the user who cancelled it.
pub cancel_load-result :
    (now org load_id : ℕ) (reason : String) (actor : ℕ) (l : Load) (s : Store)
    → find_load org load_id s ≡ some l
    → (cancel_load now org load_id reason actor s).0 ≡ (
        if can_still_be_cancelled l.status
        then ok (record l {
          status = LoadStatus.cancelled;
          cancelled_at = some now;
          cancelled_by_user_id = some actor;
        })
        else err invalid_transition)
unfolding cancel_load with_tenant_transaction notify_of_cancellation create_for_user_and_roles
cancel_load-result now org load_id reason actor l s found = ground arith

-- A cancelled load can be closed: the row then is Closed.
pub close_load-cancelled :
    (now org load_id actor : ℕ) (l : Load) (s : Store)
    → find_load org load_id s ≡ some l
    → l.status ≡ LoadStatus.cancelled
    → (close_load now org load_id actor s).1.loads load_id
      ≡ some (record l {
        status = LoadStatus.closed;
        closed_at = some now;
        closed_by_user_id = some actor;
      })
unfolding close_load with_tenant_transaction
close_load-cancelled now org load_id actor l s found cancelled = ground arith

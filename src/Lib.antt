-- ===== src/Lib.antt =====
-- Truckmaster: the back end of a freight broker's office, from the quote to the carrier's pay.
--
-- The paths below are from the root of the repository; services are under backend/src/modules.
--
-- The parts and their files:
--   Store: the tables that the services share (backend/prisma/schema.prisma), the audit log, the
--     queued jobs, and `withTenantTransaction` (backend/src/common/prisma/prisma.service.ts), which
--     takes back every write when its body throws. An `async` method is an `Action`: it takes the
--     store and gives a result or a failure, with the store that it leaves.
--   Carrier/Eligibility: carrier/services/carrier-eligibility.service.ts. `recalculate` is called by
--     the assignment of a carrier, by the dispatch and after each change of a carrier.
--   Carrier/Roster, Carrier/Fleet: carrier/services/carrier.service.ts, the carriers themselves, and
--     their insurance, verifications, drivers, trucks and trailers; Carrier/Profile has their
--     contacts, service areas and factoring data. Carrier/Limits is the carrier and
--     driver limits of `EntitlementService`, and Carrier/Reviews is `review` of
--     document/services/document.service.ts. Carrier/Registry is the abstract view of the carriers,
--     with its steps, and Carrier/Requests runs sequences of the operations.
--   Customers: customer/services/customer.service.ts, with its check for duplicates. Customers/Words is
--     what its `normalize` means.
--   Booking: quote-load/services/quote.service.ts, `createFromBooking` and `createDirect` of
--     load.service.ts, rate-agreement-matching.service.ts, `EntitlementService` and
--     `OrganizationSequenceService`.
--   Sourcing: quote-load/services/carrier-sourcing.service.ts, up to the rate confirmation.
--   Tracking: quote-load/services/dispatch-tracking.service.ts; Tracking/Derivation is
--     load-status-derivation.service.ts, which every operation on stops calls at its end.
--   Closing: the closing checklist, `closeLoad`, `cancelLoad`, `updateReferenceNumbers` and
--     `linkReturnLoad` of load.service.ts; Closing/Pod is load-pod-status.service.ts.
--   Billing: billing/services/invoice.service.ts, carrier-pay/services/carrier-payment.service.ts and
--     `addCharge` of load.service.ts.
--   Notifying: the creating methods of notification/services/notification.service.ts.
--   Identity: identity/services/membership.service.ts with the user operations that it calls, and
--     background-jobs/services/invitation-expiration-sweep.service.ts in Identity/Expiry. The functions
--     that hash tokens and passwords are arguments. Identity/Admins runs sequences of its operations.
--   Timezone: backend/src/common/timezone/business-timezone.ts; what `Intl` shows in a zone is an
--     argument, and so is `new Date` on a text with its own offset.
--   Risk: quote-load/utils/eta-risk.ts, appointment-risk.ts, load-lateness.ts, location-staleness.ts,
--     missing-pod-risk.ts and manual-risk-flag.ts; Risk/Sweep is
--     background-jobs/services/eta-risk-sweep.service.ts on the items of one organization.
--   Lifecycle: the diagram of the load statuses, with a lemma for each operation.
--   Requests: the writing operations as one data type, `perform` and `run`.
--   Base: Boolean tests, lists, sorting, text and integers. Tests: the examples.
--
-- A method keeps its name in snake case and its checks in their order. Where a method does more after
-- its transaction (adding jobs to a queue), the transaction is a definition of its own: `create_direct`
-- is `book_direct` and then the jobs, `convert` is `win`, `mark_paid` is `settle`, `update_stops` is
-- `edit_stops`, `send` is `mark_sent`, `log_check_call` is `create_check_call`. The writes of an invoice
-- are `write_invoice`; `change_invitation` is what `resend` and `cancel` share, and `change_member` what
-- `deactivate` and `updateRoles` share. In Carrier and Customers the part of a method after its first
-- lookup is a definition of its own (`activate_pending`, `transition_found`, `create_for`).
--
-- What is read how:
--   Ids and users are numbers, and `next_id` is the source of fresh UUIDs; an insert on a key that is
--   taken fails, as in the database. Times are milliseconds, and an operation reads the clock once, as
--   its argument `now`. Amounts are cents and quantities are hundredths: JavaScript numbers and
--   `toFixed(2)` are read as exact decimals, but for the test on the unrounded remainder of an invoice,
--   which Billing/Doubles computes with doubles. The rows of a list stand in the order in which the
--   database gives them. `accepts` says which jobs the queues take: a refused one fails the request
--   that awaits it, after whatever was committed. A table is a function of the primary key, and `rows_below` lists its rows, whose
--   keys were all drawn from `next_id`; a count or a search over a table reads that list. Where a
--   column is unique, the lookup finds at most one row.
--   Every loop runs over a list and is structural recursion. The rounding of a double halves a quotient at
--   most 128 times, enough below 2^181.
--
-- What is not modelled: the texts of messages, the checks of the DTO classes, the text form of document
-- numbers, the parsing of appointment times (they are given parsed), the UUID test and the row level
-- security of the transaction, and the changed fields in the audit entries of
-- corrections. `previewDriverDispatchEmail` and `sendDriverDispatchEmail`, the list queries, the uploads,
-- scans and deletions of documents, sessions, the provisioning of organizations, imports, reports and
-- the other background sweeps are left out, and so are the locations of a customer and the columns that
-- no modelled operation reads. `toLowerCase` is read on A to Z. The offset of a zone is kept in
-- milliseconds. A failure of the database in the middle of a sweep, which it logs and passes
-- over, does not occur; the labels of attention items are kept as the stop type and the minutes.
pub mod Base
pub mod Store
pub mod Tracking
pub mod Carrier
pub mod Notifying
pub mod Booking
pub mod Sourcing
pub mod Closing
pub mod Customers
pub mod Billing
pub mod Identity
pub mod Timezone
pub mod Risk
pub mod Lifecycle
pub mod Requests
pub mod Tests

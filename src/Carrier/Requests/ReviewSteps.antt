-- ===== src/Carrier/Requests/ReviewSteps.antt =====
-- The review of a document, as steps of the registry.
use truckmaster.Base.{ℕ, not, ◌==◌, [], ◌∷◌}
use truckmaster.Store.Statuses.{
  ReviewStatus, EntityType, NotificationType, Role, ◌is◌, review_status_enum, entity_type_enum,
}
use truckmaster.Store.Rows.{Document}
use truckmaster.Store.Transaction.{
  Store, pure, throw_if, when, ◌>>=◌, ◌>>◌, not_found, business_rule, self_review_forbidden,
}
use truckmaster.Store.Outcomes.{
  Returns, Returns-bind, Returns-found, Returns-unless, Returns-when, Returns-weaken,
  transaction-keeps,
}
use truckmaster.Store.Queries.{require}
use truckmaster.Notifying.{create_for_user_and_roles, has_notification}
use truckmaster.Carrier.Reviews.{
  Decision, review, review_found, review_pending, find_document_by_id, needs_review, decide,
  write_review, finish_review, recalculate_only, reviewed, notify_rejection,
}
use truckmaster.Carrier.Registry.{here}
use truckmaster.Carrier.Requests.Rules.{Follows, Returns-then_recalculate}

finish_review-Follows :
    (x : Store) (org : ℕ) (decision : Decision) (d : Document) (s : Store)
    → Follows x s
    → Returns (λ u t. Follows x t) (finish_review org decision d) s
unfolding create_for_user_and_roles
finish_review-Follows x org Decision.approved d s before = before
finish_review-Follows x org Decision.rejected d s before =
    let kind = NotificationType.compliance_document_rejected in
    let answer = pure (reviewed Decision.rejected d) in
    Returns-bind (λ (u : Document) (t : Store). Follows x t)
      (notify_rejection org Decision.rejected d) (λ u. answer) s
      (Returns-when (λ u t. Returns (λ (u : Document) (t : Store). Follows x t) answer t)
        (not (has_notification org kind d.id s))
        (create_for_user_and_roles org d.uploaded_by_user_id (Role.admin ∷ []) kind d.id) s before
        before)

decide-Follows :
    (now org : ℕ) (decision : Decision) (actor : ℕ) (d : Document) (s : Store)
    → Returns (λ u t. Follows s t) (decide now org decision actor d) s
decide-Follows now org decision actor d s =
    let done = λ (u : Document) (t : Store). Follows s t in
    let later = λ (u : Unit {0}) (t : Store). Returns done (finish_review org decision d) t in
    let ends = λ (u : Unit {0}) (t : Store) (after : Follows s t).
      finish_review-Follows s org decision d t after in
    let written = (write_review org decision actor d s).1 in
    let for_carrier = d.entity_type is EntityType.carrier in
    Returns-bind done (when for_carrier (recalculate_only now org d.entity_id))
      (λ u. finish_review org decision d) written
      (Returns-when later for_carrier (recalculate_only now org d.entity_id) written
        (ends tt written here)
        (Returns-weaken (λ u t. Follows s t) later (recalculate_only now org d.entity_id) written
          ends (Returns-then_recalculate s now org d.entity_id tt written here)))

pub review-Follows :
    (now org id : ℕ) (decision : Decision) (actor : ℕ) (s : Store)
    → Follows s (review now org id decision actor s).1
unfolding review
review-Follows now org id decision actor s =
    let done = λ (u : Document) (t : Store). Follows s t in
    let body = review_found now org decision actor in
    transaction-keeps (Follows s) (require (find_document_by_id org id) >>= body) s here (
      Returns-found done not_found (find_document_by_id org id s) body s (λ d found.
        Returns-unless done (not (needs_review d.document_type_id s)) business_rule
          (review_pending now org decision actor d) s
          (λ required.
            Returns-unless done (not (d.review_status is ReviewStatus.pending_review)) business_rule
              (throw_if (d.uploaded_by_user_id == actor) self_review_forbidden
                >> decide now org decision actor d)
              s
              (λ pending.
                Returns-unless done (d.uploaded_by_user_id == actor) self_review_forbidden
                  (decide now org decision actor d) s
                  (λ other. decide-Follows now org decision actor d s)))))

-- ===== src/Tests/Review.antt =====
-- Runs of the review commands, and their theorems applied to them.
use ops_flow_ai.Base.{
  arith, ◌<◌, ◌≤◌, ◌⊎◌, length, codes, ◌≡◌, refl, none, some, [], ◌∷◌, ok, String,
}
use ops_flow_ai.Base.Table.{find, put}
use ops_flow_ai.Base.Select.{first_by}
use ops_flow_ai.Domain.State.{
  OrderState, needs_review, ready_for_approval, approved, rejected, failed_retryable, syncing,
  normal_transitions,
}
use ops_flow_ai.Domain.Records.{AuditEvent}
use ops_flow_ai.Domain.Order.{
  Order, transition_to, retry, new_order, currency_ok, is_currency_code, origin_ok,
}
use ops_flow_ai.Domain.Lifecycle.{IsValid}
use ops_flow_ai.Sync.Soundness.{IsSound}
use ops_flow_ai.Sync.System.{IsDbSound}
use ops_flow_ai.Review.Restart.{retry_order-IsDbSound}
use ops_flow_ai.Store.{
  Db, get_order, get_sync, update_order_snapshot, save_sync, insert_audit_event,
}
use ops_flow_ai.Sync.Commands.{
  new_intent, reset_row, reset_order_sync_for_retry, create_order_sync_intent,
}
use ops_flow_ai.Notify.Contracts.{slack, order_approved, slack_payload, new_delivery}
use ops_flow_ai.Notify.Intents.{
  new_notification, create_notification_intent, insert_notification_delivery,
}
use ops_flow_ai.Review.Access.{
  OperatorContext, reviewer, approver, may_review, may_approve, may_reject, require_rejection,
  require_retry, require_approval, Generation, is_strong_review_etag, require_if_match,
  require_generation, get_latest_audit_event_id, has_high_value_warning,
}
use ops_flow_ai.Review.Commands.{
  retry_order, retry_locked, reset_if, approve_order, approve_locked, review_event,
}
use ops_flow_ai.Review.Rejection.{
  strip, normalize_rejection_reason, reject_order, reject_locked, reject_order_lem,
}
use ops_flow_ai.Review.Approved.{approve_order-IsStarted}
use ops_flow_ai.Review.Started.{IsStarted}
use ops_flow_ai.Review.Authority.{Allowed, retry_order_lem, approve_order_lem}
use ops_flow_ai.Tests.Data.{an_order, db_with, persisted, single-IsDbSound}

abbrev tag_text : String
tag_text = "\"00112233445566778899aabbccddeeff00112233445566778899aabbccddeeff\""

abbrev a_tag : Generation → String
a_tag g = tag_text

abbrev someone : OperatorContext
someone = record { actor = "rita"; role = reviewer }

abbrev failed_order : Order
failed_order = record (an_order failed_retryable) { failure_origin = some syncing }

abbrev failed_db : Db
failed_db = db_with failed_order (new_intent 1 5)

abbrev retried_db : Db
retried_db = record (db_with (an_order syncing) (reset_row (new_intent 1 5) 40)) {
  audit =
      review_event 910 1 "ORDER_RETRY_REQUESTED" someone 41
      ∷ review_event 911 1 "ORDER_RETRY_RESTORED" someone 42
      ∷ [];
}

retry_run :
    retry_order a_tag failed_db none failed_db none 1 (some tag_text) someone 41 40 910 911
    ≡ ok (an_order syncing, retried_db)
unfolding retry_order retry_locked require_retry require_generation is_strong_review_etag
    require_if_match get_latest_audit_event_id first_by get_order find retry new_order currency_ok
    is_currency_code origin_ok update_order_snapshot put reset_if reset_order_sync_for_retry
    get_sync save_sync insert_audit_event
retry_run = refl

retry_order_lem_example :
    Allowed a_tag failed_db 1 none
      (some tag_text)
      failed_retryable
      (λ p. may_review reviewer)
      (an_order syncing)
      retry
retry_order_lem_example =
    retry_order_lem a_tag failed_db failed_db none none 1 (some tag_text) someone 41 40 910 911
      retry_run

abbrev ready_db : Db
ready_db = record (db_with (an_order ready_for_approval) (new_intent 2 5)) { syncs = [] }

abbrev boss : OperatorContext
boss = record { actor = "anna"; role = approver }

abbrev approval : AuditEvent
approval = review_event 920 1 "ORDER_APPROVED" boss 50

abbrev approved_db : Db
approved_db = record (db_with (an_order approved) (new_intent 1 50)) {
  audit = approval ∷ [];
  deliveries =
      new_notification 930 (an_order approved) approval slack order_approved
        (slack_payload order_approved 1 approved 0 "https://ops")
      ∷ [];
}

approve_run :
    approve_order a_tag ready_db none ready_db none 1
      (some tag_text)
      boss
      50
      920
      930
      931
      "https://ops"
    ≡ ok (an_order approved, approved_db)
unfolding approve_order approve_locked require_approval require_generation is_strong_review_etag
    require_if_match get_latest_audit_event_id first_by get_order find transition_to
    normal_transitions new_order currency_ok is_currency_code origin_ok update_order_snapshot put
    has_high_value_warning create_order_sync_intent get_sync insert_audit_event
    create_notification_intent insert_notification_delivery new_delivery
approve_run = refl

approve_order_lem_example :
    Allowed a_tag ready_db 1 none
      (some tag_text)
      ready_for_approval
      (λ p. may_approve approver (has_high_value_warning p))
      (an_order approved)
      (λ o. transition_to o approved)
approve_order_lem_example =
    approve_order_lem a_tag ready_db ready_db none none 1 (some tag_text) boss 50 920 930 931
      "https://ops" approve_run

failed-IsValid : IsValid failed_order
unfolding currency_ok is_currency_code origin_ok
failed-IsValid = record { currency = refl; origin = refl }

failed-IsSound : IsSound failed_order (new_intent 1 5)
failed-IsSound = let v = failed-IsValid in ground arith

retry_order-IsDbSound_example : IsDbSound retried_db
retry_order-IsDbSound_example =
    retry_order-IsDbSound a_tag failed_db failed_db none none 1 (some tag_text) someone 41 40 910
      911 (single-IsDbSound (persisted failed_order) (new_intent 1 5) [] failed-IsSound) retry_run

ready_db-IsDbSound : IsDbSound ready_db
unfolding get_sync find
ready_db-IsDbSound = record { distinct = tt; sound = λ id o r found_order found_sync. cc }

approve_order-IsStarted_example : IsStarted approved_db 1 50
approve_order-IsStarted_example =
    approve_order-IsStarted a_tag ready_db ready_db none none 1 (some tag_text) boss 50 920 930 931
      "https://ops" ready_db-IsDbSound approve_run

abbrev rejected_db : Db
rejected_db = record ready_db {
  orders = persisted (an_order rejected) ∷ [];
  audit = review_event 940 1 "ORDER_REJECTED" boss 50 ∷ [];
}

reject_run :
    reject_order a_tag ready_db none ready_db none 1 "  wrong price " (some tag_text) boss 50 940
    ≡ ok (an_order rejected, rejected_db)
unfolding reject_order reject_locked normalize_rejection_reason strip require_rejection
    require_generation is_strong_review_etag require_if_match get_latest_audit_event_id first_by
    get_order find transition_to normal_transitions new_order currency_ok is_currency_code origin_ok
    update_order_snapshot put insert_audit_event
reject_run = refl

reject_order_lem_example :
    (0 < length (strip (codes "  wrong price ")))
    × (length (strip (codes "  wrong price ")) ≤ 500)
    × ((s : OrderState) × ((s ≡ needs_review) ⊎ (s ≡ ready_for_approval))
        × Allowed a_tag ready_db 1 none
            (some tag_text)
            s
            (λ p. may_reject boss.role p.order.state)
            (an_order rejected)
            (λ o. transition_to o rejected))
    × ((an_order rejected).state ≡ rejected)
    × IsDbSound rejected_db
reject_order_lem_example =
    reject_order_lem a_tag ready_db ready_db none none 1 "  wrong price " (some tag_text) boss 50
      940 ready_db-IsDbSound reject_run

-- ===== src/Lib.antt =====
-- OpsFlow AI: a backend that takes purchase orders from receipt through validation, review and
-- approval to their synchronisation with an ERP (Odoo) and a CRM (HubSpot), with durable
-- notifications. The modules of this library follow the packages of src/opsflow.
--
-- Parts and files
--   Domain   src/opsflow/domain: the Order aggregate. Domain/State is OrderState and
--            _NORMAL_TRANSITIONS, Domain/Records the value objects, Domain/Order the operations
--            transition_to, retry, reopen, promote_validated_data and promote_reviewed_data, with the
--            trusted data of src/opsflow/validation/models.py. Every operation ends in new_order, the
--            checks of __post_init__, as dataclasses.replace does. Lifecycle, Approval and Promotion
--            hold the theorems.
--   Store    src/opsflow/persistence/repositories.py: the database, a record of tables, and the
--            operations that the transactions below use.
--   Sync     src/opsflow/application/order_sync.py with persistence/order_sync_repository.py and
--            order_sync/contracts.py. Contracts is the row OrderSync, the receipts and claims;
--            Eligibility the WHERE and ORDER BY of the claim; Commands intents, resets, the next step
--            and _require_current_claim; Claiming claim_next_order_sync; Transactions
--            begin_order_sync_step, persist_order_sync_receipt, record_order_sync_failure,
--            yield_order_sync_claim and complete_order_sync. Effects, Commits, Moves, ClaimMoves and
--            ErpReceipts say what each transaction changes; Soundness is the invariant of an order and
--            its row; System has the transactions as steps of any number of workers; Phases and
--            Coordinator are execute_next_order_sync, where World is the clock, the timeouts, the
--            executor and the other workers; Coordination, Remaining, Rounds and Execution have its
--            theorems; Fencing, Receipts, Choice, Handing with Progress, and Failing with Outcomes hold the further ones.
--   Notify   src/opsflow/notifications with persistence/notification_repository.py. Contracts are the
--            rows, claims and outcomes; Intents create_notification_intent; Delivery
--            finalize_expired_last_attempts, claim_next_notification and
--            record_notification_outcome; Soundness is the invariant of a row; System has the
--            transactions as steps; Changes, Claiming and Outcome hold what each does.
--   Intake   src/opsflow/orchestration: History is the audit-history parser of claims.py, Kinds the
--            decision and the recovery of a lease, with the fence of ownership.py; Failures is
--            failures.py, Claims claim_intake_execution. Reading and Grants have the theorems on
--            histories, Ownership those on the lease, Classes those on failures; Claiming, Recording,
--            Decisions and Exclusive those on two claims.
--   Review   src/opsflow/application/review_commands.py with src/opsflow/review: Access has the roles,
--            the entity tag and require_if_match, Commands approve_order and retry_order, Rejection
--            reject_order with its theorem; Authority, Restart, and Started with Approved have the others. The tag of
--            a generation is a parameter, and so is the latest review revision.
--   Validation src/opsflow/validation with the draft of src/opsflow/extraction/models.py. Models has the
--            trusted data, the policy and the result with their constructors; Lines the rules on a line,
--            Engine those on the order, _compute_total and validate; Build _build_validated_data;
--            Preflight approved_order_trusted_data_issues. A function that appends to the list of
--            issues returns what it appends. Acceptance says what an acceptable order is without those
--            rules; Clean, OrderRules and Blocking compare the two; Totals, Trusted, Inputs, Building,
--            Outcome, Verdict and Agreement have the theorems.
--   Application src/opsflow/application/validation.py with src/opsflow/validation/business_data.py:
--            Contract is validate_trusted_business_data, Checks the tests on the order, its source and
--            its snapshot, Validation the transaction of validate_order. Routing, Stored, Committed and
--            Outcome have the theorems. Store/Graph and Store/Facts are the operations of
--            persistence/repositories.py that it uses. Creation is application/orders.py, Idempotency
--            its theorem, Store/Keys the insertions it uses.
--   Base     shared names, tests into Bool, Result with the exceptions of the modelled code, tables by
--            key, and SELECT ... ORDER BY ... LIMIT 1. Decimal is the finite part of Python's decimal.
--   Tests    concrete runs, and the theorems applied to them.
--
-- How state is modelled
--   A transaction is a function from the database to a Result with the new database; a raised
--   exception rolls back, so an error carries no database. Row locks make a transaction atomic; SKIP
--   LOCKED is a test on ids that the claims take as an argument, so that the theorems hold whichever
--   rows others have locked. func.now() and func.clock_timestamp() are arguments, in microseconds.
--   Identifiers (uuid4) are numbers, and fresh ones are arguments. A table is a list of rows; unique
--   indexes are tests that end in an integrity error. The concurrency of workers is the order in which
--   their transactions commit: Step and Reaches of Sync/System and Notify/System take any transaction
--   at any time with any argument. The coordinator runs many transactions, so its result comes with the
--   database in every case, and it meets the transactions of others before each of its own. The SHA-256
--   of a request and the normalisation of a MIME type are parameters.
--
-- Bounds
--   The loop of the coordinator runs on fuel, of which six rounds are enough: lookup, bridge, company,
--   deal, association and completion. The other loops of the modelled code need none. The lease of a
--   synchronisation is 300 seconds and that of an intake 210, and the attempts are at most three, as the
--   code has them.
--
-- Not modelled
--   isinstance checks, which the types carry; the texts of payloads, with the 16 KiB that
--   _copy_payload allows them, of exceptions and of audit descriptions; the greatest datetime and
--   timedelta; the folding of letters beyond ASCII in normalize_customer_name;
--   logging and metrics; the HTTP layer, the provider clients, document parsing,
--   extraction and evaluation. The transaction of an extraction and the review corrections are not
--   part of the model.
pub mod Base
pub mod Decimal
pub mod Domain
pub mod Store
pub mod Sync
pub mod Notify
pub mod Intake
pub mod Review
pub mod Validation
pub mod Application
pub mod Tests

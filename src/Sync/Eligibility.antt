-- ===== src/Sync/Eligibility.antt =====
-- The choice of the next row: `claim_one_eligible_order_sync` of
-- src/opsflow/persistence/order_sync_repository.py.
use ops_flow_ai.Base.{
  ℕ, Bool, false, not, ◌&&◌, ◌||◌, Option, none, some, leb, ltb, ◌==◌, is_none, is_some,
}
use ops_flow_ai.Base.Select.{first_by}
use ops_flow_ai.Domain.State.{OrderState, approved, syncing, state_eq}
use ops_flow_ai.Store.{PersistedOrder, Db, get_order}
use ops_flow_ai.Sync.Contracts.{OrderSync}

-- `column <= now` in SQL, which a NULL does not pass.
abbrev pub is_due : Option ℕ → ℕ → Bool
is_due none now = false
is_due (some t) now = leb t now

abbrev pub is_eligible_in : OrderState → OrderSync → ℕ → Bool
is_eligible_in state r now =
    (state_eq state approved && (is_none r.claim_token && leb r.next_attempt_at now))
    || ((state_eq state syncing
          && (is_none r.claim_token && (leb r.next_attempt_at now && ltb r.attempt_count 3)))
        || (state_eq state syncing
            && (is_some r.claim_token && (is_due r.claim_expires_at now && ltb r.attempt_count 3))))

-- The WHERE clause, over the join with the order. `locked` says which orders or their sync rows
-- another transaction has locked: SKIP LOCKED passes those over.
unfoldable pub is_eligible : Db → ℕ → (ℕ → Bool) → OrderSync → Bool
is_eligible db now locked r = elim (get_order db r.order_id) [
  | none ↦ false
  | some o ↦ not (locked r.order_id) && is_eligible_in o.order.state r now
]

-- ORDER BY next_attempt_at, created_at, order_id
unfoldable pub comes_before : OrderSync → OrderSync → Bool
comes_before a b =
    ltb a.next_attempt_at b.next_attempt_at
    || (a.next_attempt_at == b.next_attempt_at
        && (ltb a.created_at b.created_at
            || (a.created_at == b.created_at && ltb a.order_id b.order_id)))

unfoldable pub claim_one_eligible_order_sync :
    Db → ℕ → (ℕ → Bool) → Option (OrderSync × PersistedOrder)
claim_one_eligible_order_sync db now locked =
    elim (first_by comes_before (is_eligible db now locked) db.syncs) [
      | none ↦ none
      | some r ↦ elim (get_order db r.order_id) [ none ↦ none | some o ↦ some (r, o) ]
    ]

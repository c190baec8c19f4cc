-- ===== src/Review/Restart.antt =====
-- That the retry of an operator fits the synchronisation: `retry_order` of
-- src/opsflow/application/review_commands.py on a sound database.
use ops_flow_ai.Base.{
  ℕ, ◌≡◌, refl, ap, ◌∙◌, sym, subst, inl, inr, String, true, false, Option, none, some, arith, ◌==◌,
  opt_eq, ok, invalid_review_state, >>=-eq-ok, ok-injective, guard, guard-eq-ok, Bool-cases,
  Option-cases, if◌then◌else◌,
}
use ops_flow_ai.Base.Table.{find, Distinct}
use ops_flow_ai.Domain.State.{OrderState, failed_retryable, syncing, state_eq}
use ops_flow_ai.Domain.Records.{AuditEvent}
use ops_flow_ai.Domain.Order.{Order, retry, origin_ok}
use ops_flow_ai.Store.{
  PersistedOrder, Db, sync_key, get_order, get_sync, with_snapshot, update_order_snapshot,
  save_sync, insert_audit_event,
}
use ops_flow_ai.Store.Laws.{
  get_order_key, get_sync_key, update_order_snapshot_lem, get_order-insert_audit_event,
  get_sync-insert_audit_event,
}
use ops_flow_ai.Sync.Contracts.{OrderSync}
use ops_flow_ai.Sync.Commands.{reset_row, reset_order_sync_for_retry}
use ops_flow_ai.Sync.Effects.{Effect, saved-Effect}
use ops_flow_ai.Sync.Commits.{audit_syncs}
use ops_flow_ai.Sync.Soundness.{IsSound, reset-IsSound}
use ops_flow_ai.Sync.System.{IsDbSound, Effect-IsDbSound}
use ops_flow_ai.Review.Access.{OperatorContext, require_retry, Generation, require_generation}
use ops_flow_ai.Review.Commands.{reset_if, retry_locked, retry_order}
use ops_flow_ai.Review.Authority.{or_conflict_inv, Matched, require_generation_inv, state_is}

-- A retry changes the state to the origin, and forgets the origin.
record Retried (o q : Order) : Type 0 where
  origin : OrderState
  was : o.failure_origin ≡ some origin
  result : q ≡ record o { state = origin; failure_origin = none }

retry_inv : (o q : Order) → retry o ≡ ok q → Retried o q
unfolding retry
retry_inv o q h = elim (Option-cases o.failure_origin) [
  | inl absent ↦ absurd (ground arith)
  | inr (s, present) ↦ record { origin = s; was = present; result = ground arith }
]

-- The order of a row that is not being synchronised goes back to where it failed.
restored-IsSound :
    {o : Order} {r : OrderSync} (s : OrderState)
    → IsSound o r
    → o.state ≡ failed_retryable
    → o.failure_origin ≡ some s
    → opt_eq state_eq o.failure_origin (some syncing) ≡ false
    → IsSound (record o { state = s; failure_origin = none }) r
unfolding origin_ok
restored-IsSound s k e f g = ground arith

audit_sound : (db : Db) (e : AuditEvent) → IsDbSound db → IsDbSound (insert_audit_event db e)
audit_sound db e s = record {
  distinct = subst (Distinct sync_key) (sym (audit_syncs db e)) s.distinct;
  sound = λ id o r a b.
      s.sound id o r (sym (get_order-insert_audit_event db e id) ∙ a)
        (sym (get_sync-insert_audit_event db e id) ∙ b);
}

unreset : (db1 db2 : Db) (id now : ℕ) → reset_if false db1 id now ≡ ok db2 → db1 ≡ db2
unfolding reset_if
unreset db1 db2 id now h = ok-injective h

module _ (db : Db) (sound : IsDbSound db) (p : PersistedOrder) (final : Order)
    (there : get_order db p.order.id ≡ some p) (failed : p.order.state ≡ failed_retryable)
    (r : Retried p.order final) where
  same_id : final.id ≡ p.order.id
  same_id = ap (λ o. o.id) r.result

  snapshot :
      (with_snapshot p final).order ≡ record p.order { state = r.origin; failure_origin = none }
  snapshot = ap (λ q. (with_snapshot p q).order) r.result

  -- An order that failed elsewhere: its row, if it has one, stays.
  elsewhere :
      (db1 : Db)
      → ((j : ℕ)
          → get_order db1 j
            ≡ (if final.id == j then some (with_snapshot p final) else get_order db j))
      → db1.syncs ≡ db.syncs
      → opt_eq state_eq p.order.failure_origin (some syncing) ≡ false
      → IsDbSound db1
  unfolding get_sync
  elsewhere db1 orders syncs other = record {
    distinct = subst (Distinct sync_key) (sym syncs) sound.distinct;
    sound = λ id o q found_order found_sync.
        let row : get_sync db id ≡ some q = ap (find sync_key id) (sym syncs) ∙ found_sync in
        let seen = orders id in
        elim (Bool-cases (final.id == id)) [
          | inr differs ↦ sound.sound id o q (ground arith) row
          | inl same ↦
              let this : with_snapshot p final ≡ o = ground arith in
              let before : get_order db id ≡ some p = ground (arith, same_id, there) in
              subst (λ x. IsSound x.order q) this
                (subst (λ x. IsSound x q) (sym snapshot)
                  (restored-IsSound r.origin (sound.sound id p q before row) failed r.was other))
        ];
  }

  -- An order that failed while syncing: its row starts a new generation of attempts.
  synchronisation :
      (db1 db2 : Db) (now : ℕ)
      → ((j : ℕ)
          → get_order db1 j
            ≡ (if final.id == j then some (with_snapshot p final) else get_order db j))
      → db1.syncs ≡ db.syncs
      → opt_eq state_eq p.order.failure_origin (some syncing) ≡ true
      → reset_if true db1 p.order.id now ≡ ok db2
      → IsDbSound db2
  unfolding reset_if reset_order_sync_for_retry get_sync
  synchronisation db1 db2 now orders syncs other h =
      elim (Option-cases (find sync_key p.order.id db1.syncs)) [
        | inl missing ↦ absurd (ground arith)
        | inr (q, row) ↦
            let row0 : get_sync db p.order.id ≡ some q =
              ap (find sync_key p.order.id) (sym syncs) ∙ row in
            let key : q.order_id ≡ p.order.id = get_sync_key db p.order.id row0 in
            let to_syncing : r.origin ≡ syncing =
              state_is r.origin syncing (ground (arith, r.was)) in
            let effect : Effect db (save_sync db1 (reset_row q now)) p (with_snapshot p final) q
                (reset_row q now) =
              saved-Effect db db1 p (with_snapshot p final) q (reset_row q now)
                (ap (get_order db) key ∙ there) (ap (get_sync db) key ∙ row0)
                (subst
                  (λ i.
                    (j : ℕ)
                    → get_order db1 j
                      ≡ (if i == j then some (with_snapshot p final) else get_order db j))
                  (same_id ∙ sym key) orders)
                syncs refl in
            let result : save_sync db1 (reset_row q now) ≡ db2 = ground arith in
            subst IsDbSound result (
              Effect-IsDbSound sound effect (λ k.
                subst (λ x. IsSound x (reset_row q now)) (sym snapshot)
                  (subst
                    (λ st.
                      IsSound (record p.order { state = st; failure_origin = none })
                        (reset_row q now))
                    (sym to_syncing) (reset-IsSound k now failed))))
      ]

  reset :
      (db1 db2 : Db) (now : ℕ)
      → ((j : ℕ)
          → get_order db1 j
            ≡ (if final.id == j then some (with_snapshot p final) else get_order db j))
      → db1.syncs ≡ db.syncs
      → reset_if (opt_eq state_eq p.order.failure_origin (some syncing)) db1 p.order.id now ≡ ok db2
      → IsDbSound db2
  reset db1 db2 now orders syncs h =
      elim (Bool-cases (opt_eq state_eq p.order.failure_origin (some syncing))) [
        | inl e ↦
            synchronisation db1 db2 now orders syncs e
              (subst (λ b. reset_if b db1 p.order.id now ≡ ok db2) e h)
        | inr e ↦
            subst IsDbSound
              (unreset db1 db2 p.order.id now
                (subst (λ b. reset_if b db1 p.order.id now ≡ ok db2) e h))
              (elsewhere db1 orders syncs e)
      ]

-- A committed retry leads from a sound database to a sound database, whether the order failed while
-- syncing or before.
pub retry_order-IsDbSound :
    (tag : Generation → String) (preflight db : Db) (seen revision : Option (ℕ × ℕ)) (id : ℕ)
    (if_match : Option String) (operator : OperatorContext) (recorded_at now event1 event2 : ℕ)
    {o' : Order} {db' : Db}
    → IsDbSound db
    → retry_order tag preflight seen db revision id if_match operator recorded_at now event1 event2
      ≡ ok (o', db')
    → IsDbSound db'
unfolding retry_order retry_locked
retry_order-IsDbSound tag preflight db seen revision id if_match operator recorded_at now event1
      event2 {o'} {db'} s h =
    let (u, allowed, h1) = >>=-eq-ok (require_retry operator) _ h in
    let (q, seen_it, h2) = >>=-eq-ok (require_generation tag preflight id seen if_match) _ h1 in
    let (p, locked, h3) =
      >>=-eq-ok (require_generation tag db id revision if_match) _ (or_conflict_inv _ h2) in
    let m : Matched tag db id revision if_match p =
      require_generation_inv tag db id revision if_match locked in
    let (v, failed, h4) =
      >>=-eq-ok (guard (state_eq p.order.state failed_retryable) invalid_review_state) _ h3 in
    let (w, again, h5) = >>=-eq-ok (require_retry operator) _ h4 in
    let (final, stepped, h6) = >>=-eq-ok (retry p.order) _ h5 in
    let (db1, written, h7) = >>=-eq-ok (update_order_snapshot db final) _ h6 in
    let (db2, done, h8) =
      >>=-eq-ok
        (reset_if (opt_eq state_eq p.order.failure_origin (some syncing)) db1 p.order.id now) _
        h7 in
    let there : get_order db p.order.id ≡ some p =
      ap (get_order db) (get_order_key db id m.there) ∙ m.there in
    let r : Retried p.order final = retry_inv p.order final stepped in
    let (db1', written', orders, syncs, _, _) = update_order_snapshot_lem db final (
      ap (get_order db) (
        same_id db s p final there
          (state_is p.order.state failed_retryable (guard-eq-ok _ _ failed)) r)
      ∙ there) in
    let same : db1' ≡ db1 = ok-injective (sym written' ∙ written) in
    let state = state_is p.order.state failed_retryable (guard-eq-ok _ _ failed) in
    let kept : IsDbSound db2 = reset db s p final there state r db1' db2 now orders syncs (
      subst
        (λ d.
          reset_if (opt_eq state_eq p.order.failure_origin (some syncing)) d p.order.id now
          ≡ ok db2)
        (sym same) done) in
    subst IsDbSound (ap (λ x. x.1) (ok-injective h8)) (audit_sound _ _ (audit_sound db2 _ kept))

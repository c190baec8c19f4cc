-- ===== src/Intake/Ownership.antt =====
-- The lease of an intake claim: `_recover_stale_ownership` of src/opsflow/orchestration/claims.py and
-- `require_current_intake_ownership` of src/opsflow/orchestration/ownership.py.
use ops_flow_ai.Base.{
  ℕ, ◌+◌, ◌-◌, ◌≤◌, ◌<◌, ◌≢◌, ◌≡◌, refl, true, false, none, some, List, arith, leb,
}
use Prim.Native.Nat.{max, min}
use ops_flow_ai.Domain.State.{OrderState}
use ops_flow_ai.Domain.Records.{AuditEvent}
use ops_flow_ai.Store.{PersistedOrder, seconds}
use ops_flow_ai.Intake.Kinds.{
  IntakeClaimKind, stand_down, recovery_kind, recover_stale_ownership, lease_seconds, ceil_seconds,
  is_recoverable_in_progress_history,
}

wait_enough :
    (t clock : ℕ)
    → clock < t
    → t ≤ clock + seconds lease_seconds
    → (1 ≤ max 1 (min (ceil_seconds (t - clock)) lease_seconds))
      × (max 1 (min (ceil_seconds (t - clock)) lease_seconds) ≤ lease_seconds)
      × (t ≤ clock + seconds (max 1 (min (ceil_seconds (t - clock)) lease_seconds)))
wait_enough t clock h k = (ground arith, ground arith, ground arith)

recovery_grants : (s : OrderState) → recovery_kind s ≢ stand_down
recovery_grants s h = ground arith

-- Where an order in progress is owned, its history is recoverable and its lease is the 210 seconds of
-- the code or less, a caller is told to stand down and wait 1 to 210 seconds exactly while the lease
-- runs, and that wait ends after it; from the expiry on the claim recovers.
pub retry_after_is_enough :
    (p : PersistedOrder) (events : List AuditEvent) (clock token t : ℕ)
    → p.intake_claim_token ≡ some token
    → p.intake_claim_expires_at ≡ some t
    → t ≤ clock + seconds lease_seconds
    → is_recoverable_in_progress_history p.order.state events ≡ true
    → (clock < t
        → (d : ℕ) × (recover_stale_ownership p events clock ≡ (stand_down, some d))
          × (1 ≤ d)
          × (d ≤ 210)
          × (t ≤ clock + seconds d))
      × (t ≤ clock
          → (kind : IntakeClaimKind) × (kind ≢ stand_down)
            × (recover_stale_ownership p events clock ≡ (kind, none)))
unfolding recover_stale_ownership
retry_after_is_enough p events clock token t owned expires bound recoverable = (
  λ running.
      let (least, most, enough) = wait_enough t clock running bound in
      let still : leb t clock ≡ false = ground arith in
      (
        max 1 (min (ceil_seconds (t - clock)) lease_seconds),
        rw (recoverable, owned, expires, still) refl,
        least,
        most,
        enough,
      ),
  λ over.
      let late : leb t clock ≡ true = ground arith in
      (
        recovery_kind p.order.state,
        recovery_grants p.order.state,
        rw (recoverable, owned, expires, late) refl,
      ),
)

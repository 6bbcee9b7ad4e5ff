-- ===== src/Allocation/Transitions.antt =====
-- The state machine in the comment above PortAllocationReconciler, as a property of the trace.
pub mod Handlers
pub mod Machine
pub mod Teardown
use alibaba_cloud_nlb_pool_o.Base.{[], ◌∷◌, ◌≡◌, ◌⊎◌, inl}
use alibaba_cloud_nlb_pool_o.Types.{
  PaPhase, unset, provisioning, available, binding, bound, releasing, disabled, deleting, other,
  PortAllocation,
}
use alibaba_cloud_nlb_pool_o.World.{
  Call, update_pa_status, update_pa, get_pa, patch_pa, patch_pa_status, Exchange, exchange, Trace,
  Env, Result, ok, err, Proc, request,
}
use alibaba_cloud_nlb_pool_o.World.Keeps.{Keeps}
use alibaba_cloud_nlb_pool_o.World.Only.{Only, Frame, IsQuiet, Only-mono}

-- the edges of the machine, with the aborts and the deletion
pub data Edge : PaPhase → PaPhase → Type 0 where
  initialized : Edge unset provisioning
  filled : Edge provisioning provisioning
  provisioned : Edge provisioning available
  claimed : Edge available binding
  added : Edge binding bound
  aborted : Edge binding releasing
  released : Edge bound releasing
  switched_off : Edge bound disabled
  switched_on : Edge disabled binding
  pod_lost : Edge disabled releasing
  emptied : Edge releasing available
  removed : {p : PaPhase} → Edge p deleting

-- the server has handed back an allocation in the phase `q`
abbrev pub HandsBack : PaPhase → Exchange → Type 0
HandsBack q (exchange (update_pa pa) (ok pa')) = pa'.status.phase ≡ q
HandsBack q (exchange (update_pa_status pa) (ok pa')) = pa'.status.phase ≡ q
HandsBack q (exchange (get_pa k) (ok pa')) = pa'.status.phase ≡ q
HandsBack q (exchange (patch_pa pa) (ok pa')) = pa'.status.phase ≡ q
HandsBack q (exchange (patch_pa_status pa s) (ok pa')) = pa'.status.phase ≡ q
HandsBack q _ = ⊥

abbrev pub Seen : PaPhase → Trace → Type 0
Seen q [] = ⊥
Seen q (x ∷ t) = HandsBack q x ⊎ Seen q t

-- a status write goes along an edge from `p`, or writes a phase that the server had handed back
abbrev pub IsStep : PaPhase → Exchange → Trace → Type 0
IsStep p (exchange (update_pa_status pa) r) t = Edge p pa.status.phase ⊎ Seen pa.status.phase t
IsStep p _ t = Unit

abbrev pub Steps : PaPhase → Trace → Type 0
Steps p [] = Unit
Steps p (x ∷ t) = IsStep p x t × Steps p t

-- The calls that write no status keep `Steps`.
abbrev pub WritesNoStatus : Call → Type 0
WritesNoStatus (update_pa_status pa) = ⊥
WritesNoStatus _ = Unit

pub quiet→no_status : (c : Call) → IsQuiet c → WritesNoStatus c
quiet→no_status (update_pa_status pa) h = h
quiet→no_status _ h = tt

pub step_of_no_status : (p : PaPhase) → Frame WritesNoStatus (Steps p)
step_of_no_status p (update_pa_status pa) r t k h = elim k [ ]
step_of_no_status p _ r t k h = (tt, h)

pub no_status-Steps :
    {A : Type 0} {m : Proc A} (p : PaPhase) → Only WritesNoStatus m → Keeps (Steps p) m
no_status-Steps p o = o.keeps (Steps p) (step_of_no_status p)

pub quiet-Steps : {A : Type 0} {m : Proc A} (p : PaPhase) → Only IsQuiet m → Keeps (Steps p) m
quiet-Steps p o = no_status-Steps p (Only-mono quiet→no_status o)

-- A status write along an edge keeps `Steps`.
pub write_status-Steps :
    (p : PaPhase) (pa : PortAllocation)
    → Edge p pa.status.phase
    → Keeps {A = Result PortAllocation} (Steps p) (request (update_pa_status pa))
unfolding request
write_status-Steps p pa e = record { at = λ env t h. (inl e, h) }

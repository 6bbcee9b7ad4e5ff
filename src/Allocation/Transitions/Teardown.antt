-- ===== src/Allocation/Transitions/Teardown.antt =====
-- The status writes of handleDeletion.
use alibaba_cloud_nlb_pool_o.Base.{
  ℕ, zero, suc, Bool, true, false, List, ◌∷◌, ◌≡◌, refl, inl, inr, ◌⊎◌, sym, not, ◌==◌, arith,
}
use alibaba_cloud_nlb_pool_o.Types.{
  PaPhase, deleting, is_deleting, PortAllocation, ListenerCloudStatus, ServerGroupCloudStatus,
}
use mathlib.Core.Path.{subst}
use alibaba_cloud_nlb_pool_o.World.{
  GoError, Trace, Result, ok, err, Proc, ◌>>=◌, request, pure, out_of_fuel, finish, asks,
  or_requeue, done, on_err, on_none, or_keep, exchange, update_pa_status, update_pa,
}
use alibaba_cloud_nlb_pool_o.World.Keeps.{Keeps, Keeps-bind, Keeps-if, Keeps-asks, Keeps-finish}
use alibaba_cloud_nlb_pool_o.World.Meets.{
  Meets, Meets-Keeps, Meets-pure, Meets-bind, Meets-if, Meets-finish, Meets-out_of_fuel,
  Meets-on_empty, Keeps-Meets, Meets-weaken,
}
use alibaba_cloud_nlb_pool_o.Allocation.Provision.{back_off}
use alibaba_cloud_nlb_pool_o.Allocation.Helpers.{remove_all_servers, clear_pod_claim}
use alibaba_cloud_nlb_pool_o.World.Only.{Only, Frame, IsQuiet, Only-mono, only_rules}
use alibaba_cloud_nlb_pool_o.World.Requests.{request_rules}
use alibaba_cloud_nlb_pool_o.Allocation.Deletion.{
  try_write_status, verify_listener, verify_listeners, delete_group, delete_groups, mark_deleting,
  unbind, erase_cloud, drop_finalizer, handle_deletion,
}
use alibaba_cloud_nlb_pool_o.Allocation.Calls
use alibaba_cloud_nlb_pool_o.Allocation.Transitions.{
  Edge, Seen, Steps, removed, WritesNoStatus, quiet→no_status, step_of_no_status,
}

-- The allocation in memory may be written: its phase is Deleting or was handed back.
abbrev Writable : PaPhase → PaPhase → Trace → Type 0
Writable p q t = Steps p t × (Edge p q ⊎ Seen q t)

module _ (p q : PaPhase) where
  writable_of_no_status : Frame WritesNoStatus (Writable p q)
  writable_of_no_status c r t k (steps, inl e) = (step_of_no_status p c r t k steps, inl e)
  writable_of_no_status c r t k (steps, inr s) = (step_of_no_status p c r t k steps, inr (inr s))

  leave : (t : Trace) → Writable p q t → Steps p t
  leave t h = h.0

  stay :
      {A : Type 0} {m : Proc A}
      → Only WritesNoStatus m
      → Meets (Writable p q) m (λ _. Writable p q) (Steps p)
  stay o = Meets-Keeps leave (o.keeps (Writable p q) writable_of_no_status)

  stay_then :
      {A B : Type 0} {Q : B → Trace → Type 0} (m : Proc A) (f : A → Proc B)
      → Only IsQuiet m
      → ((a : A) → Meets (Writable p q) (f a) Q (Steps p))
      → Meets (Writable p q) (m >>= f) Q (Steps p)
  stay_then m f o k = Meets-bind m f (stay (Only-mono quiet→no_status o)) k

module _ (p : PaPhase) where
  written :
      (pa : PortAllocation) (r : Result PortAllocation) (t : Trace)
      → Writable p pa.status.phase t
      → Writable p (or_keep pa r).status.phase (exchange (update_pa_status pa) r ∷ t)
  written pa (ok pa') t (steps, w) = ((w, steps), inr (inl refl))
  written pa (err e) t (steps, inl e') = ((inl e', steps), inl e')
  written pa (err e) t (steps, inr s) = ((inr s, steps), inr (inr s))

  replaced :
      (pa : PortAllocation) (r : Result PortAllocation) (t : Trace)
      → Writable p pa.status.phase t
      → Writable p (or_keep pa r).status.phase (exchange (update_pa pa) r ∷ t)
  replaced pa (ok pa') t (steps, w) = ((tt, steps), inr (inl refl))
  replaced pa (err e) t (steps, inl e') = ((tt, steps), inl e')
  replaced pa (err e) t (steps, inr s) = ((tt, steps), inr (inr s))

abbrev PaWritable : PaPhase → PortAllocation → Trace → Type 0
PaWritable p pa = Writable p pa.status.phase

module _ (p : PaPhase) (pa : PortAllocation) where
  try_write_status-Writable :
      Meets (Writable p pa.status.phase) (try_write_status pa) (PaWritable p) (Steps p)
  unfolding try_write_status ◌>>=◌ request pure
  try_write_status-Writable = record {
    at = λ env t h. written p pa (env.respond t (update_pa_status pa)) t h;
  }

deleting_phase : (q : PaPhase) → is_deleting q ≡ true → q ≡ deleting
deleting_phase q h = ground arith

doubly_negated : (b : Bool) → not b ≡ false → b ≡ true
doubly_negated b h = ground arith

module _ (p : PaPhase) (pa : PortAllocation) where
  deleting-Writable : (q : PaPhase) → q ≡ deleting → (t : Trace) → Steps p t → Writable p q t
  deleting-Writable q e t h = (h, inl (subst (Edge p) (sym e) removed))

  mark_deleting-Writable : Meets (Steps p) (mark_deleting pa) (PaWritable p) (Steps p)
  unfolding mark_deleting
  mark_deleting-Writable =
      Meets-if (not (is_deleting pa.status.phase)) (try_write_status _) (pure pa)
        (λ e. Meets-weaken (deleting-Writable deleting refl) (try_write_status-Writable p _))
        (λ e.
          Meets-pure pa (
            deleting-Writable pa.status.phase
              (deleting_phase pa.status.phase (doubly_negated _ e))))

  update_pa-Writable :
      Meets {A = Result PortAllocation}
        (Writable p pa.status.phase)
        (request (update_pa pa))
        (λ r. PaWritable p (or_keep pa r))
        (Steps p)
  unfolding request
  update_pa-Writable = record { at = λ env t h. replaced p pa (env.respond t (update_pa pa)) t h }

update_then-Writable :
    (p : PaPhase) (pa : PortAllocation)
    → Meets
        (Writable p pa.status.phase)
        (request (update_pa pa) >>= (λ written. pure (or_keep pa written)))
        (PaWritable p)
        (Steps p)
update_then-Writable p pa =
    Meets-bind _ _ (update_pa-Writable p pa) λ r. Meets-pure (or_keep pa r) (λ t h. h)

unbind-Writable :
    (p : PaPhase) (pa : PortAllocation)
    → Meets (Writable p pa.status.phase) (unbind pa) (PaWritable p) (Steps p)
unfolding unbind
unbind-Writable p pa =
    Meets-if (pa.spec.bound_pod_ip == "") (pure pa) _ (λ _. Meets-pure pa (λ t h. h))
      λ _.
        stay_then p pa.status.phase (remove_all_servers pa) _ (Calls.remove_all_servers-IsQuiet pa)
          λ failure.
            stay_then p pa.status.phase _ _ (search (only_rules, request_rules) depth 8) λ _.
              stay_then p pa.status.phase (clear_pod_claim pa) _ (Calls.clear_pod_claim-IsQuiet pa)
                λ _. update_then-Writable p _

module _ (p : PaPhase) (pa : PortAllocation) where
  back_off-Writable :
      (e : GoError) {R : Trace → Type 0}
      → ((t : Trace) → R t → Steps p t)
      → Meets {A = PortAllocation} R (back_off e) (PaWritable p) (Steps p)
  unfolding back_off
  back_off-Writable e k = search (Meets-if, Meets-finish)

  verify_listener-Writable :
      (lsn : ListenerCloudStatus) (rest : List ListenerCloudStatus)
      → Meets (Writable p pa.status.phase) (verify_listener pa lsn rest) (PaWritable p) (Steps p)
  unfolding verify_listener try_write_status ◌>>=◌ request pure on_err on_none back_off finish
  verify_listener-Writable lsn rest = record { at = λ env t h. ground arith }

  delete_group-Writable :
      (sg : ServerGroupCloudStatus) (rest : List ServerGroupCloudStatus)
      → Meets (Writable p pa.status.phase) (delete_group pa sg rest) (PaWritable p) (Steps p)
  unfolding delete_group try_write_status ◌>>=◌ request pure on_err on_none back_off finish
  delete_group-Writable sg rest = record { at = λ env t h. ground arith }

  drop_finalizer-Writable :
      Meets (Writable p pa.status.phase) (drop_finalizer pa) (λ _. Steps p) (Steps p)
  unfolding drop_finalizer ◌>>=◌ request asks or_requeue pure finish
  drop_finalizer-Writable = record { at = λ env t h. ground arith }

verify_listeners-Writable :
    (p : PaPhase) (fuel : ℕ) (pa : PortAllocation)
    → Meets (Writable p pa.status.phase) (verify_listeners fuel pa) (PaWritable p) (Steps p)
unfolding verify_listeners
verify_listeners-Writable p zero pa =
    Meets-on_empty pa.status.listeners (pure pa) (λ lsn rest. out_of_fuel)
      (λ _. Meets-pure pa (λ t h. h)) λ _ _ _. Meets-out_of_fuel (leave p pa.status.phase)
verify_listeners-Writable p (suc fuel) pa =
    Meets-on_empty pa.status.listeners (pure pa)
      (λ lsn rest. verify_listener pa lsn rest >>= verify_listeners fuel)
      (λ _. Meets-pure pa (λ t h. h))
      λ lsn rest _.
        Meets-bind (verify_listener pa lsn rest) (verify_listeners fuel)
          (verify_listener-Writable p pa lsn rest) (verify_listeners-Writable p fuel)

delete_groups-Writable :
    (p : PaPhase) (fuel : ℕ) (pa : PortAllocation)
    → Meets (Writable p pa.status.phase) (delete_groups fuel pa) (PaWritable p) (Steps p)
unfolding delete_groups
delete_groups-Writable p zero pa =
    Meets-on_empty pa.status.server_groups (pure pa) (λ sg rest. out_of_fuel)
      (λ _. Meets-pure pa (λ t h. h)) λ _ _ _. Meets-out_of_fuel (leave p pa.status.phase)
delete_groups-Writable p (suc fuel) pa =
    Meets-on_empty pa.status.server_groups (pure pa)
      (λ sg rest. delete_group pa sg rest >>= delete_groups fuel) (λ _. Meets-pure pa (λ t h. h))
      λ sg rest _.
        Meets-bind (delete_group pa sg rest) (delete_groups fuel)
          (delete_group-Writable p pa sg rest) (delete_groups-Writable p fuel)

erase_cloud-Writable :
    (p : PaPhase) (fuel : ℕ) (pa : PortAllocation)
    → Meets (Writable p pa.status.phase) (erase_cloud fuel pa) (PaWritable p) (Steps p)
unfolding erase_cloud
erase_cloud-Writable p fuel pa =
    Meets-bind (verify_listeners fuel pa) _ (verify_listeners-Writable p fuel pa)
      λ pa. delete_groups-Writable p fuel _

pub handle_deletion-Steps :
    (p : PaPhase) (fuel : ℕ) (pa : PortAllocation) → Keeps (Steps p) (handle_deletion fuel pa)
unfolding handle_deletion
handle_deletion-Steps p fuel pa = Keeps-bind (asks _) _ (Keeps-asks _) λ held.
    Keeps-if (not held) (finish done) _ (λ _. Keeps-finish done)
      λ _.
        Keeps-Meets (λ _ t h. h)
          (Meets-bind (mark_deleting pa) _ (mark_deleting-Writable p pa) λ pa.
            Meets-bind (unbind pa) _ (unbind-Writable p pa) λ pa.
              Meets-bind (erase_cloud fuel pa) drop_finalizer (erase_cloud-Writable p fuel pa)
                (drop_finalizer-Writable p))

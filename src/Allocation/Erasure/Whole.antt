-- ===== src/Allocation/Erasure/Whole.antt =====
-- Steps 2 and 3 of handleDeletion together.
use alibaba_cloud_nlb_pool_o.Base.{ℕ, List, [], ◌∷◌, All, length, ◌≡◌, sym, ◌∙◌, ◌≤◌}
use mathlib.Core.Path.{subst}
use alibaba_cloud_nlb_pool_o.Types.{PortAllocation, ListenerCloudStatus}
use alibaba_cloud_nlb_pool_o.World.{Trace, Env, ◌>>=◌}
use alibaba_cloud_nlb_pool_o.World.Only.{Frame}
use alibaba_cloud_nlb_pool_o.Allocation.Deletion.{
  verify_listeners, delete_groups, with_no_listener_counts, erase_cloud,
}
use alibaba_cloud_nlb_pool_o.Allocation.Erasure.{Ends, Ends-bind, Ends-also, Ends-map, Echoes}
use alibaba_cloud_nlb_pool_o.Allocation.Erasure.Listeners.{
  ListenerGone, later_gone, verify_listeners_lem,
}
use alibaba_cloud_nlb_pool_o.Allocation.Erasure.Groups.{
  GroupGone, delete_groups-Anything, delete_groups_lem,
}

All-ListenerGone :
    (ls : List ListenerCloudStatus) → Frame (λ _. Unit) (λ t. All (λ lsn. ListenerGone lsn t) ls)
All-ListenerGone [] c r t k h = tt
All-ListenerGone (lsn ∷ ls) c r t k (h, hs) =
    (later_gone lsn c r t k h, All-ListenerGone ls c r t k hs)

module _ (env : Env) (echoes : Echoes env) where
  -- Where a status write answers with the status written, and the fuel covers the listeners and the
  -- server groups of the status, steps 2 and 3 of handleDeletion neither panic nor run out of fuel; where
  -- they fall through to the removal of the finalizer, the status has no listener and no server group
  -- left, the cloud has answered that it does not know each listener that had an id, and has deleted each
  -- server group that had an id or answered that it does not know it.
  pub erase_cloud_lem :
      (fuel : ℕ) (pa : PortAllocation) (t : Trace)
      → length pa.status.listeners ≤ fuel
      → length pa.status.server_groups ≤ fuel
      → Ends
          (λ pa' t'.
            (pa'.status.listeners ≡ [])
            × (pa'.status.server_groups ≡ [])
            × All (λ lsn. ListenerGone lsn t') pa.status.listeners
            × All (λ sg. GroupGone sg t') pa.status.server_groups)
          (erase_cloud fuel pa env t)
  unfolding erase_cloud ◌>>=◌
  erase_cloud_lem fuel pa t hl hg =
      Ends-bind _ _ (verify_listeners fuel pa env t) _ env
        (verify_listeners_lem env echoes fuel pa t hl)
        λ pa' t' gone.
          Ends-map _ _ (delete_groups fuel (with_no_listener_counts pa') env t')
            (λ pa'' t'' r.
              (r.0.1 ∙ gone.0, r.0.0, r.1, subst (All (λ sg. GroupGone sg t'')) gone.1 r.0.2))
            (Ends-also _ (λ t. All (λ lsn. ListenerGone lsn t) pa.status.listeners)
              (delete_groups fuel (with_no_listener_counts pa') env t')
              (delete_groups_lem env echoes fuel (with_no_listener_counts pa') t'
                (subst (λ gs. length gs ≤ fuel) (sym gone.1) hg))
              (((delete_groups-Anything fuel (with_no_listener_counts pa')).keeps _
                  (All-ListenerGone pa.status.listeners)).at
                env t' gone.2))

-- ===== src/Allocation/Erasure/Groups.antt =====
-- The second loop of handleDeletion, over the server groups of the status.
use alibaba_cloud_nlb_pool_o.Base.{
  ℕ, zero, suc, String, true, List, [], ◌∷◌, All, length, none, some, ◌≡◌, refl, inl, inr, ◌⊎◌, sym,
  ap, ◌∙◌, ◌==◌, ◌≤◌, arith,
}
use alibaba_cloud_nlb_pool_o.Types.{PortAllocation, ServerGroupCloudStatus}
use alibaba_cloud_nlb_pool_o.World.{
  delete_server_group, Exchange, exchange, Trace, Env, ◌>>=◌, request, pure, finish, on_err,
  on_none, out_of_fuel,
}
use alibaba_cloud_nlb_pool_o.World.Keeps.{Once}
use alibaba_cloud_nlb_pool_o.World.Only.{
  Only, Frame, Only-pure, Only-out_of_fuel, Only-bind, Only-on_empty, only_rules,
}
use alibaba_cloud_nlb_pool_o.World.Requests.{request_rules}
use mathlib.Core.Path.{subst}
use alibaba_cloud_nlb_pool_o.Provider.{is_not_found_error}
use alibaba_cloud_nlb_pool_o.Allocation.Provision.{back_off}
use alibaba_cloud_nlb_pool_o.Allocation.Deletion.{
  with_groups, try_write_status, delete_group, delete_groups,
}
use alibaba_cloud_nlb_pool_o.Allocation.Erasure.{
  Ends, Ends-bind, Ends-also, Ends-map, Ends-on_empty, Echoes, kept_status, none_left, one_less,
}

-- the cloud has deleted the server group `id`, or does not know it
abbrev pub ConfirmsDeleted : String → Exchange → Type 0
ConfirmsDeleted id (exchange (delete_server_group id') none) = id' ≡ id
ConfirmsDeleted id (exchange (delete_server_group id') (some e)) =
    (id' ≡ id) × (is_not_found_error (some e) ≡ true)
ConfirmsDeleted id _ = ⊥

abbrev pub GroupGone : ServerGroupCloudStatus → Trace → Type 0
GroupGone sg t = ((sg.server_group_id == "") ≡ true) ⊎ Once (ConfirmsDeleted sg.server_group_id) t

delete_group-Anything :
    (pa : PortAllocation) (sg : ServerGroupCloudStatus) (rest : List ServerGroupCloudStatus)
    → Only (λ _. Unit) (delete_group pa sg rest)
unfolding delete_group try_write_status back_off
delete_group-Anything pa sg rest = search (only_rules, request_rules) depth 10

pub delete_groups-Anything :
    (fuel : ℕ) (pa : PortAllocation) → Only (λ _. Unit) (delete_groups fuel pa)
unfolding delete_groups
delete_groups-Anything zero pa =
    Only-on_empty pa.status.server_groups _ _ (Only-pure pa) (λ _ _. Only-out_of_fuel)
delete_groups-Anything (suc fuel) pa =
    Only-on_empty pa.status.server_groups _ _ (Only-pure pa) λ sg rest.
      Only-bind (delete_group pa sg rest) _ (delete_group-Anything pa sg rest)
        (delete_groups-Anything fuel)

later_gone : (sg : ServerGroupCloudStatus) → Frame (λ _. Unit) (GroupGone sg)
later_gone sg c r t k (inl h) = inl h
later_gone sg c r t k (inr h) = inr (inr h)

module _ (env : Env) (echoes : Echoes env) where
  delete_group_lem :
      (pa : PortAllocation) (sg : ServerGroupCloudStatus) (rest : List ServerGroupCloudStatus)
      (t : Trace)
      → Ends
          (λ pa' t'. (pa'.status ≡ (with_groups rest pa).status) × GroupGone sg t')
          (delete_group pa sg rest env t)
  unfolding delete_group try_write_status ◌>>=◌ request pure on_err on_none back_off finish
  delete_group_lem pa sg rest t = ground (
    arith,
    kept_status env echoes
        (exchange (delete_server_group sg.server_group_id)
            (env.respond t (delete_server_group sg.server_group_id))
          ∷ t)
        (with_groups rest pa),
  )

  -- Where a status write answers with the status written, and there is fuel for every server group of
  -- the status, the second loop of handleDeletion neither panics nor runs out of fuel; where it falls
  -- through, the status has no server group left, its listeners are untouched, and each server group had
  -- no id, or the cloud has deleted it or answered that it does not know it.
  pub delete_groups_lem :
      (fuel : ℕ) (pa : PortAllocation) (t : Trace)
      → length pa.status.server_groups ≤ fuel
      → Ends
          (λ pa' t'.
            (pa'.status.server_groups ≡ [])
            × (pa'.status.listeners ≡ pa.status.listeners)
            × All (λ sg. GroupGone sg t') pa.status.server_groups)
          (delete_groups fuel pa env t)
  unfolding delete_groups ◌>>=◌ pure out_of_fuel
  delete_groups_lem zero pa t h =
      Ends-on_empty _ pa.status.server_groups _ _ env t
        (λ e. (e, refl, subst (All (λ sg. GroupGone sg t)) (sym e) tt))
        λ sg rest e. none_left sg rest (subst (λ ls. length ls ≤ 0) e h)
  delete_groups_lem (suc fuel) pa t h =
      Ends-on_empty _ pa.status.server_groups _ _ env t
        (λ e. (e, refl, subst (All (λ sg. GroupGone sg t)) (sym e) tt))
        λ sg rest e.
          Ends-bind _ _ (delete_group pa sg rest env t) (delete_groups fuel) env
            (delete_group_lem pa sg rest t)
            λ pa' t' kept.
              let same = ap (λ s. s.server_groups) kept.0 in
              let listeners = ap (λ s. s.listeners) kept.0 in
              Ends-map _ _ (delete_groups fuel pa' env t')
                (λ pa'' t'' r. (
                  r.0.0,
                  r.0.1 ∙ listeners,
                  subst (All (λ sg. GroupGone sg t'')) (sym e)
                      (r.1, subst (All (λ sg. GroupGone sg t'')) same r.0.2),
                ))
                (Ends-also _ (GroupGone sg) (delete_groups fuel pa' env t')
                  (delete_groups_lem fuel pa' t'
                    (one_less sg (subst (λ ls. length ls ≤ suc fuel) e h) same))
                  (((delete_groups-Anything fuel pa').keeps (GroupGone sg) (later_gone sg)).at env
                    t' kept.1))

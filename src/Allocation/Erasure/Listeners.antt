-- ===== src/Allocation/Erasure/Listeners.antt =====
-- The first loop of handleDeletion, over the listeners of the status.
use alibaba_cloud_nlb_pool_o.Base.{
  ℕ, zero, suc, String, true, List, [], ◌∷◌, All, length, none, some, ◌≡◌, refl, inl, inr, ◌⊎◌, sym,
  ap, ◌∙◌, ◌==◌, ◌≤◌, arith,
}
use alibaba_cloud_nlb_pool_o.Types.{PortAllocation, ListenerCloudStatus}
use alibaba_cloud_nlb_pool_o.World.{
  get_listener_attribute, Exchange, exchange, Trace, Env, ok, err, ◌>>=◌, request, pure, finish,
  on_err, on_none, out_of_fuel,
}
use alibaba_cloud_nlb_pool_o.World.Keeps.{Once}
use alibaba_cloud_nlb_pool_o.World.Only.{
  Only, Frame, Only-pure, Only-out_of_fuel, Only-bind, Only-on_empty, only_rules,
}
use alibaba_cloud_nlb_pool_o.World.Requests.{request_rules}
use mathlib.Core.Path.{subst}
use alibaba_cloud_nlb_pool_o.Provider.{is_not_found_error}
use alibaba_cloud_nlb_pool_o.Allocation.Provision.{back_off}
use alibaba_cloud_nlb_pool_o.Allocation.Deletion.{
  with_listeners, try_write_status, verify_listener, verify_listeners,
}
use alibaba_cloud_nlb_pool_o.Allocation.Erasure.{
  Ends, Ends-bind, Ends-also, Ends-map, Ends-on_empty, Echoes, kept_status, none_left, one_less,
}

-- the cloud has answered that it does not know the listener `id`
abbrev pub ConfirmsGone : String → Exchange → Type 0
ConfirmsGone id (exchange (get_listener_attribute id') (ok none)) = id' ≡ id
ConfirmsGone id (exchange (get_listener_attribute id') (err e)) =
    (id' ≡ id) × (is_not_found_error (some e) ≡ true)
ConfirmsGone id _ = ⊥

abbrev pub ListenerGone : ListenerCloudStatus → Trace → Type 0
ListenerGone lsn t = ((lsn.listener_id == "") ≡ true) ⊎ Once (ConfirmsGone lsn.listener_id) t

verify_listener-Anything :
    (pa : PortAllocation) (lsn : ListenerCloudStatus) (rest : List ListenerCloudStatus)
    → Only (λ _. Unit) (verify_listener pa lsn rest)
unfolding verify_listener try_write_status back_off
verify_listener-Anything pa lsn rest = search (only_rules, request_rules) depth 10

verify_listeners-Anything :
    (fuel : ℕ) (pa : PortAllocation) → Only (λ _. Unit) (verify_listeners fuel pa)
unfolding verify_listeners
verify_listeners-Anything zero pa =
    Only-on_empty pa.status.listeners _ _ (Only-pure pa) (λ _ _. Only-out_of_fuel)
verify_listeners-Anything (suc fuel) pa =
    Only-on_empty pa.status.listeners _ _ (Only-pure pa) λ lsn rest.
      Only-bind (verify_listener pa lsn rest) _ (verify_listener-Anything pa lsn rest)
        (verify_listeners-Anything fuel)

pub later_gone : (lsn : ListenerCloudStatus) → Frame (λ _. Unit) (ListenerGone lsn)
later_gone lsn c r t k (inl h) = inl h
later_gone lsn c r t k (inr h) = inr (inr h)

module _ (env : Env) (echoes : Echoes env) where
  verify_listener_lem :
      (pa : PortAllocation) (lsn : ListenerCloudStatus) (rest : List ListenerCloudStatus)
      (t : Trace)
      → Ends
          (λ pa' t'. (pa'.status ≡ (with_listeners rest pa).status) × ListenerGone lsn t')
          (verify_listener pa lsn rest env t)
  unfolding verify_listener try_write_status ◌>>=◌ request pure on_err on_none back_off finish
  verify_listener_lem pa lsn rest t = ground (
    arith,
    kept_status env echoes
        (exchange (get_listener_attribute lsn.listener_id)
            (env.respond t (get_listener_attribute lsn.listener_id))
          ∷ t)
        (with_listeners rest pa),
  )

  -- Where a status write answers with the status written, and there is fuel for every listener of the
  -- status, the first loop of handleDeletion neither panics nor runs out of fuel; where it falls
  -- through, the status has no listener left, its server groups are untouched, and each listener had no
  -- id or was answered by the cloud as unknown.
  pub verify_listeners_lem :
      (fuel : ℕ) (pa : PortAllocation) (t : Trace)
      → length pa.status.listeners ≤ fuel
      → Ends
          (λ pa' t'.
            (pa'.status.listeners ≡ [])
            × (pa'.status.server_groups ≡ pa.status.server_groups)
            × All (λ lsn. ListenerGone lsn t') pa.status.listeners)
          (verify_listeners fuel pa env t)
  unfolding verify_listeners ◌>>=◌ pure out_of_fuel
  verify_listeners_lem zero pa t h =
      Ends-on_empty _ pa.status.listeners _ _ env t
        (λ e. (e, refl, subst (All (λ lsn. ListenerGone lsn t)) (sym e) tt))
        λ lsn rest e. none_left lsn rest (subst (λ ls. length ls ≤ 0) e h)
  verify_listeners_lem (suc fuel) pa t h =
      Ends-on_empty _ pa.status.listeners _ _ env t
        (λ e. (e, refl, subst (All (λ lsn. ListenerGone lsn t)) (sym e) tt))
        λ lsn rest e.
          Ends-bind _ _ (verify_listener pa lsn rest env t) (verify_listeners fuel) env
            (verify_listener_lem pa lsn rest t)
            λ pa' t' kept.
              let same = ap (λ s. s.listeners) kept.0 in
              let groups = ap (λ s. s.server_groups) kept.0 in
              Ends-map _ _ (verify_listeners fuel pa' env t')
                (λ pa'' t'' r. (
                  r.0.0,
                  r.0.1 ∙ groups,
                  subst (All (λ lsn. ListenerGone lsn t'')) (sym e)
                      (r.1, subst (All (λ lsn. ListenerGone lsn t'')) same r.0.2),
                ))
                (Ends-also _ (ListenerGone lsn) (verify_listeners fuel pa' env t')
                  (verify_listeners_lem fuel pa' t'
                    (one_less lsn (subst (λ ls. length ls ≤ suc fuel) e h) same))
                  (((verify_listeners-Anything fuel pa').keeps (ListenerGone lsn)
                      (later_gone lsn)).at
                    env t' kept.1))

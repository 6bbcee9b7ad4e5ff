-- ===== src/Pool/Legacy.antt =====
-- Functions of the pool controller that nothing calls any more: deleteAllChildren and the builders of the
-- older ServerGroup and Listener objects.
use alibaba_cloud_nlb_pool_o.Base.{String, List, [], ◌∷◌, Option, some, ℤ, map, show_ℤ}
use alibaba_cloud_nlb_pool_o.Types.{
  label_pool, label_slot, label_port, label_lane, NlbPool, LaneConfig, PortConfig, ServerGroup,
  Listener,
}
use alibaba_cloud_nlb_pool_o.World.{
  Kind, list_nlbs, GoError, wrapped, Proc, ◌>>=◌, pure, request, on_err, on_none,
}
use alibaba_cloud_nlb_pool_o.Pool.Builders.{new_meta}
use alibaba_cloud_nlb_pool_o.Pool.Deletion.{
  pool_selector, delete_controlled, delete_listeners, delete_server_groups, delete_eips,
  delete_port_allocations,
}

-- step 5 of deleteAllChildren
unfoldable pub delete_all_nlbs : NlbPool → Proc (Option GoError)
unfolding delete_controlled
delete_all_nlbs pool = do
  listed ← request (list_nlbs pool.metadata.namespace (pool_selector pool))
  on_err listed (λ e. pure (some (wrapped "list NLBs" e)))
      λ items. delete_controlled pool Kind.nlbs "NLB" (map (λ nlb. nlb.metadata) items)

-- the steps in order; an error ends them
unfoldable pub one_by_one : List (Proc (Option GoError)) → Proc (Option GoError)
one_by_one [] = pure Option.none
one_by_one (step ∷ steps) = do failure ← step; on_none failure (one_by_one steps) λ e. pure (some e)

-- deleteAllChildren
unfoldable pub delete_all_children : NlbPool → Proc (Option GoError)
unfolding delete_port_allocations delete_listeners delete_server_groups delete_eips delete_all_nlbs
    one_by_one
delete_all_children pool = one_by_one (
    delete_port_allocations pool
    ∷ delete_listeners pool
    ∷ delete_server_groups pool
    ∷ delete_eips pool
    ∷ delete_all_nlbs pool
    ∷ [])

-- buildServerGroupCR
unfoldable pub build_server_group : NlbPool → ℤ → PortConfig → String → ServerGroup
build_server_group pool slot_idx port sg_name = record {
  metadata = new_meta sg_name pool.metadata.namespace (
      (label_pool, pool.metadata.name)
      ∷ (label_slot, show_ℤ slot_idx)
      ∷ (label_port, port.name)
      ∷ []);
  spec = record {
    region = pool.spec.region;
    vpc_id = pool.spec.vpc_id;
    server_group_name = sg_name;
    server_group_type = "Ip";
    protocol = port.protocol;
    scheduler = "Wrr";
  };
  status = record { phase = ""; server_group_id = ""; message = "" };
}

-- buildListenerCR
unfoldable pub build_listener :
    NlbPool → LaneConfig → PortConfig → ℤ → String → String → String → ℤ → Listener
build_listener pool lane port slot_idx lsn_name nlb_name sg_name listener_port = record {
  metadata = new_meta lsn_name pool.metadata.namespace (
      (label_pool, pool.metadata.name)
      ∷ (label_slot, show_ℤ slot_idx)
      ∷ (label_port, port.name)
      ∷ (label_lane, lane.name)
      ∷ []);
  spec = record {
    region = pool.spec.region;
    load_balancer_ref = nlb_name;
    server_group_ref = sg_name;
    listener_port = listener_port;
    listener_protocol = port.protocol;
  };
  status = record { phase = ""; listener_id = ""; message = "" };
}

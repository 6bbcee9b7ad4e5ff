-- ===== src/Pool/Labels.antt =====
-- The labels of the allocations that a pool creates, and what the two controllers read from them.
use alibaba_cloud_nlb_pool_o.Base.{
  ℕ, String, false, [], ◌∷◌, some, pos, atoi, ◌≡◌, ap, ◌^◌, ◌<◌, ◌==◌, if◌then◌else◌,
}
use alibaba_cloud_nlb_pool_o.Base.Text.Decimal.{atoi-show_ℤ}
use alibaba_cloud_nlb_pool_o.Types.{lookup, label_slot, NlbPool}
use alibaba_cloud_nlb_pool_o.World.{key_of}
use alibaba_cloud_nlb_pool_o.Pool.Builders.{build_port_allocation, pa_to_nlb_pool}

-- The allocation that is built for a slot names its pool, which has a name, by the key of the pool, and its
-- slot label reads back as the slot.
pub build_port_allocation-RoundTrip :
    (pool : NlbPool) (slot : ℕ) (pa_name : String)
    → (pool.metadata.name == "") ≡ false
    → slot < 2 ^ 63
    → (pa_to_nlb_pool (build_port_allocation pool (pos slot) pa_name) ≡ key_of pool.metadata ∷ [])
      × (atoi (lookup label_slot (build_port_allocation pool (pos slot) pa_name).metadata.labels)
          ≡ some (pos slot))
unfolding pa_to_nlb_pool build_port_allocation
build_port_allocation-RoundTrip pool slot pa_name named h =
    (ap (λ b. if b then [] else key_of pool.metadata ∷ []) named, atoi-show_ℤ slot h)

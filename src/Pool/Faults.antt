-- ===== src/Pool/Faults.antt =====
-- A pool whose load balancers have no slots.
use alibaba_cloud_nlb_pool_o.World.Meets.{Meets}
use alibaba_cloud_nlb_pool_o.World.Returns.{Returns}

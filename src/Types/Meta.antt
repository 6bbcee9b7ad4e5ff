-- ===== src/Types/Meta.antt =====
-- Object metadata, label and annotation maps, and the keys of apis/v1alpha1/constants.go.
use alibaba_cloud_nlb_pool_o.Base.{
  String, Bool, List, [], ◌∷◌, Option, none, some, ◌==◌, if◌then◌else◌,
}

-- A Go `map[string]string`; a nil map reads like an empty one.
abbrev pub Dict : Type 0
Dict = List (String × String)

-- `v, ok := m[k]`
abbrev pub lookup? : String → Dict → Option String
lookup? k [] = none
lookup? k ((j, v) ∷ m) = if j == k then some v else lookup? k m

abbrev pub or_blank : Option String → String
or_blank none = ""
or_blank (some v) = v

-- `m[k]`: the empty text at a missing key
abbrev pub lookup : String → Dict → String
lookup k m = or_blank (lookup? k m)

-- `m[k] = v`
abbrev pub insert : String → String → Dict → Dict
insert key value [] = (key, value) ∷ []
insert key value (entry ∷ dict) =
    if entry.0 == key then (entry.0, value) ∷ dict else entry ∷ insert key value dict

-- `delete(m, k)`
abbrev pub remove : String → Dict → Dict
remove k [] = []
remove k ((j, v) ∷ m) = if j == k then remove k m else (j, v) ∷ remove k m

pub record Key : Type 0 where
  pub namespace : String
  pub name : String

-- `deleting` is `!DeletionTimestamp.IsZero()`; `owner` is the uid in the controller reference.
pub record ObjectMeta : Type 0 where
  pub name : String
  pub namespace : String
  pub uid : String
  pub resource_version : String
  pub labels : Dict
  pub annotations : Dict
  pub finalizers : List String
  pub deleting : Bool
  pub owner : Option String

abbrev pub label_pool : String
label_pool = "nlbpool.alibabacloud.com/pool"

abbrev pub label_slot : String
label_slot = "nlbpool.alibabacloud.com/slot"

abbrev pub label_port : String
label_port = "nlbpool.alibabacloud.com/port"

abbrev pub label_lane : String
label_lane = "nlbpool.alibabacloud.com/lane"

abbrev pub label_phase : String
label_phase = "nlbpool.alibabacloud.com/phase"

abbrev pub annotation_pool_name : String
annotation_pool_name = "alibabacloud.com/nlb-pool-name"

abbrev pub annotation_network_disabled : String
annotation_network_disabled = "alibabacloud.com/nlb-network-disabled"

abbrev pub annotation_pa_claim : String
annotation_pa_claim = "alibabacloud.com/nlb-pa-claim"

abbrev pub annotation_deletion_protection : String
annotation_deletion_protection = "nlbpool.alibabacloud.com/deletion-protection"

abbrev pub annotation_deletion_dry_run : String
annotation_deletion_dry_run = "nlbpool.alibabacloud.com/deletion-dry-run"

abbrev pub annotation_releasing_since : String
annotation_releasing_since = "nlbpool.alibabacloud.com/releasing-since"

abbrev pub finalizer_pool : String
finalizer_pool = "nlbpool.alibabacloud.com/cleanup"

abbrev pub finalizer_allocation : String
finalizer_allocation = "nlbpool.alibabacloud.com/cleanup"

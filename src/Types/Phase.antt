-- ===== src/Types/Phase.antt =====
-- The phases, which the source keeps as texts. `unset` is the empty text; `other` is any text that
-- the source does not name.
use alibaba_cloud_nlb_pool_o.Base.{String, Bool, true, false, ◌==◌}

-- PortAllocationPhase
pub data PaPhase : Type 0 where
  unset provisioning available binding bound releasing disabled deleting : PaPhase
  other : String → PaPhase

-- `string(phase)`
abbrev pub pa_phase_name : PaPhase → String
pa_phase_name unset = ""
pa_phase_name provisioning = "Provisioning"
pa_phase_name available = "Available"
pa_phase_name binding = "Binding"
pa_phase_name bound = "Bound"
pa_phase_name releasing = "Releasing"
pa_phase_name disabled = "Disabled"
pa_phase_name deleting = "Deleting"
pa_phase_name (other s) = s

abbrev pub is_deleting : PaPhase → Bool
is_deleting deleting = true
is_deleting _ = false

abbrev pub is_available : PaPhase → Bool
is_available available = true
is_available _ = false

abbrev pub is_bound : PaPhase → Bool
is_bound bound = true
is_bound _ = false

-- `Phase == Provisioning || Phase == ""`
abbrev pub is_provisioning_or_unset : PaPhase → Bool
is_provisioning_or_unset unset = true
is_provisioning_or_unset provisioning = true
is_provisioning_or_unset _ = false

-- NLBPoolPhase
pub data PoolPhase : Type 0 where
  pool_unset pool_pending pool_provisioning pool_ready pool_deleting pool_failed : PoolPhase
  pool_other : String → PoolPhase

abbrev pub pool_phase_eq : PoolPhase → PoolPhase → Bool
pool_phase_eq pool_unset pool_unset = true
pool_phase_eq pool_pending pool_pending = true
pool_phase_eq pool_provisioning pool_provisioning = true
pool_phase_eq pool_ready pool_ready = true
pool_phase_eq pool_deleting pool_deleting = true
pool_phase_eq pool_failed pool_failed = true
pool_phase_eq (pool_other s) (pool_other t) = s == t
pool_phase_eq _ _ = false

-- the phase of a server group in the status: "Pending", "Creating", "Active"
pub data SgPhase : Type 0 where
  sg_pending sg_creating sg_active : SgPhase
  sg_other : String → SgPhase

abbrev pub is_active : SgPhase → Bool
is_active sg_active = true
is_active _ = false

-- the phase of a listener in the status: "Pending", "Creating", "Running"
pub data LsnPhase : Type 0 where
  lsn_pending lsn_creating lsn_running : LsnPhase
  lsn_other : String → LsnPhase

abbrev pub is_running : LsnPhase → Bool
is_running lsn_running = true
is_running _ = false

-- the binding of the backend server: "", "None", "Adding", "Bound", "Removing"
pub data ServerStatus : Type 0 where
  clear none_text adding server_bound removing : ServerStatus
  server_other : String → ServerStatus

abbrev pub is_clear : ServerStatus → Bool
is_clear clear = true
is_clear _ = false

-- the texts that the patches carry
abbrev pub sg_phase_name : SgPhase → String
sg_phase_name sg_pending = "Pending"
sg_phase_name sg_creating = "Creating"
sg_phase_name sg_active = "Active"
sg_phase_name (sg_other s) = s

abbrev pub lsn_phase_name : LsnPhase → String
lsn_phase_name lsn_pending = "Pending"
lsn_phase_name lsn_creating = "Creating"
lsn_phase_name lsn_running = "Running"
lsn_phase_name (lsn_other s) = s

abbrev pub server_status_name : ServerStatus → String
server_status_name clear = ""
server_status_name none_text = "None"
server_status_name adding = "Adding"
server_status_name server_bound = "Bound"
server_status_name removing = "Removing"
server_status_name (server_other s) = s

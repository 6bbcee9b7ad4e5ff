-- ===== src/Allocation/Layout.antt =====
-- Where the listeners of a slot stand in the status, and the ports that they take.
use alibaba_cloud_nlb_pool_o.Base.{
  ℕ, zero, suc, String, false, List, [], ◌∷◌, Option, none, some, ℤ, pos, length, get_elem?,
  get_elem?-append_some, get_elem?-append_row, ◌+◌, ◌*◌, ◌/◌, ◌%◌, ◌^◌, ◌<◌, ◌≡◌, refl, sym, ap,
  ◌∙◌, arith, wrap32_pos, add32_pos, mul32_pos, quot32_pos, rem32_pos, if◌then◌else◌, is_zero,
  quot32, rem32,
}
use native.Mathlib.Omega.{div_fact, mod_fact}
use alibaba_cloud_nlb_pool_o.Types.{
  LaneConfig, PortConfig, PoolSpec, ListenerCloudStatus, lsn_pending,
}
use alibaba_cloud_nlb_pool_o.Allocation.Slots.{
  int32_of, group_of, slot_in_group, listener_port_of, lane_listeners, initial_listeners,
}

-- the entry of a listener that is still to be created
abbrev pub pending : PortConfig → LaneConfig → ℤ → ListenerCloudStatus
pending port lane listener_port = record {
  port_name = port.name;
  lane_name = lane.name;
  listener_id = "";
  listener_port = listener_port;
  phase = lsn_pending;
}

length-lane_listeners :
    (name : String) (port : ℤ) (lanes : List LaneConfig)
    → length (lane_listeners name port lanes) ≡ length lanes
unfolding lane_listeners
length-lane_listeners name port [] = refl
length-lane_listeners name port (lane ∷ lanes) =
    omega (arith, length-lane_listeners name port lanes)

get_elem?-lane_listeners :
    (name : String) (port : ℤ) (lanes : List LaneConfig) (j : ℕ) (lane : LaneConfig)
    → get_elem? lanes j ≡ some lane
    → get_elem? (lane_listeners name port lanes) j
      ≡ some (record {
        port_name = name;
        lane_name = lane.name;
        listener_id = "";
        listener_port = port;
        phase = lsn_pending;
      })
unfolding lane_listeners
get_elem?-lane_listeners name port [] j lane e = ground arith
get_elem?-lane_listeners name port (l ∷ lanes) zero lane e = cc
get_elem?-lane_listeners name port (l ∷ lanes) (suc j) lane e =
    get_elem?-lane_listeners name port lanes j lane e

zero_row : (j l : ℕ) → 0 * l + j ≡ j
zero_row j l = omega arith

shifted : (i k : ℕ) → suc i + k ≡ i + suc k
shifted i k = omega arith

get_elem?-initial_listeners_from :
    (spec : PoolSpec) (in_group : ℤ) (i : ℕ) (ports : List PortConfig) (k j : ℕ) (port : PortConfig)
    (lane : LaneConfig)
    → get_elem? ports k ≡ some port
    → get_elem? spec.lanes j ≡ some lane
    → get_elem? (initial_listeners spec in_group i ports) (k * length spec.lanes + j)
      ≡ some (pending port lane (listener_port_of spec in_group (i + k)))
unfolding initial_listeners
get_elem?-initial_listeners_from spec in_group i [] k j port lane e f = ground arith
get_elem?-initial_listeners_from spec in_group i (p ∷ ports) zero j port lane e f =
    ap (get_elem? (initial_listeners spec in_group i (p ∷ ports))) (zero_row j (length spec.lanes))
    ∙ get_elem?-append_some (lane_listeners p.name (listener_port_of spec in_group i) spec.lanes) _
        j _ (get_elem?-lane_listeners p.name (listener_port_of spec in_group i) spec.lanes j lane f)
    ∙ same_entry p port i (i + 0) e (omega arith)
  where
    same_entry :
        (p port : PortConfig) (i k : ℕ)
        → some p ≡ some port
        → i ≡ k
        → some (pending p lane (listener_port_of spec in_group i))
          ≡ some (pending port lane (listener_port_of spec in_group k))
    same_entry p port i k e f = cc
get_elem?-initial_listeners_from spec in_group i (p ∷ ports) (suc k) j port lane e f =
    get_elem?-append_row (lane_listeners p.name (listener_port_of spec in_group i) spec.lanes)
      (initial_listeners spec in_group (suc i) ports) (length spec.lanes) k j
      (length-lane_listeners p.name (listener_port_of spec in_group i) spec.lanes)
    ∙ get_elem?-initial_listeners_from spec in_group (suc i) ports k j port lane e f
    ∙ ap (λ n. some (pending port lane (listener_port_of spec in_group n))) (shifted i k)

-- In the initial listeners of a slot, the entry of the port at index `k` and the lane at index `j` is at
-- index `k * length lanes + j`, where the code looks it up: it is pending, has no id, names that port and
-- that lane, and has the port that the slot takes for `k`.
pub get_elem?-initial_listeners :
    (spec : PoolSpec) (in_group : ℤ) (k j : ℕ) (port : PortConfig) (lane : LaneConfig)
    → get_elem? spec.ports k ≡ some port
    → get_elem? spec.lanes j ≡ some lane
    → get_elem? (initial_listeners spec in_group 0 spec.ports) (k * length spec.lanes + j)
      ≡ some (pending port lane (listener_port_of spec in_group k))
get_elem?-initial_listeners spec in_group k j port lane e f =
    let z : 0 + k ≡ k = omega arith in
    get_elem?-initial_listeners_from spec in_group 0 spec.ports k j port lane e f
    ∙ ap (λ n. some (pending port lane (listener_port_of spec in_group n))) z

int32_of_pos : (n : ℕ) → n < 2 ^ 31 → int32_of n ≡ pos n
unfolding int32_of
int32_of_pos n h = wrap32_pos n h

-- Where the ports of all slots fit, the listener port of the slot `g` and port index `i` is
-- `min + g * length ports + i`, with no overflow.
pub listener_port_of_lem :
    (spec : PoolSpec) (m g i : ℕ)
    → spec.port_range.min ≡ pos m
    → length spec.ports < 2 ^ 31
    → m + g * length spec.ports + i < 2 ^ 31
    → listener_port_of spec (pos g) i ≡ pos (m + g * length spec.ports + i)
unfolding listener_port_of
listener_port_of_lem spec m g i e n_small h =
    let n = length spec.ports in
    let count = int32_of_pos n n_small in
    let index = int32_of_pos i (omega arith) in
    let start = mul32_pos g n (omega arith) in
    let row = add32_pos m (g * n) (omega arith) in let port = add32_pos (m + g * n) i h in cc

-- A row index below the row's length can be read off the position.
row_and_index-injective :
    (n g h i j : ℕ) → i < n → j < n → g * n + i ≡ h * n + j → (g ≡ h) × (i ≡ j)
row_and_index-injective n zero zero i j a b e = (refl, omega arith)
row_and_index-injective n zero (suc h) i j a b e = elim (below n h i j a e) [ ]
  where
    below : (n h i j : ℕ) → i < n → 0 * n + i ≡ suc h * n + j → ⊥
    below n h i j a e = omega arith
row_and_index-injective n (suc g) zero i j a b e = elim (below n g j i b e) [ ]
  where
    below : (n h i j : ℕ) → i < n → suc h * n + j ≡ 0 * n + i → ⊥
    below n h i j a e = omega arith
row_and_index-injective n (suc g) (suc h) i j a b e =
    let (p, q) = row_and_index-injective n g h i j a b (omega arith) in (ap suc p, q)

row_fits : (r s n i : ℕ) → r < suc s → i < n → r * n + i < suc s * n
row_fits zero s n i h k = omega arith
row_fits (suc r) zero n i h k = omega arith
row_fits (suc r) (suc s) n i h k = omega (arith, row_fits r s n i (omega arith) k)

pos-injective : {a b : ℕ} → some (pos a) ≡ some (pos b) → a ≡ b
pos-injective e = cc

same_sum : {a b p q r t : ℕ} → p ≡ q → r ≡ t → p + r ≡ a → q + t ≡ b → a ≡ b
same_sum e f g h = cc

-- the listener port that a slot takes for the port at index `i`; `none` is the panic at no slots
abbrev pub slot_port : PoolSpec → ℤ → ℕ → Option ℤ
slot_port spec slot i = elim (slot_in_group spec slot) [
  | none ↦ none
  | some in_group ↦ some (listener_port_of spec in_group i)
]

positive : (s : ℕ) → is_zero (pos (suc s)) ≡ false
positive s = ground arith

module _ (spec : PoolSpec) (s : ℕ) (slots : spec.slots_per_nlb ≡ pos (suc s)) where
  group_of_pos : (a : ℕ) → a < 2 ^ 31 → group_of spec (pos a) ≡ some (pos (a / suc s))
  unfolding group_of
  group_of_pos a h =
      ap (λ n. if is_zero n then none else some (quot32 (pos a) n)) slots
      ∙ ap (λ b. if b then none else some (quot32 (pos a) (pos (suc s)))) (positive s)
      ∙ ap some (quot32_pos a (suc s) h)

  slot_in_group_pos : (a : ℕ) → a < 2 ^ 31 → slot_in_group spec (pos a) ≡ some (pos (a % suc s))
  unfolding slot_in_group
  slot_in_group_pos a h =
      ap (λ n. if is_zero n then none else some (rem32 (pos a) n)) slots
      ∙ ap (λ b. if b then none else some (rem32 (pos a) (pos (suc s)))) (positive s)
      ∙ ap some (rem32_pos a (suc s) h)

  module _ (m : ℕ) (min : spec.port_range.min ≡ pos m)
      (fits : m + suc s * length spec.ports < 2 ^ 31) (count : length spec.ports < 2 ^ 31) where
    -- With `suc s` slots on a load balancer, whose ports all fit into 31 bits from `m` on, the slot `a`
    -- takes for the port at index `i` the listener port `m + (a mod suc s) * length ports + i`.
    pub slot_port_lem :
        (a i : ℕ)
        → a < 2 ^ 31
        → i < length spec.ports
        → slot_port spec (pos a) i ≡ some (pos (m + a % suc s * length spec.ports + i))
    slot_port_lem a i ha hi =
        let below = row_fits (a % suc s) s (length spec.ports) i (mod_fact a s) hi in
        ap (λ o. elim o [ none ↦ none | some g ↦ some (listener_port_of spec g i) ])
          (slot_in_group_pos a ha)
        ∙ ap some (listener_port_of_lem spec m (a % suc s) i min count (omega arith))

    -- Two slots of one load balancer take the same listener port only if they are the same slot, and for
    -- the same port of the pool.
    pub slot_port-injective :
        (a b i j : ℕ)
        → a < 2 ^ 31
        → b < 2 ^ 31
        → i < length spec.ports
        → j < length spec.ports
        → group_of spec (pos a) ≡ group_of spec (pos b)
        → slot_port spec (pos a) i ≡ slot_port spec (pos b) j
        → (a ≡ b) × (i ≡ j)
    slot_port-injective a b i j ha hb hi hj same_group same_port =
        let groups : a / suc s ≡ b / suc s =
          pos-injective (sym (group_of_pos a ha) ∙ same_group ∙ group_of_pos b hb) in
        let ports : m + a % suc s * length spec.ports + i ≡ m + b % suc s * length spec.ports + j =
          pos-injective (sym (slot_port_lem a i ha hi) ∙ same_port ∙ slot_port_lem b j hb hj) in
        let (rows, indices) =
          row_and_index-injective (length spec.ports) (a % suc s) (b % suc s) i j hi hj
            (omega arith) in
        let quotients = ap (λ q. suc s * q) groups in
        let a_is = div_fact a s in
        let b_is = div_fact b s in (same_sum quotients rows a_is b_is, indices)

-- ===== src/Pool/Sizing.antt =====
-- computeDesiredNLBs: how many load balancers a lane should have.
use alibaba_cloud_nlb_pool_o.Base.{
  ℕ, zero, suc, Option, none, some, ℤ, pos, is_zero, ltb_ℤ, leb_ℤ, ltb, leb, add32, sub32, mul32,
  quot32, add32_pos, sub32_pos, mul32_pos, quot32_pos, ◌+◌, ◌-◌, ◌*◌, ◌/◌, ◌%◌, ◌^◌, ◌<◌, ◌≤◌, ◌≡◌,
  sym, ap, inl, inr, ◌⊎◌, arith, if◌then◌else◌,
}
use native.Mathlib.Omega.{div_fact, mod_fact}
use mathlib.Core.Path.{subst}
use alibaba_cloud_nlb_pool_o.Types.{NlbPool}

-- `if currentNLBs < 1 { currentNLBs = 1 }`
abbrev at_least_one : ℤ → ℤ
at_least_one n = if ltb_ℤ n (pos 1) then pos 1 else n

-- `if desiredNLBs < currentNLBs { desiredNLBs = currentNLBs }`
abbrev no_fewer : ℤ → ℤ → ℤ
no_fewer desired current = if ltb_ℤ desired current then current else desired

-- the groups that hold `needed` slots, rounded up
abbrev groups_for : ℤ → ℤ → ℤ
groups_for slots needed = quot32 (sub32 (add32 needed slots) (pos 1)) slots

-- computeDesiredNLBs for a number of slots that is not zero
unfoldable pub sized : (slots min_available total available bound : ℤ) → ℤ
sized slots min_available total available bound =
    let min_free = mul32 slots min_available in
    let current = at_least_one (quot32 total slots) in
    if leb_ℤ min_free available
    then current
    else no_fewer (groups_for slots (add32 bound min_free)) current

-- computeDesiredNLBs; `none` is the panic at a zero divisor
unfoldable pub compute_desired_nlbs : NlbPool → Option ℤ
unfolding sized
compute_desired_nlbs pool =
    if is_zero pool.spec.slots_per_nlb
    then none
    else some (
        sized pool.spec.slots_per_nlb pool.spec.min_available_nlbs pool.status.total_slots
          pool.status.available_slots pool.status.bound_slots)

-- What the pool asks for, on natural numbers: `d` load balancers for each lane, of `s` slots each, where
-- there are `current` now.
pub record IsDesired (s min_free current available bound d : ℕ) : Type 0 where
  -- no load balancer is given up, and there is one at least
  pub no_shrink : current ≤ d
  pub positive : 1 ≤ d
  -- where the free slots are below the headroom, the bound slots and the headroom fit
  pub enough : available < min_free → bound + min_free ≤ s * d
  -- where the free slots reach the headroom, nothing is added
  pub stable : min_free ≤ available → (d ≡ current) ⊎ (d ≡ 1)
  -- what is added has a reason: with one load balancer less, the bound slots and the headroom do not fit
  pub tight : (d ≡ current) ⊎ ((d ≡ 1) ⊎ (s * (d - 1) < bound + min_free))

-- the same computation on natural numbers
abbrev raised : ℕ → ℕ
raised current = if ltb current 1 then 1 else current

abbrev larger : ℕ → ℕ → ℕ
larger g c = if ltb g c then c else g

abbrev desired_of : ℕ → ℕ → ℕ → ℕ → ℕ
desired_of min_free current available g =
    if leb min_free available then raised current else larger g (raised current)

product_mono : (s g c : ℕ) → g ≤ c → s * g ≤ s * c
product_mono s zero c h = omega arith
product_mono s (suc g) zero h = elim h [ ]
product_mono s (suc g) (suc c) h = omega (arith, product_mono s g c (omega arith))

rounded_up : (s f g r : ℕ) → s * g + r ≡ f + s - 1 → r < s → 1 ≤ f → (f ≤ s * g) × (s * (g - 1) < f)
rounded_up s f zero r e h k = omega arith
rounded_up s f (suc g) r e h k =
    let p : suc g - 1 ≡ g = omega arith in (omega arith, less (ap (λ n. s * n) p))
  where
    less : s * (suc g - 1) ≡ s * g → s * (suc g - 1) < f
    less e' = omega arith

which :
    (min_free current available g : ℕ)
    → (desired_of min_free current available g ≡ current)
      ⊎ ((desired_of min_free current available g ≡ 1)
          ⊎ ((desired_of min_free current available g ≡ g) × (1 ≤ min_free)))
which min_free current available g = ground arith

desired_of-IsDesired :
    (s min_free current available bound g : ℕ)
    → (1 ≤ min_free → (bound + min_free ≤ s * g) × (s * (g - 1) < bound + min_free))
    → IsDesired s min_free current available bound (desired_of min_free current available g)
desired_of-IsDesired s min_free current available bound g h = record {
  no_shrink = ground arith;
  positive = ground arith;
  enough = λ short. through (h (omega arith)).0 (product_mono s g _ (ground arith));
  stable = ground arith;
  tight = reason (which min_free current available g);
}
  where
    through : {a b c : ℕ} → a ≤ b → b ≤ c → a ≤ c
    through {b = b} p q = omega arith

    reason :
        {d : ℕ}
        → (d ≡ current) ⊎ ((d ≡ 1) ⊎ ((d ≡ g) × (1 ≤ min_free)))
        → (d ≡ current) ⊎ ((d ≡ 1) ⊎ (s * (d - 1) < bound + min_free))
    reason (inl e) = inl e
    reason (inr (inl e)) = inr (inl e)
    reason (inr (inr (e, k))) =
        inr (inr (subst (λ d. s * (d - 1) < bound + min_free) (sym e) (h k).1))

at_least_one_pos : (c : ℕ) → at_least_one (pos c) ≡ pos (raised c)
at_least_one_pos c = ground arith

no_fewer_pos : (g c : ℕ) → no_fewer (pos g) (pos c) ≡ pos (larger g c)
no_fewer_pos g c = ground arith

choice_pos :
    (f a x y : ℕ)
    → (if leb_ℤ (pos f) (pos a) then pos x else pos y) ≡ pos (if leb f a then x else y)
choice_pos f a x y = ground arith

sized_pos :
    (s m total available bound : ℕ)
    → 1 ≤ s
    → total < 2 ^ 31
    → bound + s * m + s < 2 ^ 31
    → sized (pos s) (pos m) (pos total) (pos available) (pos bound)
      ≡ pos (desired_of (s * m) (total / s) available ((bound + s * m + s - 1) / s))
unfolding sized
sized_pos s m total available bound hs ht hb =
    let min_free = mul32_pos s m (omega arith) in
    let quotient = quot32_pos total s ht in
    let current = at_least_one_pos (total / s) in
    let needed = add32_pos bound (s * m) (omega arith) in
    let padded = add32_pos (bound + s * m) s hb in
    let less_one = sub32_pos (bound + s * m + s) 1 (omega arith) hb in
    let groups = quot32_pos (bound + s * m + s - 1) s (omega arith) in
    let chosen = no_fewer_pos ((bound + s * m + s - 1) / s) (raised (total / s)) in
    let answer =
      choice_pos (s * m) available (raised (total / s))
        (larger ((bound + s * m + s - 1) / s) (raised (total / s))) in
    cc

nonzero : (k : ℕ) (x : ℤ) → (if is_zero (pos (suc k)) then none else some x) ≡ some x
nonzero k x = ground arith

-- With `s` slots on a load balancer, at least one, and numbers whose sum fits into 31 bits,
-- computeDesiredNLBs neither panics nor overflows, and answers a number that is desired.
pub compute_desired_nlbs_lem :
    (pool : NlbPool) (k m total available bound : ℕ)
    → pool.spec.slots_per_nlb ≡ pos (suc k)
    → pool.spec.min_available_nlbs ≡ pos m
    → pool.status.total_slots ≡ pos total
    → pool.status.available_slots ≡ pos available
    → pool.status.bound_slots ≡ pos bound
    → total < 2 ^ 31
    → bound + suc k * m + suc k < 2 ^ 31
    → (d : ℕ) × (compute_desired_nlbs pool ≡ some (pos d))
      × IsDesired (suc k) (suc k * m) (total / suc k) available bound d
unfolding compute_desired_nlbs
compute_desired_nlbs_lem pool k m total available bound es em et ea eb ht hb = (
  desired_of F c available g,
  answer,
  desired_of-IsDesired (suc k) F c available bound g λ f.
      rounded_up (suc k) (bound + F) g ((bound + F + suc k - 1) % suc k)
        (div_fact (bound + F + suc k - 1) k) (mod_fact (bound + F + suc k - 1) k) (omega arith),
)
  where
    F : ℕ
    F = suc k * m

    c : ℕ
    c = total / suc k

    g : ℕ
    g = (bound + F + suc k - 1) / suc k

    answer : compute_desired_nlbs pool ≡ some (pos (desired_of F c available g))
    answer =
        let at_numbers = sized_pos (suc k) m total available bound (omega arith) ht hb in
        let taken = nonzero k (pos (desired_of F c available g)) in cc

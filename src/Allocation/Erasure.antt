-- ===== src/Allocation/Erasure.antt =====
-- Steps 2 and 3 of handleDeletion: two loops, each over a list in the status.
pub mod Listeners
pub mod Groups
pub mod Whole
use alibaba_cloud_nlb_pool_o.Base.{
  ℕ, zero, suc, String, true, List, [], ◌∷◌, All, length, none, some, ◌≡◌, refl, inl, inr, ◌⊎◌, sym,
  ap, ◌∙◌, ◌==◌, ◌≤◌, arith,
}
use alibaba_cloud_nlb_pool_o.Types.{PortAllocation, ListenerCloudStatus}
use alibaba_cloud_nlb_pool_o.World.{
  get_listener_attribute, update_pa_status, Exchange, exchange, Trace, Env, Result, ok, err, Flow,
  next, exit, panic, running, Proc, ◌>>=◌, continue, request, pure, finish, on_err, on_none,
  on_empty, or_keep, out_of_fuel,
}
use alibaba_cloud_nlb_pool_o.World.Keeps.{Once}
use alibaba_cloud_nlb_pool_o.World.Only.{
  Only, Frame, Only-pure, Only-out_of_fuel, Only-bind, Only-on_empty, only_rules,
}
use alibaba_cloud_nlb_pool_o.World.Requests.{request_rules}
use mathlib.Core.Path.{subst}
use alibaba_cloud_nlb_pool_o.Provider.{is_not_found_error}
use alibaba_cloud_nlb_pool_o.Allocation.Provision.{back_off}
use alibaba_cloud_nlb_pool_o.Allocation.Deletion.{
  with_listeners, try_write_status, verify_listener, verify_listeners,
}

-- What holds of the value and the trace after a return; a run that panics or runs out of fuel is
-- excluded.
abbrev pub Ends : {A : Type 0} → (A → Trace → Type 0) → Flow A × Trace → Type 0
Ends Q (next a, t) = Q a t
Ends Q (exit r, t) = Unit
Ends Q (panic, t) = ⊥
Ends Q (running, t) = ⊥

Ends-bind :
    {A B : Type 0} (S : B → Trace → Type 0) (Q : A → Trace → Type 0) (x : Flow A × Trace)
    (f : A → Proc B) (env : Env)
    → Ends Q x
    → ((a : A) (t : Trace) → Q a t → Ends S (f a env t))
    → Ends S (continue x.0 f env x.1)
Ends-bind S Q (next a, t) f env h k = k a t h
Ends-bind S Q (exit r, t) f env h k = tt
Ends-bind S Q (panic, t) f env h k = elim h [ ]
Ends-bind S Q (running, t) f env h k = elim h [ ]

Ends-also :
    {A : Type 0} (Q : A → Trace → Type 0) (K : Trace → Type 0) (x : Flow A × Trace)
    → Ends Q x
    → K x.1
    → Ends (λ a t. Q a t × K t) x
Ends-also Q K (next a, t) h k = (h, k)
Ends-also Q K (exit r, t) h k = tt
Ends-also Q K (panic, t) h k = elim h [ ]
Ends-also Q K (running, t) h k = elim h [ ]

Ends-map :
    {A : Type 0} (Q S : A → Trace → Type 0) (x : Flow A × Trace)
    → ((a : A) (t : Trace) → Q a t → S a t)
    → Ends Q x
    → Ends S x
Ends-map Q S (next a, t) k h = k a t h
Ends-map Q S (exit r, t) k h = tt
Ends-map Q S (panic, t) k h = elim h [ ]
Ends-map Q S (running, t) k h = elim h [ ]

Ends-on_empty :
    {A B : Type 0} (S : B → Trace → Type 0) (xs : List A) (f : Proc B) (g : A → List A → Proc B)
    (env : Env) (t : Trace)
    → (xs ≡ [] → Ends S (f env t))
    → ((y : A) (ys : List A) → xs ≡ y ∷ ys → Ends S (g y ys env t))
    → Ends S (on_empty xs f g env t)
unfolding on_empty
Ends-on_empty S [] f g env t kf kg = kf refl
Ends-on_empty S (x ∷ xs) f g env t kf kg = kg x xs refl

-- The API server's documented answer to a status write: the object with the status written.
abbrev pub Echoes : Env → Type 0
Echoes env =
    (t : Trace) (pa pa' : PortAllocation)
    → env.respond t (update_pa_status pa) ≡ ok pa'
    → pa'.status ≡ pa.status

none_left : {A : Type 0} (x : A) (xs : List A) → length (x ∷ xs) ≤ 0 → ⊥
none_left x xs h = omega arith

one_less :
    {A : Type 0} (x : A) {xs ys : List A} {fuel : ℕ}
    → length (x ∷ xs) ≤ suc fuel
    → ys ≡ xs
    → length ys ≤ fuel
one_less x {xs = xs} {fuel = fuel} h e = subst (λ ys. length ys ≤ fuel) (sym e) (omega arith)

module _ (env : Env) (echoes : Echoes env) where
  kept_status :
      (t : Trace) (pa : PortAllocation)
      → (or_keep pa (env.respond t (update_pa_status pa))).status ≡ pa.status
  kept_status t pa = kept (env.respond t (update_pa_status pa)) (echoes t pa)
    where
      kept :
          (r : Result PortAllocation)
          → ((pa' : PortAllocation) → r ≡ ok pa' → pa'.status ≡ pa.status)
          → (or_keep pa r).status ≡ pa.status
      kept (ok pa') h = h pa' refl
      kept (err e) h = refl

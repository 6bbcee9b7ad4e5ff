-- ===== src/World/Only.antt =====
-- Which calls a handler makes. `Only K m`: every call of `m` satisfies `K`, so `m` keeps whatever those
-- calls keep.
use alibaba_cloud_nlb_pool_o.Base.{
  ℕ, String, Bool, true, false, List, [], ◌∷◌, Option, none, some, if◌then◌else◌,
}
use alibaba_cloud_nlb_pool_o.Types.{ObjectMeta}
use alibaba_cloud_nlb_pool_o.World.Calls.{
  Call, record_event, Response, exchange, Trace, Env, GoError, Result, ok, err,
}
use alibaba_cloud_nlb_pool_o.World.Monad.{
  Reply, Proc, ◌>>=◌, pure, finish, crash, out_of_fuel, request, asks, on_err, on_none, on_empty,
  or_panic, for_each, for_index, exit_if, or_requeue, eventf,
}
use alibaba_cloud_nlb_pool_o.World.Keeps.{
  Keeps, Keeps-pure, Keeps-finish, Keeps-crash, Keeps-out_of_fuel, Keeps-asks, Keeps-or_panic,
  Keeps-bind, Keeps-for_each, Keeps-for_index, Keeps-exit_if, Keeps-or_requeue,
}

-- the calls of `K` keep `P`
abbrev pub Frame : (Call → Type 0) → (Trace → Type 0) → Type 0
Frame K P = (c : Call) (r : Response c) (t : Trace) → K c → P t → P (exchange c r ∷ t)

pub record Only (K : Call → Type 0) {A : Type 0} (m : Proc A) : Type 1 where
  pub keeps : (P : Trace → Type 0) → Frame K P → Keeps P m

module _ {K : Call → Type 0} where
  pub Only-request : (c : Call) → K c → Only K (request c)
  unfolding request
  Only-request c k = record {
    keeps = λ P frame. record { at = λ env t h. frame c (env.respond t c) t k h };
  }

  pub Only-exit_if : (b : Bool) (r : Reply) → Only K (exit_if b r)
  Only-exit_if b r = record { keeps = λ P frame. Keeps-exit_if b r }

  pub Only-eventf :
      (obj : ObjectMeta) (event_type reason : String)
      → K (record_event (record { namespace = obj.namespace; name = obj.name }) event_type reason)
      → Only K (eventf obj event_type reason)
  unfolding eventf
  Only-eventf obj event_type reason k = Only-request _ k

module _ {K : Call → Type 0} {A : Type 0} where
  pub Only-pure : (a : A) → Only K (pure a)
  Only-pure a = record { keeps = λ P frame. Keeps-pure a }

  pub Only-finish : (r : Reply) → Only K (finish {A = A} r)
  Only-finish r = record { keeps = λ P frame. Keeps-finish r }

  pub Only-crash : Only K (crash {A = A})
  Only-crash = record { keeps = λ P frame. Keeps-crash }

  pub Only-out_of_fuel : Only K (out_of_fuel {A = A})
  Only-out_of_fuel = record { keeps = λ P frame. Keeps-out_of_fuel }

  pub Only-asks : (f : Env → A) → Only K (asks f)
  Only-asks f = record { keeps = λ P frame. Keeps-asks f }

  pub Only-or_panic : (o : Option A) → Only K (or_panic o)
  Only-or_panic o = record { keeps = λ P frame. Keeps-or_panic o }

  pub Only-or_requeue : (r : Result A) → Only K (or_requeue r)
  Only-or_requeue r = record { keeps = λ P frame. Keeps-or_requeue r }

  pub Only-if : (b : Bool) (m n : Proc A) → Only K m → Only K n → Only K (if b then m else n)
  Only-if true m n km kn = km
  Only-if false m n km kn = kn

module _ {K : Call → Type 0} {A B : Type 0} where
  pub Only-bind :
      (m : Proc A) (f : A → Proc B) → Only K m → ((a : A) → Only K (f a)) → Only K (m >>= f)
  Only-bind m f km kf = record {
    keeps = λ P frame. Keeps-bind m f (km.keeps P frame) (λ a. (kf a).keeps P frame);
  }

  pub Only-on_err :
      (r : Result A) (f : GoError → Proc B) (g : A → Proc B)
      → ((e : GoError) → Only K (f e))
      → ((a : A) → Only K (g a))
      → Only K (on_err r f g)
  unfolding on_err
  Only-on_err (ok a) f g kf kg = kg a
  Only-on_err (err e) f g kf kg = kf e

  pub Only-on_none :
      (o : Option A) (f : Proc B) (g : A → Proc B)
      → Only K f
      → ((a : A) → Only K (g a))
      → Only K (on_none o f g)
  unfolding on_none
  Only-on_none none f g kf kg = kf
  Only-on_none (some a) f g kf kg = kg a

  pub Only-on_empty :
      (xs : List A) (f : Proc B) (g : A → List A → Proc B)
      → Only K f
      → ((x : A) (xs : List A) → Only K (g x xs))
      → Only K (on_empty xs f g)
  unfolding on_empty
  Only-on_empty [] f g kf kg = kf
  Only-on_empty (x ∷ xs) f g kf kg = kg x xs

module _ {K : Call → Type 0} {A S : Type 0} where
  pub Only-for_each :
      (xs : List A) (s : S) (body : A → S → Proc S)
      → ((x : A) (s : S) → Only K (body x s))
      → Only K (for_each xs s body)
  Only-for_each xs s body k = record {
    keeps = λ P frame. Keeps-for_each xs s body (λ x s. (k x s).keeps P frame);
  }

  pub Only-for_index :
      (i : ℕ) (xs : List A) (s : S) (body : ℕ → A → S → Proc S)
      → ((i : ℕ) (x : A) (s : S) → Only K (body i x s))
      → Only K (for_index i xs s body)
  Only-for_index i xs s body k = record {
    keeps = λ P frame. Keeps-for_index i xs s body (λ i x s. (k i x s).keeps P frame);
  }

pub ruleset only_rules = (
  Only-pure, Only-finish, Only-crash, Only-out_of_fuel, Only-asks, Only-or_panic, Only-or_requeue,
  Only-exit_if, Only-eventf, Only-request, Only-if, Only-bind, Only-on_err, Only-on_none,
  Only-for_each, Only-for_index,
)

-- The calls that read, that ask the cloud, that patch or that record an event: no object is created,
-- replaced or deleted.
abbrev pub IsQuiet : Call → Type 0
IsQuiet (Call.create_pa pa) = ⊥
IsQuiet (Call.create_nlb nlb) = ⊥
IsQuiet (Call.create_eip eip) = ⊥
IsQuiet (Call.update_pa pa) = ⊥
IsQuiet (Call.update_pa_status pa) = ⊥
IsQuiet (Call.update_pod pod) = ⊥
IsQuiet (Call.update_pool pool) = ⊥
IsQuiet (Call.update_pool_status pool) = ⊥
IsQuiet (Call.update_nlb nlb) = ⊥
IsQuiet (Call.delete kind key) = ⊥
IsQuiet (Call.delete_server_group id) = ⊥
IsQuiet (Call.delete_listener id) = ⊥
IsQuiet _ = Unit

pub Only-mono :
    {K L : Call → Type 0} {A : Type 0} {m : Proc A} → ((c : Call) → K c → L c) → Only K m → Only L m
Only-mono h o = record { keeps = λ P frame. o.keeps P (λ c r t k. frame c r t (h c k)) }

-- ===== src/World/Returns.antt =====
-- Handlers that always return to their caller: no early exit, no panic, no loop without an end.
use alibaba_cloud_nlb_pool_o.Base.{
  String, Bool, true, false, Option, none, some, ◌≡◌, refl, ap, ◌∙◌, if◌then◌else◌,
}
use alibaba_cloud_nlb_pool_o.Types.{ObjectMeta}
use alibaba_cloud_nlb_pool_o.World.Calls.{Call, Trace, Env, GoError, Result, ok, err}
use alibaba_cloud_nlb_pool_o.World.Monad.{
  Reply, next, exit, Proc, continue, ◌>>=◌, pure, finish, request, asks, on_err, on_none, exit_if,
  eventf, key_of,
}

pub record Returns {A : Type 0} (m : Proc A) : Type 0 where
  pub at : (env : Env) (t : Trace) → (a : A) × ((m env t).0 ≡ next a)

-- What follows a handler that returned `a` goes on from the trace that it left.
pub bind_next :
    {A B : Type 0} (m : Proc A) (f : A → Proc B) (env : Env) (t : Trace) (a : A)
    → (m env t).0 ≡ next a
    → (m >>= f) env t ≡ f a env (m env t).1
unfolding ◌>>=◌
bind_next m f env t a e = ap (λ r. continue r f env (m env t).1) e

module _ {A : Type 0} where
  pub Returns-pure : (a : A) → Returns (pure a)
  unfolding pure
  Returns-pure a = record { at = λ env t. (a, refl) }

  pub Returns-asks : (f : Env → A) → Returns (asks f)
  unfolding asks
  Returns-asks f = record { at = λ env t. (f env, refl) }

  pub Returns-if : (b : Bool) (m n : Proc A) → Returns m → Returns n → Returns (if b then m else n)
  Returns-if true m n km kn = km
  Returns-if false m n km kn = kn

pub Returns-request : (c : Call) → Returns (request c)
unfolding request
Returns-request c = record { at = λ env t. (env.respond t c, refl) }

pub Returns-eventf :
    (obj : ObjectMeta) (event_type reason : String) → Returns (eventf obj event_type reason)
unfolding eventf
Returns-eventf obj event_type reason =
    Returns-request (Call.record_event (key_of obj) event_type reason)

module _ {A B : Type 0} where
  pub Returns-bind :
      (m : Proc A) (f : A → Proc B) → Returns m → ((a : A) → Returns (f a)) → Returns (m >>= f)
  Returns-bind m f km kf = record {
    at = λ env t.
        let (a, e) = km.at env t in
        let (b, e') = (kf a).at env (m env t).1 in
        (b, ap (λ s. s.0) (bind_next m f env t a e) ∙ e');
  }

  pub Returns-on_err :
      (r : Result A) (f : GoError → Proc B) (g : A → Proc B)
      → ((e : GoError) → Returns (f e))
      → ((a : A) → Returns (g a))
      → Returns (on_err r f g)
  unfolding on_err
  Returns-on_err (ok a) f g kf kg = kg a
  Returns-on_err (err e) f g kf kg = kf e

  pub Returns-on_none :
      (o : Option A) (f : Proc B) (g : A → Proc B)
      → Returns f
      → ((a : A) → Returns (g a))
      → Returns (on_none o f g)
  unfolding on_none
  Returns-on_none none f g kf kg = kf
  Returns-on_none (some a) f g kf kg = kg a

pub ruleset returns_rules = (
  Returns-pure, Returns-asks, Returns-if, Returns-request, Returns-eventf, Returns-bind,
  Returns-on_err, Returns-on_none,
)

-- `m` ends with the reply `r`.
pub record Ends {A : Type 0} (r : Reply) (m : Proc A) : Type 0 where
  pub at : (env : Env) (t : Trace) → (m env t).0 ≡ exit r

pub Ends-finish : {A : Type 0} (r : Reply) → Ends {A = A} r (finish r)
unfolding finish
Ends-finish r = record { at = λ env t. refl }

pub Ends-bind :
    {A B : Type 0} {r : Reply} (m : Proc A) (f : A → Proc B)
    → Returns m
    → ((a : A) → Ends r (f a))
    → Ends r (m >>= f)
Ends-bind m f km kf = record {
  at = λ env t.
      let (a, e) = km.at env t in
      ap (λ s. s.0) (bind_next m f env t a e) ∙ (kf a).at env (m env t).1;
}

-- An exit is an exit whatever would follow.
pub bind_exit :
    {A B : Type 0} (m : Proc A) (f : A → Proc B) (env : Env) (t : Trace) (r : Reply)
    → (m env t).0 ≡ exit r
    → (m >>= f) env t ≡ (exit r, (m env t).1)
unfolding ◌>>=◌
bind_exit m f env t r e = ap (λ s. continue s f env (m env t).1) e

-- A test that fails lets the rest run.
pub past_exit :
    {A : Type 0} (b : Bool) (r : Reply) (f : Unit → Proc A) (env : Env) (t : Trace)
    → b ≡ false
    → (exit_if b r >>= f) env t ≡ f tt env t
unfolding exit_if ◌>>=◌ pure finish
past_exit b r f env t e = ap (λ c. ((if c then finish r else pure tt) >>= f) env t) e

-- The same where the trace is known too.
pub bind_pair :
    {A B : Type 0} (m : Proc A) (f : A → Proc B) (env : Env) (t t' : Trace) (a : A)
    → m env t ≡ (next a, t')
    → (m >>= f) env t ≡ f a env t'
unfolding ◌>>=◌
bind_pair m f env t t' a e = ap (λ s. continue s.0 f env s.1) e

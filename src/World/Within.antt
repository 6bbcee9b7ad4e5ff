-- ===== src/World/Within.antt =====
-- The rules of `Meets` in one environment, of whose answers something is known: `Within env R m Q` says
-- that a return of `m` from a trace with `R` has `Q` of the value and the trace.
use alibaba_cloud_nlb_pool_o.Base.{
  Bool, true, false, ◌∷◌, Option, none, some, ◌≡◌, refl, if◌then◌else◌,
}
use alibaba_cloud_nlb_pool_o.World.Calls.{
  Call, Response, exchange, Trace, Env, GoError, Result, ok, err,
}
use alibaba_cloud_nlb_pool_o.World.Monad.{
  Flow, next, exit, panic, running, Proc, continue, ◌>>=◌, pure, request, asks, on_err, on_none,
}
use alibaba_cloud_nlb_pool_o.World.Keeps.{Keeps}
use alibaba_cloud_nlb_pool_o.World.Meets.{After, Meets}

pub record Within (env : Env) {A : Type 0} (R : Trace → Type 0) (m : Proc A)
    (Q : A → Trace → Type 0) : Type 0 where
  pub at : (t : Trace) → R t → After Q (λ _. Unit) (m env t).0 (m env t).1

module _ {env : Env} {A : Type 0} {R : Trace → Type 0} {Q : A → Trace → Type 0} where
  pub Within-Meets : {m : Proc A} → Meets R m Q (λ _. Unit) → Within env R m Q
  Within-Meets k = record { at = λ t h. k.at env t h }

  pub Within-pure : (a : A) → ((t : Trace) → R t → Q a t) → Within env R (pure a) Q
  unfolding pure
  Within-pure a k = record { at = k }

  pub Within-asks : (f : Env → A) → ((t : Trace) → R t → Q (f env) t) → Within env R (asks f) Q
  unfolding asks
  Within-asks f k = record { at = k }

  pub Within-if :
      (b : Bool) (m n : Proc A)
      → (b ≡ true → Within env R m Q)
      → (b ≡ false → Within env R n Q)
      → Within env R (if b then m else n) Q
  Within-if true m n km kn = km refl
  Within-if false m n km kn = kn refl

pub Within-weaken :
    {env : Env} {A : Type 0} {R S : Trace → Type 0} {Q : A → Trace → Type 0} {m : Proc A}
    → ((t : Trace) → S t → R t)
    → Within env R m Q
    → Within env S m Q
Within-weaken k w = record { at = λ t h. w.at t (k t h) }

pub Within-request :
    {env : Env} {R : Trace → Type 0} (c : Call) {Q : Response c → Trace → Type 0}
    → ((t : Trace) → R t → Q (env.respond t c) (exchange c (env.respond t c) ∷ t))
    → Within env R (request c) Q
unfolding request
Within-request c k = record { at = k }

module _ {env : Env} {A B : Type 0} {Q : A → Trace → Type 0} {S : B → Trace → Type 0} where
  continue-S :
      (r : Flow A) (f : A → Proc B) (t : Trace)
      → ((a : A) → Within env (Q a) (f a) S)
      → After Q (λ _. Unit) r t
      → After S (λ _. Unit) (continue r f env t).0 (continue r f env t).1
  continue-S (next a) f t k h = (k a).at t h
  continue-S (exit r) f t k h = h
  continue-S panic f t k h = h
  continue-S running f t k h = h

  pub Within-bind :
      {R : Trace → Type 0} (m : Proc A) (f : A → Proc B)
      → Within env R m Q
      → ((a : A) → Within env (Q a) (f a) S)
      → Within env R (m >>= f) S
  unfolding ◌>>=◌
  Within-bind m f km kf = record { at = λ t h. continue-S (m env t).0 f (m env t).1 kf (km.at t h) }

module _ {env : Env} {A B : Type 0} {R : Trace → Type 0} {S : B → Trace → Type 0} where
  pub Within-on_err :
      (r : Result A) (f : GoError → Proc B) (g : A → Proc B)
      → ((e : GoError) → r ≡ err e → Within env R (f e) S)
      → ((a : A) → r ≡ ok a → Within env R (g a) S)
      → Within env R (on_err r f g) S
  unfolding on_err
  Within-on_err (ok a) f g kf kg = kg a refl
  Within-on_err (err e) f g kf kg = kf e refl

  pub Within-on_none :
      (o : Option A) (f : Proc B) (g : A → Proc B)
      → (o ≡ none → Within env R f S)
      → ((a : A) → o ≡ some a → Within env R (g a) S)
      → Within env R (on_none o f g) S
  unfolding on_none
  Within-on_none none f g kf kg = kf refl
  Within-on_none (some a) f g kf kg = kg a refl

-- A fact about the trace in one environment that `m` keeps, however it ends.
pub record KeepsIn (env : Env) {A : Type 0} (P : Trace → Type 0) (m : Proc A) : Type 0 where
  pub at : (t : Trace) → P t → P (m env t).1

module _ {env : Env} {P : Trace → Type 0} where
  pub KeepsIn-Keeps : {A : Type 0} {m : Proc A} → Keeps P m → KeepsIn env P m
  KeepsIn-Keeps k = record { at = λ t h. k.at env t h }

  continue-P :
      {A B : Type 0} (r : Flow A) (f : A → Proc B) (t : Trace)
      → ((a : A) → KeepsIn env P (f a))
      → P t
      → P (continue r f env t).1
  continue-P (next a) f t k h = (k a).at t h
  continue-P (exit r) f t k h = h
  continue-P panic f t k h = h
  continue-P running f t k h = h

  pub KeepsIn-bind :
      {A B : Type 0} (m : Proc A) (f : A → Proc B)
      → KeepsIn env P m
      → ((a : A) → KeepsIn env P (f a))
      → KeepsIn env P (m >>= f)
  unfolding ◌>>=◌
  KeepsIn-bind m f km kf = record {
    at = λ t h. continue-P (m env t).0 f (m env t).1 kf (km.at t h);
  }

  pub KeepsIn-if :
      {A : Type 0} (b : Bool) (m n : Proc A)
      → KeepsIn env P m
      → KeepsIn env P n
      → KeepsIn env P (if b then m else n)
  KeepsIn-if true m n km kn = km
  KeepsIn-if false m n km kn = kn

  pub KeepsIn-on_err :
      {A B : Type 0} (r : Result A) (f : GoError → Proc B) (g : A → Proc B)
      → ((e : GoError) → KeepsIn env P (f e))
      → ((a : A) → KeepsIn env P (g a))
      → KeepsIn env P (on_err r f g)
  unfolding on_err
  KeepsIn-on_err (ok a) f g kf kg = kg a
  KeepsIn-on_err (err e) f g kf kg = kf e

-- ===== src/World/Progress.antt =====
-- What a handler comes to in one environment: the value that it returns, or the reply that it ends with.
use alibaba_cloud_nlb_pool_o.Base.{Bool, false, ◌≡◌, refl, sym, ap, ◌∙◌, if◌then◌else◌}
use mathlib.Core.Path.{subst}
use alibaba_cloud_nlb_pool_o.World.Calls.{Call, Response, Trace, Env}
use alibaba_cloud_nlb_pool_o.World.Monad.{
  Reply, Flow, next, exit, Proc, ◌>>=◌, pure, request, asks, exit_if,
}
use alibaba_cloud_nlb_pool_o.World.Returns.{bind_next}

-- `m` returns `a` from every trace.
pub record Gives (env : Env) {A : Type 0} (m : Proc A) (a : A) : Type 0 where
  pub at : (t : Trace) → (m env t).0 ≡ next a

-- `m` ends with the reply `r`, and leaves a trace with `Q`.
pub record Concludes (env : Env) {A : Type 0} (r : Reply) (Q : Trace → Type 0) (m : Proc A)
    : Type 0 where
  pub at : (t : Trace) → ((m env t).0 ≡ exit r) × Q (m env t).1

module _ {env : Env} where
  pub Gives-pure : {A : Type 0} (a : A) → Gives env (pure a) a
  unfolding pure
  Gives-pure a = record { at = λ t. refl }

  pub Gives-asks : {A : Type 0} (f : Env → A) → Gives env (asks f) (f env)
  unfolding asks
  Gives-asks f = record { at = λ t. refl }

  pub Gives-request :
      (c : Call) (r : Response c) → ((t : Trace) → env.respond t c ≡ r) → Gives env (request c) r
  unfolding request
  Gives-request c r answers = record { at = λ t. ap next (answers t) }

  pub Gives-bind :
      {A B : Type 0} (m : Proc A) (f : A → Proc B) (a : A) (b : B)
      → Gives env m a
      → Gives env (f a) b
      → Gives env (m >>= f) b
  Gives-bind m f a b given then_given = record {
    at = λ t. ap (λ s. s.0) (bind_next m f env t a (given.at t)) ∙ then_given.at (m env t).1;
  }

  pub Gives-if :
      {A : Type 0} (b c : Bool) (m n : Proc A) (a : A)
      → b ≡ c
      → Gives env (if c then m else n) a
      → Gives env (if b then m else n) a
  Gives-if b c m n a e given = subst (λ b. Gives env (if b then m else n) a) (sym e) given

  pub Gives-exit_if : (b : Bool) (r : Reply) → b ≡ false → Gives env (exit_if b r) tt
  unfolding exit_if
  Gives-exit_if b r e = Gives-if b false _ _ tt e (Gives-pure tt)

  pub Concludes-bind :
      {A B : Type 0} {r : Reply} {Q : Trace → Type 0} (m : Proc A) (f : A → Proc B) (a : A)
      → Gives env m a
      → Concludes env r Q (f a)
      → Concludes env r Q (m >>= f)
  Concludes-bind {r = r} {Q = Q} m f a given ends = record {
    at = λ t.
        subst (λ (s : Flow _ × Trace). (s.0 ≡ exit r) × Q s.1)
          (sym (bind_next m f env t a (given.at t))) (ends.at (m env t).1);
  }

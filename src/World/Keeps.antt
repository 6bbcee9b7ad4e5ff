-- ===== src/World/Keeps.antt =====
-- Rules for what a handler does to the trace: `Keeps P m` says that `m` makes `P` true of the trace
-- it leaves if `P` was true of the trace it met, whether it returns, exits or panics.
use alibaba_cloud_nlb_pool_o.Base.{
  ℕ, suc, Bool, true, false, List, [], ◌∷◌, Option, none, some, ◌≡◌, refl, ◌⊎◌, if◌then◌else◌,
}
use alibaba_cloud_nlb_pool_o.World.Calls.{
  Call, Response, Exchange, exchange, Trace, Env, GoError, is_conflict, Result, ok, err,
}
use alibaba_cloud_nlb_pool_o.World.Monad.{
  Reply, requeue_now, fail, Flow, next, exit, panic, running, Proc, continue, ◌>>=◌, pure, finish,
  crash, out_of_fuel, request, asks, on_err, on_none, or_panic, for_each, for_index, exit_if,
  or_requeue,
}

pub record Keeps {A : Type 0} (P : Trace → Type 0) (m : Proc A) : Type 0 where
  pub at : (env : Env) (t : Trace) → P t → P (m env t).1

module _ {A : Type 0} {P : Trace → Type 0} where
  pub Keeps-pure : (x : A) → Keeps P (pure x)
  unfolding pure
  Keeps-pure x = record { at = λ env t h. h }

  pub Keeps-finish : (r : Reply) → Keeps P (finish {A = A} r)
  unfolding finish
  Keeps-finish r = record { at = λ env t h. h }

  pub Keeps-crash : Keeps P (crash {A = A})
  unfolding crash
  Keeps-crash = record { at = λ env t h. h }

  pub Keeps-out_of_fuel : Keeps P (out_of_fuel {A = A})
  unfolding out_of_fuel
  Keeps-out_of_fuel = record { at = λ env t h. h }

  pub Keeps-asks : (f : Env → A) → Keeps P (asks f)
  unfolding asks
  Keeps-asks f = record { at = λ env t h. h }

  pub Keeps-or_panic : (o : Option A) → Keeps P (or_panic o)
  unfolding or_panic
  Keeps-or_panic none = record { at = λ env t h. h }
  Keeps-or_panic (some a) = record { at = λ env t h. h }

  pub Keeps-if :
      (c : Bool) (yes_branch no_branch : Proc A) (when : c ≡ true → Keeps P yes_branch)
      (unless : c ≡ false → Keeps P no_branch)
      → Keeps P (if c then yes_branch else no_branch)
  Keeps-if true yes_branch no_branch when unless = when refl
  Keeps-if false yes_branch no_branch when unless = unless refl

  pub Keeps-or_requeue : (r : Result A) → Keeps P (or_requeue r)
  unfolding or_requeue
  Keeps-or_requeue (ok a) = Keeps-pure a
  Keeps-or_requeue (err e) =
      Keeps-if (is_conflict e) (finish requeue_now) (finish (fail e))
        (λ _. Keeps-finish requeue_now) (λ _. Keeps-finish (fail e))

pub Keeps-exit_if : {P : Trace → Type 0} (b : Bool) (r : Reply) → Keeps P (exit_if b r)
unfolding exit_if
Keeps-exit_if b r = Keeps-if b (finish r) (pure tt) (λ _. Keeps-finish r) (λ _. Keeps-pure tt)

module _ {A B : Type 0} {P : Trace → Type 0} where
  continue-P :
      (r : Flow A) (f : A → Proc B) (env : Env) (t : Trace)
      → ((a : A) → Keeps P (f a))
      → P t
      → P (continue r f env t).1
  continue-P (next a) f env t k h = (k a).at env t h
  continue-P (exit r) f env t k h = h
  continue-P panic f env t k h = h
  continue-P running f env t k h = h

  pub Keeps-bind :
      (first : Proc A) (rest : A → Proc B) (before : Keeps P first)
      (after : (x : A) → Keeps P (rest x))
      → Keeps P (first >>= rest)
  unfolding ◌>>=◌
  Keeps-bind first rest before after = record {
    at = λ env t h. continue-P (first env t).0 rest env (first env t).1 after (before.at env t h);
  }

  pub Keeps-on_err :
      (r : Result A) (f : GoError → Proc B) (g : A → Proc B)
      → ((e : GoError) → r ≡ err e → Keeps P (f e))
      → ((a : A) → r ≡ ok a → Keeps P (g a))
      → Keeps P (on_err r f g)
  unfolding on_err
  Keeps-on_err (ok a) f g kf kg = kg a refl
  Keeps-on_err (err e) f g kf kg = kf e refl

  pub Keeps-on_none :
      (o : Option A) (f : Proc B) (g : A → Proc B)
      → (o ≡ none → Keeps P f)
      → ((a : A) → o ≡ some a → Keeps P (g a))
      → Keeps P (on_none o f g)
  unfolding on_none
  Keeps-on_none none f g kf kg = kf refl
  Keeps-on_none (some a) f g kf kg = kg a refl

module _ {A S : Type 0} {P : Trace → Type 0} where
  pub Keeps-for_each :
      (xs : List A) (s : S) (body : A → S → Proc S)
      → ((x : A) (s : S) → Keeps P (body x s))
      → Keeps P (for_each xs s body)
  unfolding for_each
  Keeps-for_each [] s body k = Keeps-pure s
  Keeps-for_each (x ∷ xs) s body k =
      Keeps-bind (body x s) (λ s'. for_each xs s' body) (k x s) λ s'. Keeps-for_each xs s' body k

  pub Keeps-for_index :
      (i : ℕ) (xs : List A) (s : S) (body : ℕ → A → S → Proc S)
      → ((i : ℕ) (x : A) (s : S) → Keeps P (body i x s))
      → Keeps P (for_index i xs s body)
  unfolding for_index
  Keeps-for_index i [] s body k = Keeps-pure s
  Keeps-for_index i (x ∷ xs) s body k =
      Keeps-bind (body i x s) (λ s'. for_index (suc i) xs s' body) (k i x s)
        λ s'. Keeps-for_index (suc i) xs s' body k

pub ruleset keeps_rules = (
  Keeps-pure, Keeps-finish, Keeps-crash, Keeps-out_of_fuel, Keeps-asks, Keeps-or_panic, Keeps-if,
  Keeps-bind, Keeps-on_err, Keeps-on_none, Keeps-for_each, Keeps-for_index, Keeps-or_requeue,
  Keeps-exit_if,
)

-- `Each P t`: every exchange of the trace satisfies `P`.
abbrev pub Each : (Exchange → Type 0) → Trace → Type 0
Each P [] = Unit
Each P (x ∷ t) = P x × Each P t

-- A call keeps `Each P` if the exchange satisfies `P` whatever the answer.
pub Keeps-request :
    {P : Exchange → Type 0} (c : Call)
    → ((r : Response c) → P (exchange c r))
    → Keeps (Each P) (request c)
unfolding request
Keeps-request c h = record { at = λ env t k. (h (env.respond t c), k) }

-- From the empty trace.
pub Keeps-run :
    {A : Type 0} {P : Exchange → Type 0} (m : Proc A)
    → Keeps (Each P) m
    → (env : Env) → Each P (m env []).1
Keeps-run m k env = k.at env [] tt

-- `Once P t`: some exchange of the trace satisfies `P`, and so of every longer trace.
abbrev pub Once : (Exchange → Type 0) → Trace → Type 0
Once P [] = ⊥
Once P (x ∷ t) = P x ⊎ Once P t

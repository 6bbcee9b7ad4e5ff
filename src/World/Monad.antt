-- ===== src/World/Monad.antt =====
-- Handlers: state passing over the trace, with early return and panic. A Go handler that returns
-- `(ctrl.Result, error)` is a `Proc Reply`; a `return` inside a loop is `exit`.
use alibaba_cloud_nlb_pool_o.Base.{
  ℕ, suc, String, Bool, true, false, List, [], ◌∷◌, Option, none, some, if◌then◌else◌,
}
use alibaba_cloud_nlb_pool_o.Types.{ObjectMeta, Key}
use alibaba_cloud_nlb_pool_o.World.Calls.{
  Call, record_event, Response, exchange, Trace, Env, GoError, is_conflict, Result, ok, err,
}

-- ctrl.Result with the error; `after` is in seconds
pub record Reply : Type 0 where
  pub requeue : Bool
  pub after : ℕ
  pub error : Option GoError

abbrev pub done : Reply
done = record { requeue = false; after = 0; error = none }

abbrev pub requeue_now : Reply
requeue_now = record { requeue = true; after = 0; error = none }

abbrev pub retry_after : ℕ → Reply
retry_after n = record { requeue = false; after = n; error = none }

abbrev pub fail : GoError → Reply
fail e = record { requeue = false; after = 0; error = some e }

abbrev pub retry_after_failure : ℕ → GoError → Reply
retry_after_failure n e = record { requeue = false; after = n; error = some e }

-- `panic` is a Go run-time panic, by an index out of range or a division by zero; `running` is a loop
-- whose fuel ran out.
pub data Flow (A : Type 0) : Type 0 where
  next : A → Flow A
  exit : Reply → Flow A
  panic running : Flow A

abbrev pub Proc : Type 0 → Type 0
Proc A = Env → Trace → Flow A × Trace

abbrev pub continue : {A B : Type 0} → Flow A → (A → Proc B) → Proc B
continue (next a) f env t = f a env t
continue (exit r) f env t = (exit r, t)
continue panic f env t = (panic, t)
continue running f env t = (running, t)

module _ {A B : Type 0} where
  infixl 5 ◌>>=◌ ◌>>◌
  unfoldable pub ◌>>=◌ : Proc A → (A → Proc B) → Proc B
  ◌>>=◌ m f env t = let (r, t') = m env t in continue r f env t'

  abbrev pub ◌>>◌ : Proc A → Proc B → Proc B
  m >> n = m >>= λ _. n

unfoldable pub pure : {A : Type 0} → A → Proc A
pure a env t = (next a, t)

-- a `return` of the reconcile result
unfoldable pub finish : {A : Type 0} → Reply → Proc A
finish r env t = (exit r, t)

unfoldable pub crash : {A : Type 0} → Proc A
crash env t = (panic, t)

unfoldable pub out_of_fuel : {A : Type 0} → Proc A
out_of_fuel env t = (running, t)

-- a call to the outside
unfoldable pub request : (c : Call) → Proc (Response c)
request c env t = let r = env.respond t c in (next r, exchange c r ∷ t)

-- the environment's pure functions
unfoldable pub asks : {A : Type 0} → (Env → A) → Proc A
asks f env t = (next (f env), t)

-- `x, err := …; if err != nil { … }`
unfoldable pub on_err : {A B : Type 0} → Result A → (GoError → Proc B) → (A → Proc B) → Proc B
on_err (ok a) f g = g a
on_err (err e) f g = f e

unfoldable pub on_none : {A B : Type 0} → Option A → Proc B → (A → Proc B) → Proc B
on_none none f g = f
on_none (some a) f g = g a

-- a test for an empty slice, with its head and tail where there is one
unfoldable pub on_empty : {A B : Type 0} → List A → Proc B → (A → List A → Proc B) → Proc B
on_empty [] f g = f
on_empty (x ∷ xs) f g = g x xs

-- a value that Go reads with a panic where there is none
unfoldable pub or_panic : {A : Type 0} → Option A → Proc A
unfolding crash pure
or_panic none = crash
or_panic (some a) = pure a

-- `for _, x := range xs { … }` over a loop variable
unfoldable pub for_each : {A S : Type 0} → List A → S → (A → S → Proc S) → Proc S
unfolding pure ◌>>=◌
for_each [] s body = pure s
for_each (x ∷ xs) s body = do s' ← body x s; for_each xs s' body

-- the same with the index
unfoldable pub for_index : {A S : Type 0} → ℕ → List A → S → (ℕ → A → S → Proc S) → Proc S
unfolding pure ◌>>=◌
for_index i [] s body = pure s
for_index i (x ∷ xs) s body = do s' ← body i x s; for_index (suc i) xs s' body

-- The response where there is one, and otherwise what stood in memory (`_ = r.Update(…)`).
abbrev pub or_keep : {A : Type 0} → A → Result A → A
or_keep a (ok b) = b
or_keep a (err e) = a

-- `if cond { return r }`
unfoldable pub exit_if : Bool → Reply → Proc Unit
unfolding finish pure
exit_if b r = if b then finish r else pure tt

-- a write whose error is returned, but for a conflict, which asks for another round
unfoldable pub or_requeue : {A : Type 0} → Result A → Proc A
unfolding finish pure
or_requeue (ok a) = pure a
or_requeue (err e) = if is_conflict e then finish requeue_now else finish (fail e)

-- `r.Recorder.Eventf`; the text of the message is not kept
unfoldable pub eventf : ObjectMeta → String → String → Proc Unit
unfolding request
eventf obj event_type reason =
    request (record_event (record { namespace = obj.namespace; name = obj.name }) event_type reason)

abbrev pub key_of : ObjectMeta → Key
key_of m = record { namespace = m.namespace; name = m.name }

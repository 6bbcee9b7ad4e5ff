-- ===== src/World/Meets.antt =====
-- What holds of the value that a handler returns: `Meets R m Q P` says that from a trace with `R`, a
-- return of `m` has `Q` of the value and the trace, and an exit or a panic has `P` of the trace.
use alibaba_cloud_nlb_pool_o.Base.{
  Bool, true, false, List, [], ◌∷◌, Option, none, some, ◌≡◌, refl, if◌then◌else◌,
}
use alibaba_cloud_nlb_pool_o.World.Calls.{
  Call, Response, Exchange, exchange, Trace, Env, GoError, Result, ok, err,
}
use alibaba_cloud_nlb_pool_o.World.Monad.{
  Reply, Flow, next, exit, panic, running, Proc, continue, ◌>>=◌, pure, finish, out_of_fuel,
  request, asks, exit_if, on_err, on_none, on_empty,
}
use alibaba_cloud_nlb_pool_o.World.Keeps.{Keeps}

abbrev pub After : {A : Type 0} → (A → Trace → Type 0) → (Trace → Type 0) → Flow A → Trace → Type 0
After Q P (next a) t = Q a t
After Q P (exit r) t = P t
After Q P panic t = P t
After Q P running t = P t

pub record Meets {A : Type 0} (R : Trace → Type 0) (m : Proc A) (Q : A → Trace → Type 0)
    (P : Trace → Type 0) : Type 0 where
  pub at : (env : Env) (t : Trace) → R t → After Q P (m env t).0 (m env t).1

module _ {A : Type 0} {R P : Trace → Type 0} {Q : A → Trace → Type 0} where
  pub Meets-pure : (a : A) → ((t : Trace) → R t → Q a t) → Meets R (pure a) Q P
  unfolding pure
  Meets-pure a k = record { at = λ env t h. k t h }

  pub Meets-finish : (r : Reply) → ((t : Trace) → R t → P t) → Meets R (finish {A = A} r) Q P
  unfolding finish
  Meets-finish r k = record { at = λ env t h. k t h }

  pub Meets-out_of_fuel : ((t : Trace) → R t → P t) → Meets R (out_of_fuel {A = A}) Q P
  unfolding out_of_fuel
  Meets-out_of_fuel k = record { at = λ env t h. k t h }

  pub Meets-asks : (f : Env → A) → ((a : A) (t : Trace) → R t → Q a t) → Meets R (asks f) Q P
  unfolding asks
  Meets-asks f k = record { at = λ env t h. k (f env) t h }

  pub Meets-if :
      (b : Bool) (m n : Proc A)
      → (b ≡ true → Meets R m Q P)
      → (b ≡ false → Meets R n Q P)
      → Meets R (if b then m else n) Q P
  Meets-if true m n km kn = km refl
  Meets-if false m n km kn = kn refl

ends_kept :
    {A : Type 0} (Q P : Trace → Type 0) (r : Flow A) (t : Trace)
    → (Q t → P t)
    → Q t
    → After (λ _. Q) P r t
ends_kept Q P (next a) t k h = h
ends_kept Q P (exit r) t k h = k h
ends_kept Q P panic t k h = k h
ends_kept Q P running t k h = k h

-- `m` keeps `R`, and so returns with it.
pub Meets-Keeps :
    {A : Type 0} {R P : Trace → Type 0} {m : Proc A}
    → ((t : Trace) → R t → P t)
    → Keeps R m
    → Meets R m (λ _. R) P
Meets-Keeps {R = R} {P = P} {m = m} k keeps = record {
  at = λ env t h. ends_kept R P (m env t).0 (m env t).1 (k (m env t).1) (keeps.at env t h);
}

ends_either :
    {A : Type 0} (Q : A → Trace → Type 0) (P : Trace → Type 0) (r : Flow A) (t : Trace)
    → ((a : A) (t : Trace) → Q a t → P t)
    → After Q P r t
    → P t
ends_either Q P (next a) t k h = k a t h
ends_either Q P (exit r) t k h = h
ends_either Q P panic t k h = h
ends_either Q P running t k h = h

-- Where `Q` gives `P`, `P` holds however `m` ends.
pub Keeps-Meets :
    {A : Type 0} {P : Trace → Type 0} {m : Proc A} {Q : A → Trace → Type 0}
    → ((a : A) (t : Trace) → Q a t → P t)
    → Meets P m Q P
    → Keeps P m
Keeps-Meets {P = P} {m = m} {Q = Q} k meets = record {
  at = λ env t h. ends_either Q P (m env t).0 (m env t).1 k (meets.at env t h);
}

module _ {A B : Type 0} {P : Trace → Type 0} {Q : A → Trace → Type 0} {S : B → Trace → Type 0} where
  continue-S :
      (r : Flow A) (f : A → Proc B) (env : Env) (t : Trace)
      → ((a : A) → Meets (Q a) (f a) S P)
      → After Q P r t
      → After S P (continue r f env t).0 (continue r f env t).1
  continue-S (next a) f env t k h = (k a).at env t h
  continue-S (exit r) f env t k h = h
  continue-S panic f env t k h = h
  continue-S running f env t k h = h

  pub Meets-bind :
      {R : Trace → Type 0} (m : Proc A) (f : A → Proc B)
      → Meets R m Q P
      → ((a : A) → Meets (Q a) (f a) S P)
      → Meets R (m >>= f) S P
  unfolding ◌>>=◌
  Meets-bind m f km kf = record {
    at = λ env t h. continue-S (m env t).0 f env (m env t).1 kf (km.at env t h);
  }

module _ {A B : Type 0} {R P : Trace → Type 0} {S : B → Trace → Type 0} where
  pub Meets-on_err :
      (r : Result A) (f : GoError → Proc B) (g : A → Proc B)
      → ((e : GoError) → r ≡ err e → Meets R (f e) S P)
      → ((a : A) → r ≡ ok a → Meets R (g a) S P)
      → Meets R (on_err r f g) S P
  unfolding on_err
  Meets-on_err (ok a) f g kf kg = kg a refl
  Meets-on_err (err e) f g kf kg = kf e refl

  pub Meets-on_none :
      (o : Option A) (f : Proc B) (g : A → Proc B)
      → (o ≡ none → Meets R f S P)
      → ((a : A) → o ≡ some a → Meets R (g a) S P)
      → Meets R (on_none o f g) S P
  unfolding on_none
  Meets-on_none none f g kf kg = kf refl
  Meets-on_none (some a) f g kf kg = kg a refl

pub Meets-on_empty :
    {A B : Type 0} {R P : Trace → Type 0} {S : B → Trace → Type 0} (xs : List A) (f : Proc B)
    (g : A → List A → Proc B)
    → (xs ≡ [] → Meets R f S P)
    → ((y : A) (ys : List A) → xs ≡ y ∷ ys → Meets R (g y ys) S P)
    → Meets R (on_empty xs f g) S P
unfolding on_empty
Meets-on_empty [] f g kf kg = kf refl
Meets-on_empty (x ∷ xs) f g kf kg = kg x xs refl

pub Meets-weaken :
    {A : Type 0} {R R' P : Trace → Type 0} {m : Proc A} {Q : A → Trace → Type 0}
    → ((t : Trace) → R' t → R t)
    → Meets R m Q P
    → Meets R' m Q P
Meets-weaken k meets = record { at = λ env t h. meets.at env t (k t h) }

both :
    {A : Type 0} (Q : A → Trace → Type 0) (K : Trace → Type 0) (r : Flow A) (t : Trace)
    → After Q (λ _. Unit) r t
    → K t
    → After (λ a t. Q a t × K t) (λ _. Unit) r t
both Q K (next a) t q k = (q, k)
both Q K (exit r) t q k = tt
both Q K panic t q k = tt
both Q K running t q k = tt

-- What `m` returns and what it keeps, together.
pub Meets-also :
    {A : Type 0} {R K : Trace → Type 0} {m : Proc A} {Q : A → Trace → Type 0}
    → Meets R m Q (λ _. Unit)
    → Keeps K m
    → Meets (λ t. R t × K t) m (λ a t. Q a t × K t) (λ _. Unit)
Meets-also {K = K} {m = m} {Q = Q} meets keeps = record {
  at = λ env t h. both Q K (m env t).0 (m env t).1 (meets.at env t h.0) (keeps.at env t h.1);
}

ends_mapped :
    {A : Type 0} (Q S : A → Trace → Type 0) (P : Trace → Type 0) (r : Flow A) (t : Trace)
    → ((a : A) (t : Trace) → Q a t → S a t)
    → After Q P r t
    → After S P r t
ends_mapped Q S P (next a) t k h = k a t h
ends_mapped Q S P (exit r) t k h = h
ends_mapped Q S P panic t k h = h
ends_mapped Q S P running t k h = h

pub Meets-map :
    {A : Type 0} {R P : Trace → Type 0} {m : Proc A} {Q S : A → Trace → Type 0}
    → ((a : A) (t : Trace) → Q a t → S a t)
    → Meets R m Q P
    → Meets R m S P
Meets-map {P = P} {m = m} {Q = Q} {S = S} k meets = record {
  at = λ env t h. ends_mapped Q S P (m env t).0 (m env t).1 k (meets.at env t h);
}

kept_and_met :
    {A : Type 0} (Q : A → Trace → Type 0) (K : Trace → Type 0) (r : Flow A) (t : Trace)
    → After Q (λ _. Unit) r t
    → K t
    → After (λ a t. K t × Q a t) K r t
kept_and_met Q K (next a) t q k = (k, q)
kept_and_met Q K (exit r) t q k = k
kept_and_met Q K panic t q k = k
kept_and_met Q K running t q k = k

-- `m` keeps `K`, and `f` keeps it from what `m` returns with.
pub Keeps-then :
    {A B : Type 0} {K : Trace → Type 0} {Q : A → Trace → Type 0} (m : Proc A) (f : A → Proc B)
    → Keeps K m
    → Meets (λ _. Unit) m Q (λ _. Unit)
    → ((a : A) → Meets (λ t. K t × Q a t) (f a) (λ _. K) K)
    → Keeps K (m >>= f)
Keeps-then {K = K} {Q = Q} m f km meets kf =
    Keeps-Meets (λ _ t h. h)
      (Meets-bind {Q = λ a t. K t × Q a t} m f
        (record {
          at = λ env t h.
              kept_and_met Q K (m env t).0 (m env t).1 (meets.at env t tt) (km.at env t h);
        })
        kf)

-- A fact about the trace that `m` leaves, however it ends.
pub Meets-end :
    {A : Type 0} {R K : Trace → Type 0} {m : Proc A}
    → ((env : Env) (t : Trace) → R t → K (m env t).1)
    → Meets R m (λ _. K) K
Meets-end {K = K} {m = m} k = record {
  at = λ env t h. ends_kept K K (m env t).0 (m env t).1 (λ x. x) (k env t h);
}

-- A call with its answer stands at the head of the trace.
pub Meets-request :
    {R P : Trace → Type 0} (c : Call) {Q : Response c → Trace → Type 0}
    → ((r : Response c) (t : Trace) → R t → Q r (exchange c r ∷ t))
    → Meets R (request c) Q P
unfolding request
Meets-request c k = record { at = λ env t h. k (env.respond t c) t h }

-- Past a test, it has failed.
pub Meets-exit_if :
    {R P : Trace → Type 0} (b : Bool) (r : Reply)
    → ((t : Trace) → R t → P t)
    → Meets R (exit_if b r) (λ _ t. R t × (b ≡ false)) P
unfolding exit_if
Meets-exit_if true r k = Meets-finish r k
Meets-exit_if false r k = Meets-pure tt λ t h. (h, refl)

-- `Preceded D P t`: where an exchange of the trace satisfies `D`, the trace before it satisfied `P`.
abbrev pub Preceded : (Exchange → Type 0) → (Trace → Type 0) → Trace → Type 0
Preceded D P [] = Unit
Preceded D P (x ∷ t) = (D x → P t) × Preceded D P t

-- Nothing is claimed.
pub Meets-nothing :
    {A : Type 0} {R : Trace → Type 0} (m : Proc A) → Meets R m (λ _ _. Unit) (λ _. Unit)
Meets-nothing {A} m = record { at = λ env t h. ends (m env t).0 (m env t).1 }
  where
    ends : (r : Flow A) (t : Trace) → After (λ _ _. Unit) (λ _. Unit) r t
    ends (next a) t = tt
    ends (exit r) t = tt
    ends panic t = tt
    ends running t = tt

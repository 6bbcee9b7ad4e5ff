-- ===== src/Allocation/Claims.antt =====
-- handleAvailable and availableResumeBind: what the API server has seen of a pod's claim when an allocation
-- turns to Binding.
pub mod Available
use alibaba_cloud_nlb_pool_o.Base.{
  ℕ, String, Bool, true, false, List, [], ◌∷◌, Option, some, none, ◌≡◌, refl, ap, ◌∙◌, ◌⊎◌, inl,
  inr, not, ◌==◌, eq_refl, eq_iff, if◌then◌else◌, arith,
}
use alibaba_cloud_nlb_pool_o.Types.{
  Key, Dict, or_blank, lookup?, lookup, insert, annotation_pa_claim, PortAllocation, Pod, PaPhase,
  binding,
}
use alibaba_cloud_nlb_pool_o.World.{
  GoError, is_not_found, fail, retry_after, ◌>>◌, on_none, Call, update_pa, update_pa_status,
  update_pod, get_pod, Exchange, exchange, Trace, Env, Result, ok, err, Proc, ◌>>=◌, request, pure,
  finish, or_requeue, eventf, on_err,
}
use alibaba_cloud_nlb_pool_o.World.Keeps.{
  Keeps, Once, Keeps-if, Keeps-bind, Keeps-on_err, Keeps-on_none, Keeps-finish,
}
use alibaba_cloud_nlb_pool_o.World.Meets.{
  Meets, Meets-bind, Meets-Keeps, Meets-end, Meets-on_err, Meets-on_none, Meets-weaken, Meets-if,
  Meets-finish, Keeps-Meets,
}
use alibaba_cloud_nlb_pool_o.World.Only.{Only, Frame, Only-mono, only_rules}
use alibaba_cloud_nlb_pool_o.World.Requests.{request_rules}
use mathlib.Core.Path.{subst}
use alibaba_cloud_nlb_pool_o.Allocation.Transitions.{Seen, WritesNoStatus, quiet→no_status}
use alibaba_cloud_nlb_pool_o.Allocation.Calls
use alibaba_cloud_nlb_pool_o.Allocation.Helpers.{
  update_phase_label, clear_claim, with_bound_pod, pod_key,
}
use alibaba_cloud_nlb_pool_o.Allocation.Available.{
  claim_of, claimed_by, start_binding, roll_back, claim_pod, resume_binding, available_resume_bind,
  handle_available,
}

-- the API server has shown a pod with the claim of `name`, or has accepted it
abbrev pub ShowsClaim : String → Exchange → Type 0
ShowsClaim name (exchange (get_pod k) (ok pod)) = claim_of pod ≡ name
ShowsClaim name (exchange (update_pod pod) (ok pod')) = claim_of pod ≡ name
ShowsClaim name _ = ⊥

-- the server has answered a write of the allocation `name` with the allocation `answered`
abbrev pub AnswersFor : String → String → Exchange → Type 0
AnswersFor name answered (exchange (update_pa pa) (ok pa')) =
    (pa.metadata.name ≡ name) × (pa'.metadata.name ≡ answered)
AnswersFor name answered _ = ⊥

-- a pod carries the claim of the allocation with this name, or of the one that the server answered for
abbrev pub Claimed : String → Trace → Type 0
Claimed name t =
    Once (ShowsClaim name) t ⊎ ((n : String) × Once (AnswersFor n name) t × Once (ShowsClaim n) t)

abbrev pub BindsClaimed : Trace → Type 0
BindsClaimed [] = Unit
BindsClaimed (exchange (update_pa_status pa) r ∷ t) =
    (pa.status.phase ≡ binding → Claimed pa.metadata.name t ⊎ Seen binding t) × BindsClaimed t
BindsClaimed (_ ∷ t) = BindsClaimed t

if_true : {A : Type 0} {x : A} (y : A) (b : Bool) → b ≡ true → (if b then x else y) ≡ x
if_true y true e = refl
if_true y false e = ground arith

if_false : {A : Type 0} (x : A) {y : A} (b : Bool) → b ≡ false → (if b then x else y) ≡ y
if_false x true e = ground arith
if_false x false e = refl

inserted :
    (k v : String) (entry : String × String) (m m' : Dict) (b : Bool)
    → (entry.0 == k) ≡ b
    → lookup? k m' ≡ some v
    → lookup? k (if b then (entry.0, v) ∷ m else entry ∷ m') ≡ some v
inserted k v entry m m' true e h = if_true _ (entry.0 == k) e
inserted k v entry m m' false e h = if_false _ (entry.0 == k) e ∙ h

lookup?-insert : (k v : String) (m : Dict) → lookup? k (insert k v m) ≡ some v
lookup?-insert k v [] = if_true _ (k == k) (eq_refl k)
lookup?-insert k v (entry ∷ m) =
    inserted k v entry m (insert k v m) (entry.0 == k) refl (lookup?-insert k v m)

lookup-insert : (k v : String) (m : Dict) → lookup k (insert k v m) ≡ v
lookup-insert k v m = ap or_blank (lookup?-insert k v m)

start_binding-BindsClaimed :
    (pa : PortAllocation) (env : Env) (t : Trace)
    → Claimed pa.metadata.name t
    → BindsClaimed t
    → BindsClaimed (start_binding pa env t).1
unfolding start_binding update_phase_label ◌>>=◌ request or_requeue eventf pure finish
start_binding-BindsClaimed pa env t c h = ground arith

roll_back-BindsClaimed :
    (pa : PortAllocation) (env : Env) (t : Trace)
    → BindsClaimed t
    → BindsClaimed (roll_back pa env t).1
unfolding roll_back ◌>>=◌ request or_requeue eventf pure finish
roll_back-BindsClaimed pa env t h = ground arith

BindsClaimed-monotone : Frame WritesNoStatus BindsClaimed
BindsClaimed-monotone (Call.update_pa_status pa) r t k h = elim k [ ]
BindsClaimed-monotone _ r t k h = h

Claimed-monotone :
    (name : String) (x : Exchange) (t : Trace) → Claimed name t → Claimed name (x ∷ t)
Claimed-monotone name x t (inl h) = inl (inr h)
Claimed-monotone name x t (inr (n, a, s)) = inr (n, inr a, inr s)

abbrev MayBind : String → Trace → Type 0
MayBind name t = Claimed name t × BindsClaimed t

MayBind-monotone : (name : String) → Frame WritesNoStatus (MayBind name)
MayBind-monotone name c r t k h =
    (Claimed-monotone name (exchange c r) t h.0, BindsClaimed-monotone c r t k h.1)

-- Calls that write no status pass on what held before.
pass :
    {A B : Type 0} {R : Trace → Type 0} {S : B → Trace → Type 0} (m : Proc A) (f : A → Proc B)
    → Frame WritesNoStatus R
    → ((t : Trace) → R t → BindsClaimed t)
    → Only WritesNoStatus m
    → ((a : A) → Meets R (f a) S BindsClaimed)
    → Meets R (m >>= f) S BindsClaimed
pass {R = R} m f frame k o kf = Meets-bind m f (Meets-Keeps k (o.keeps R frame)) kf

abbrev AfterClaim : String → Result Pod → Trace → Type 0
AfterClaim name (ok pod) t = MayBind name t
AfterClaim name (err e) t = BindsClaimed t

after_claim :
    (pa : PortAllocation) (pod : Pod) (r : Result Pod) (t : Trace)
    → BindsClaimed t
    → AfterClaim pa.metadata.name r (exchange (update_pod (claimed_by pa pod)) r ∷ t)
after_claim pa pod (ok pod') t h =
    (inl (inl (lookup-insert annotation_pa_claim pa.metadata.name pod.metadata.annotations)), h)
after_claim pa pod (err e) t h = h

module _ (pa : PortAllocation) where
  write_claim :
      (pod : Pod)
      → Meets BindsClaimed
          (request (update_pod (claimed_by pa pod)))
          (AfterClaim pa.metadata.name)
          BindsClaimed
  unfolding request
  write_claim pod = record {
    at = λ env t h. after_claim pa pod (env.respond t (update_pod (claimed_by pa pod))) t h;
  }

  start : Meets (MayBind pa.metadata.name) (start_binding pa) (λ _. BindsClaimed) BindsClaimed
  start = Meets-end λ env t h. start_binding-BindsClaimed pa env t h.0 h.1

  undo : Meets BindsClaimed (roll_back pa) (λ _. BindsClaimed) BindsClaimed
  undo = Meets-end (roll_back-BindsClaimed pa)

ruleset rules = (only_rules, request_rules)

claim_pod-BindsClaimed :
    (pa : PortAllocation) (pod : Pod)
    → Meets BindsClaimed (claim_pod pa pod) (λ _. BindsClaimed) BindsClaimed
unfolding claim_pod
claim_pod-BindsClaimed pa pod =
    pass _ _ BindsClaimed-monotone (λ t h. h) (search rules)
      λ written.
        pass _ _ BindsClaimed-monotone (λ t h. h) (search rules)
          λ pa.
            pass _ _ BindsClaimed-monotone (λ t h. h) (search rules)
              λ _. Meets-bind _ _ (write_claim pa pod) λ claimed.
                Meets-on_err claimed _ _
                  (λ e r.
                    Meets-weaken (λ t h. subst (λ c. AfterClaim pa.metadata.name c t) r h)
                      (undo pa))
                  λ p r.
                    Meets-weaken (λ t h. subst (λ c. AfterClaim pa.metadata.name c t) r h)
                      (pass _ _ (MayBind-monotone pa.metadata.name) (λ t h. h.1) (search rules)
                        λ _. start pa)

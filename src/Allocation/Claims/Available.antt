-- ===== src/Allocation/Claims/Available.antt =====
-- The resumed claim, and handleAvailable.
use alibaba_cloud_nlb_pool_o.Base.{
  String, ◌∷◌, ◌≡◌, refl, inl, inr, not, ◌==◌, eq_iff, if◌then◌else◌, arith,
}
use alibaba_cloud_nlb_pool_o.Types.{Key, annotation_pa_claim, PortAllocation, Pod}
use alibaba_cloud_nlb_pool_o.World.{
  GoError, is_not_found, fail, retry_after, ◌>>◌, update_pa, update_pod, get_pod, exchange, Trace,
  Env, Result, ok, err, Proc, ◌>>=◌, request, pure, finish, or_requeue, eventf, on_err,
}
use alibaba_cloud_nlb_pool_o.World.Keeps.{
  Keeps, Once, Keeps-if, Keeps-bind, Keeps-on_err, Keeps-on_none, Keeps-finish,
}
use alibaba_cloud_nlb_pool_o.World.Meets.{
  Meets, Meets-bind, Meets-end, Meets-on_err, Meets-weaken, Meets-if, Meets-finish, Keeps-Meets,
}
use alibaba_cloud_nlb_pool_o.World.Only.{Only, Frame, Only-mono}
use mathlib.Core.Path.{subst}
use alibaba_cloud_nlb_pool_o.Allocation.Transitions.{WritesNoStatus, quiet→no_status}
use alibaba_cloud_nlb_pool_o.Allocation.Calls
use alibaba_cloud_nlb_pool_o.Allocation.Helpers.{clear_claim, with_bound_pod, pod_key}
use alibaba_cloud_nlb_pool_o.Allocation.Available.{
  claim_of, claimed_by, resume_binding, available_resume_bind, handle_available,
}
use alibaba_cloud_nlb_pool_o.Allocation.Claims.{
  ShowsClaim, BindsClaimed, lookup-insert, BindsClaimed-monotone, MayBind, pass, start,
  claim_pod-BindsClaimed, rules,
}

abbrev Shown : String → Trace → Type 0
Shown name t = Once (ShowsClaim name) t × BindsClaimed t

Shown-monotone : (name : String) → Frame WritesNoStatus (Shown name)
Shown-monotone name c r t k h = (inr h.0, BindsClaimed-monotone c r t k h.1)

abbrev AfterUpdate : Result PortAllocation → Trace → Type 0
AfterUpdate (ok pa) t = MayBind pa.metadata.name t
AfterUpdate (err e) t = BindsClaimed t

after_update :
    (pa : PortAllocation) (r : Result PortAllocation) (t : Trace)
    → Shown pa.metadata.name t
    → AfterUpdate r (exchange (update_pa pa) r ∷ t)
after_update pa (ok pa') t h = (inr (pa.metadata.name, inl (refl, refl), inr h.0), h.1)
after_update pa (err e) t h = h.1

accepted :
    (r : Result PortAllocation)
    → Meets (AfterUpdate r) (or_requeue r) (λ pa t. MayBind pa.metadata.name t) BindsClaimed
unfolding or_requeue finish pure
accepted (ok pa) = record { at = λ env t h. h }
accepted (err e) = record { at = λ env t h. ground arith }

module _ (pa : PortAllocation) where
  write_update : Meets (Shown pa.metadata.name) (request (update_pa pa)) AfterUpdate BindsClaimed
  unfolding request
  write_update = record { at = λ env t h. after_update pa (env.respond t (update_pa pa)) t h }

  cleared_claim :
      (s : String) (env : Env) (t : Trace)
      → BindsClaimed t
      → BindsClaimed (clear_claim pa s env t).1
  unfolding clear_claim ◌>>=◌ request or_requeue eventf pure finish
  cleared_claim s env t h = ground arith

  clear_claim-BindsClaimed :
      (s : String) → Meets BindsClaimed (clear_claim pa s) (λ _. BindsClaimed) BindsClaimed
  clear_claim-BindsClaimed s = Meets-end (cleared_claim s)

resume_binding-BindsClaimed :
    (pa : PortAllocation) (pod : Pod)
    → Meets (Shown pa.metadata.name) (resume_binding pa pod) (λ _. BindsClaimed) BindsClaimed
unfolding resume_binding
resume_binding-BindsClaimed pa pod =
    pass _ _ (Shown-monotone pa.metadata.name) (λ t h. h.1) (search rules)
      λ _.
        Meets-if _ _ _ (λ _. Meets-weaken (λ t h. (inl h.0, h.1)) (start pa))
          λ _.
            Meets-bind _ _ (write_update (with_bound_pod pa.spec.bound_pod pod.pod_ip pa))
              λ written. Meets-bind _ _ (accepted written) start

abbrev AfterGet : String → Result Pod → Trace → Type 0
AfterGet name (ok pod) t = (claim_of pod ≡ name → Once (ShowsClaim name) t) × BindsClaimed t
AfterGet name (err e) t = BindsClaimed t

read-AfterGet :
    (name : String) (k : Key) (r : Result Pod) (t : Trace)
    → BindsClaimed t
    → AfterGet name r (exchange (get_pod k) r ∷ t)
read-AfterGet name k (ok pod) t h = ((λ e. inl e), h)
read-AfterGet name k (err e) t h = h

read_pod :
    (name : String) (k : Key)
    → Meets BindsClaimed (request (get_pod k)) (AfterGet name) BindsClaimed
unfolding request
read_pod name k = record { at = λ env t h. read-AfterGet name k (env.respond t (get_pod k)) t h }

abbrev AfterClaimShown : String → Result Pod → Trace → Type 0
AfterClaimShown name (ok pod) t = Shown name t
AfterClaimShown name (err e) t = BindsClaimed t

after_claim_shown :
    (pa : PortAllocation) (pod : Pod) (r : Result Pod) (t : Trace)
    → BindsClaimed t
    → AfterClaimShown pa.metadata.name r (exchange (update_pod (claimed_by pa pod)) r ∷ t)
after_claim_shown pa pod (ok pod') t h =
    (inl (lookup-insert annotation_pa_claim pa.metadata.name pod.metadata.annotations), h)
after_claim_shown pa pod (err e) t h = h

write_claim_shown :
    (pa : PortAllocation) (pod : Pod)
    → Meets BindsClaimed
        (request (update_pod (claimed_by pa pod)))
        (AfterClaimShown pa.metadata.name)
        BindsClaimed
unfolding request
write_claim_shown pa pod = record {
  at = λ env t h. after_claim_shown pa pod (env.respond t (update_pod (claimed_by pa pod))) t h;
}

passes : {A : Type 0} {m : Proc A} → Only WritesNoStatus m → Keeps BindsClaimed m
passes o = o.keeps BindsClaimed BindsClaimed-monotone

module _ (pa : PortAllocation) where
  gone :
      (e : GoError)
      → Meets BindsClaimed
          (if is_not_found e
            then clear_claim pa "reserved pod no longer exists"
            else finish (fail e))
          (λ _. BindsClaimed)
          BindsClaimed
  gone e =
      Meets-if (is_not_found e) (clear_claim pa "reserved pod no longer exists") (finish (fail e))
        (λ _. clear_claim-BindsClaimed pa _) (λ _. Meets-finish _ (λ t h. h))

  repeat_claim :
      (pod : Pod) (claimed : Result Pod)
      → Meets
          (AfterClaimShown pa.metadata.name claimed)
          (on_err claimed
            (λ e. do
              eventf pa.metadata "Warning" "ResumePodCASFailed"
              clear_claim pa "Pod CAS failed during resume")
            λ pod. do eventf pa.metadata "Normal" "ResumedPodClaim"; resume_binding pa pod)
          (λ _. BindsClaimed)
          BindsClaimed
  repeat_claim pod claimed =
      Meets-on_err claimed _ _
        (λ e r.
          Meets-weaken (λ t h. subst (λ c. AfterClaimShown pa.metadata.name c t) r h)
            (pass _ _ BindsClaimed-monotone (λ t h. h) (search rules)
              λ _. clear_claim-BindsClaimed pa _))
        λ p r.
          Meets-weaken (λ t h. subst (λ c. AfterClaimShown pa.metadata.name c t) r h)
            (pass _ _ (Shown-monotone pa.metadata.name) (λ t h. h.1) (search rules)
              λ _. resume_binding-BindsClaimed pa p)

  available_resume_bind-BindsClaimed :
      Meets BindsClaimed (available_resume_bind pa) (λ _. BindsClaimed) BindsClaimed
  unfolding available_resume_bind
  available_resume_bind-BindsClaimed =
      Meets-bind _ _ (read_pod pa.metadata.name (pod_key pa)) λ got.
        Meets-on_err got _ _
          (λ e r. Meets-weaken (λ t h. subst (λ c. AfterGet pa.metadata.name c t) r h) (gone e))
          λ pod r.
            Meets-weaken (λ t h. subst (λ c. AfterGet pa.metadata.name c t) r h)
              (Meets-if (claim_of pod == pa.metadata.name) _ _
                (λ e.
                  Meets-weaken (λ t h. (h.0 ((eq_iff (claim_of pod) pa.metadata.name).0 e), h.1))
                    (resume_binding-BindsClaimed pa pod))
                λ _.
                  Meets-weaken (λ t h. h.1)
                    (Meets-if (claim_of pod == "") _ _
                      (λ _. Meets-bind _ _ (write_claim_shown pa pod) (repeat_claim pod))
                      λ _.
                        pass _ _ BindsClaimed-monotone (λ t h. h) (search rules)
                          λ _. clear_claim-BindsClaimed pa _))

-- Every status write of Binding that handleAvailable makes comes after the API server has shown a pod
-- with the claim of the allocation, or has accepted a pod with it; the allocation is the one written, or
-- the one whose own write the server answered with the one written. The exception is an allocation that
-- the server has itself handed back in Binding before.
pub handle_available-BindsClaimed : (pa : PortAllocation) → Keeps BindsClaimed (handle_available pa)
unfolding handle_available
handle_available-BindsClaimed pa =
    Keeps-if (not (pa.spec.bound_pod == "")) (available_resume_bind pa) _
      (λ _. Keeps-Meets (λ _ t h. h) (available_resume_bind-BindsClaimed pa))
      λ _. Keeps-bind _ _ (passes (search rules)) λ listed.
        Keeps-on_err listed _ _ (λ e _. Keeps-finish (fail e))
          λ pods _.
            Keeps-bind _ _
              (passes (Only-mono quiet→no_status (Calls.find_candidate-IsQuiet pa pods)))
              λ candidate.
                Keeps-on_none candidate _ _ (λ _. Keeps-finish (retry_after 5))
                  λ pod _. Keeps-Meets (λ _ t h. h) (claim_pod-BindsClaimed pa pod)

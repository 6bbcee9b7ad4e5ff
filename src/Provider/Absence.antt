-- ===== src/Provider/Absence.antt =====
-- LoadBalancerExists of AlibabaNLBClient, behind a limiter.
use alibaba_cloud_nlb_pool_o.Base.{
  String, Bool, true, false, Option, none, some, contains, ◌≡◌, refl, sym, ap, ◌∙◌, inl, inr,
  Bool-cases, arith, ◌==◌, ◌||◌, if◌then◌else◌,
}
use alibaba_cloud_nlb_pool_o.World.{GoError, wrapped, Result, ok, err}
use alibaba_cloud_nlb_pool_o.Provider.Client.{Act}
use alibaba_cloud_nlb_pool_o.Provider.Sdk.{Sdk}
use alibaba_cloud_nlb_pool_o.Provider.Cloud.{existence, load_balancer_exists}
use alibaba_cloud_nlb_pool_o.Provider.RateLimiter.{check_limit, limited}

-- the text of an error of the cloud that does not know the load balancer
abbrev pub says_unknown : GoError → Bool
says_unknown e = contains e.message "ResourceNotFound" || contains e.message "InvalidResourceId"

failed : {A : Type 0} (a : A) (x : GoError) → err x ≡ ok a → ⊥
failed a x q = ground arith

existence-unknown :
    {A : Type 0} (r : Result (Option A))
    → existence r ≡ ok false
    → (e : GoError) × (r ≡ err e) × (says_unknown e ≡ true)
unfolding existence
existence-unknown (ok body) h = ground arith
existence-unknown (err e) h = elim (Bool-cases (says_unknown e)) [
  | inl t ↦ (e, refl, t)
  | inr f ↦ absurd (
      failed false (wrapped "GetLoadBalancerAttribute API error" e) (
        ap (λ b. if b then ok false else err (wrapped "GetLoadBalancerAttribute API error" e))
          (sym f)
        ∙ h))
]

abbrev answer_of : {S : Type 0} → Option (Result Bool × S) → Result Bool
answer_of none = ok true
answer_of (some (r, s)) = r

past_limiter :
    {L S : Type 0} (allow : L → S → Bool × S) (limiter : Option L) (act : Act S Bool) (s s' : S)
    → limited allow limiter act s ≡ some (ok false, s')
    → (s1 : S) × (act s1 ≡ some (ok false, s'))
unfolding limited
past_limiter {S = S} allow limiter act s s' h =
    checked (check_limit allow limiter s).0 (check_limit allow limiter s).1 h
  where
    checked :
        (e : Option GoError) (s1 : S)
        → elim e as (λ _. Option (Result Bool × S)) [ none ↦ act s1 | some e ↦ some (err e, s1) ]
          ≡ some (ok false, s')
        → (s1 : S) × (act s1 ≡ some (ok false, s'))
    checked none s1 h = (s1, h)
    checked (some e) s1 h = absurd (failed false e (ap answer_of h))

-- Behind a limiter, LoadBalancerExists answers no for an id that is not blank only where the SDK was asked
-- for the load balancer and failed with an error that says it does not know it.
pub load_balancer_exists-Unknown :
    {L S : Type 0} (allow : L → S → Bool × S) (limiter : Option L) (sdk : Sdk S)
    (region id : String) (s s' : S)
    → (id == "") ≡ false
    → limited allow limiter (load_balancer_exists sdk region id) s ≡ some (ok false, s')
    → (s1 : S) × (e : GoError) × ((sdk.get_load_balancer_attribute id region s1).0 ≡ err e)
      × (says_unknown e ≡ true)
unfolding load_balancer_exists
load_balancer_exists-Unknown allow limiter sdk region id s s' named h =
    let (s1, ran) = past_limiter allow limiter (load_balancer_exists sdk region id) s s' h in
    let read = sdk.get_load_balancer_attribute id region s1 in
    let (e, asked, unknown) = existence-unknown read.0 (
      ap answer_of (
        ap (λ b. if b then some (ok false, s1) else some (existence read.0, read.1)) (sym named)
        ∙ ran)) in
    (s1, e, asked, unknown)

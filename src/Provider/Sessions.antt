-- ===== src/Provider/Sessions.antt =====
-- What a sequence of calls of the rate-limited client comes to, against the client that it wraps.
use alibaba_cloud_nlb_pool_o.Base.{Bool, false, List, [], ◌∷◌, some, map, ◌≡◌, ◌⊎◌}
use alibaba_cloud_nlb_pool_o.World.{Result, err}
use alibaba_cloud_nlb_pool_o.Provider.Errors.{err_local_rate_limited}
use alibaba_cloud_nlb_pool_o.Provider.Client.{Act, NlbApiClient, ApiCall, Answer, perform}
use alibaba_cloud_nlb_pool_o.Provider.RateLimiter.{RateLimitedClient, rate_limited}

-- a call with its answer
abbrev pub Answered : Type 0
Answered = (c : ApiCall) × Result (Answer c)

-- the calls `h`, with these answers, lead from `s` to `s'`
abbrev pub Runs : {S : Type 0} → ((c : ApiCall) → Act S (Answer c)) → List Answered → S → S → Type 0
Runs call [] s s' = s ≡ s'
Runs {S} call (x ∷ h) s s' = (s1 : S) × ((call x.0 s ≡ some (x.1, s1)) × Runs call h s1 s')

-- a limiter has rejected a call, with some tokens
abbrev pub Refuses : {L T : Type 0} → (L → T → Bool × T) → Type 0
Refuses {L} {T} allow = (l : L) × ((t : T) × ((allow l t).0 ≡ false))

-- `k` is `h` without some calls that a limiter has rejected, which were answered with ErrLocalRateLimited
abbrev pub Admitted : {L T : Type 0} → (L → T → Bool × T) → List Answered → List Answered → Type 0
Admitted allow k [] = k ≡ []
Admitted allow k (x ∷ h) =
    ((rest : List Answered) × ((k ≡ x ∷ rest) × Admitted allow rest h))
    ⊎ ((x.1 ≡ err err_local_rate_limited) × (Refuses allow × Admitted allow k h))

-- the limiters' tokens stand beside the state of the cloud
abbrev pub beside : {L T W : Type 0} → (L → T → Bool × T) → L → T × W → Bool × (T × W)
beside allow l s = ((allow l s.0).0, ((allow l s.0).1, s.1))

-- the cloud as the client sees it: it answers each call, and knows nothing of tokens
abbrev pub Cloud : Type 0 → Type 0
Cloud W = (c : ApiCall) → W → Result (Answer c) × W

abbrev pub Serves : {T W : Type 0} → NlbApiClient (T × W) → Cloud W → Type 0
Serves {T} {W} client cloud =
    (c : ApiCall) (t : T) (w : W)
    → perform client c (t, w) ≡ some ((cloud c w).0, (t, (cloud c w).1))

module _ {L T W : Type 0} (allow : L → T → Bool × T) where
  module _ (r : RateLimitedClient L (T × W)) (cloud : Cloud W) where
    -- what a sequence of calls comes to
    abbrev pub Refines : List ApiCall → T × W → Type 0
    Refines calls s =
        (h : List Answered) × ((k : List Answered) × ((s' : T × W) × ((map (λ x. x.0) h ≡ calls)
              × (Runs (perform (rate_limited (beside allow) r)) h s s'
                  × (Runs (λ c w. some (cloud c w)) k s.1 s'.1 × Admitted allow k h)))))

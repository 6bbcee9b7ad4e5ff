-- ===== src/Allocation/Vacancy.antt =====
-- handleReleasing and resetToAvailable: when an allocation is handed back.
use alibaba_cloud_nlb_pool_o.Base.{
  ℕ, String, true, List, [], ◌∷◌, All, ℤ, ◌≡◌, refl, ◌⊎◌, inl, inr, ◌||◌, ◌==◌, is_empty, arith,
}
use alibaba_cloud_nlb_pool_o.Types.{
  PortAllocation, ServerGroupCloudStatus, BackendServer, clear, is_clear, available,
}
use alibaba_cloud_nlb_pool_o.World.{
  now, Response, Call, list_server_group_servers, update_pa_status, Exchange, exchange, Trace,
  Result, ok, err, Proc, ◌>>=◌, for_index, pure, request,
}
use alibaba_cloud_nlb_pool_o.World.Keeps.{Keeps, Keeps-bind, Once}
use alibaba_cloud_nlb_pool_o.World.Meets.{
  Meets, Meets-if, Meets-pure, Meets-finish, Meets-bind, Meets-on_err, Meets-Keeps, Meets-weaken,
  Meets-map, Keeps-then,
}
use mathlib.Core.Path.{subst}
use alibaba_cloud_nlb_pool_o.Provider.{is_limited}
use alibaba_cloud_nlb_pool_o.World.Flags.{for_index-Flag}
use alibaba_cloud_nlb_pool_o.World.Only.{
  Only, Frame, IsQuiet, Only-request, Only-mono, Only-for_index, only_rules,
}
use alibaba_cloud_nlb_pool_o.World.Requests.{request_rules}
use alibaba_cloud_nlb_pool_o.Allocation.Helpers.{update_phase_label, clear_pod_claim}
use alibaba_cloud_nlb_pool_o.Allocation.Binding.{mark_server}
use alibaba_cloud_nlb_pool_o.Allocation.Releasing.{
  remove_listed, Release, release_group, reset_to_available, release_from,
}
use alibaba_cloud_nlb_pool_o.Allocation.Calls

-- the cloud has answered a listing of the group `id` with no server
abbrev pub IsEmptyListing : String → Exchange → Type 0
IsEmptyListing id (exchange (list_server_group_servers id') (ok [])) = id' ≡ id
IsEmptyListing id _ = ⊥

-- nothing of the group is left: it has no id, its status was Clear, or it was listed with no server
abbrev pub Vacant : ServerGroupCloudStatus → Trace → Type 0
Vacant sg t =
    ((sg.server_group_id == "" || is_clear sg.server_status) ≡ true)
    ⊎ Once (IsEmptyListing sg.server_group_id) t

Vacant-monotone : (sg : ServerGroupCloudStatus) → Frame IsQuiet (Vacant sg)
Vacant-monotone sg c r t k (inl h) = inl h
Vacant-monotone sg c r t k (inr h) = inr (inr h)

abbrev AnsweredEmpty : (sg : ServerGroupCloudStatus) → Result (List BackendServer) → Trace → Type 0
AnsweredEmpty sg (ok []) t = Vacant sg t
AnsweredEmpty sg _ t = Unit

answered :
    (sg : ServerGroupCloudStatus) (r : Result (List BackendServer)) (t : Trace)
    → AnsweredEmpty sg r (exchange (list_server_group_servers sg.server_group_id) r ∷ t)
answered sg (ok []) t = inr (inl refl)
answered sg (ok (s ∷ servers)) t = tt
answered sg (err e) t = tt

empty-Vacant :
    (sg : ServerGroupCloudStatus) (servers : List BackendServer) (t : Trace)
    → is_empty servers ≡ true
    → AnsweredEmpty sg (ok servers) t
    → Vacant sg t
empty-Vacant sg [] t e h = h
empty-Vacant sg (s ∷ servers) t e h = ground arith

listing :
    (sg : ServerGroupCloudStatus)
    → Meets
        (λ _. Unit)
        (request (list_server_group_servers sg.server_group_id))
        (AnsweredEmpty sg)
        (λ _. Unit)
unfolding request
listing sg = record {
  at = λ env t _. answered sg (env.respond t (list_server_group_servers sg.server_group_id)) t;
}

group_listed :
    (i : ℕ) (sg : ServerGroupCloudStatus) (st : Release)
    → Meets
        (λ _. Unit)
        (release_group i sg st)
        (λ s' t. s'.all_clear ≡ true → (st.all_clear ≡ true) × Vacant sg t)
        (λ _. Unit)
unfolding release_group
group_listed i sg st =
    Meets-if (sg.server_group_id == "" || is_clear sg.server_status) (pure st) _
      (λ e. Meets-pure st (λ t _ f. (f, inl e)))
      λ _.
        Meets-bind {Q = AnsweredEmpty sg} (request (list_server_group_servers sg.server_group_id)) _
          (listing sg)
          λ resp.
            Meets-on_err resp _ _
              (λ e _.
                Meets-if (is_limited e) _ _ (λ _. Meets-pure _ (λ t _ f. ground arith))
                  (λ _. Meets-finish _ (λ t _. tt)))
              λ servers e.
                Meets-if (is_empty servers) _ _
                  (λ empty.
                    Meets-weaken
                      (λ t h.
                        empty-Vacant sg servers t empty (subst (λ r. AnsweredEmpty sg r t) e h))
                      (Meets-bind (mark_server st.pa i clear) _ (Meets-Keeps (λ t _. tt) marked)
                        λ pa. Meets-pure _ (λ t h f. (f, h))))
                  (λ _.
                    Meets-weaken {R = λ _. Unit} (λ t _. tt)
                      (Meets-bind (remove_listed st.pa sg.server_group_id servers st.rate_limited) _
                        (Meets-Keeps (λ t _. tt) (record { at = λ env t h. tt }))
                        λ limited. Meets-pure _ (λ t _ f. ground arith)))
  where
    marked : Keeps (Vacant sg) (mark_server st.pa i clear)
    marked = (Calls.mark_server-IsQuiet st.pa i clear).keeps (Vacant sg) (Vacant-monotone sg)

groups_listed :
    (gs : List ServerGroupCloudStatus) (st : Release)
    → Meets
        (λ _. Unit)
        (for_index 0 gs st release_group)
        (λ s' t. s'.all_clear ≡ true → (st.all_clear ≡ true) × All (λ sg. Vacant sg t) gs)
        (λ _. Unit)
groups_listed gs st =
    for_index-Flag (λ st. st.all_clear) Vacant release_group group_listed
      (λ y i x s. (Calls.release_group-IsQuiet i x s).keeps (Vacant y) (Vacant-monotone y)) 0 gs st

-- a status write of Available comes when every group of `gs` is vacant
abbrev pub ResetWhenVacant : List ServerGroupCloudStatus → Exchange → Trace → Type 0
ResetWhenVacant gs (exchange (update_pa_status pa) r) t =
    pa.status.phase ≡ available → All (λ sg. Vacant sg t) gs
ResetWhenVacant gs _ t = Unit

abbrev pub ResetsWhenVacant : List ServerGroupCloudStatus → Trace → Type 0
ResetsWhenVacant gs [] = Unit
ResetsWhenVacant gs (x ∷ t) = ResetWhenVacant gs x t × ResetsWhenVacant gs t

All-monotone :
    (gs : List ServerGroupCloudStatus) (x : Exchange) (t : Trace)
    → All (λ sg. Vacant sg t) gs
    → All (λ sg. Vacant sg (x ∷ t)) gs
All-monotone [] x t h = tt
All-monotone (sg ∷ gs) x t (inl h, hs) = (inl h, All-monotone gs x t hs)
All-monotone (sg ∷ gs) x t (inr h, hs) = (inr (inr h), All-monotone gs x t hs)

module _ (gs : List ServerGroupCloudStatus) where
  IsQuiet-ResetsWhenVacant : Frame IsQuiet (ResetsWhenVacant gs)
  IsQuiet-ResetsWhenVacant (Call.update_pa_status pa) r t k h = elim k [ ]
  IsQuiet-ResetsWhenVacant _ r t k h = (tt, h)

  abbrev AllVacant : Trace → Type 0
  AllVacant t = ResetsWhenVacant gs t × All (λ sg. Vacant sg t) gs

  write-ResetWhenVacant :
      (c : Call) (r : Response c) (t : Trace)
      → All (λ sg. Vacant sg t) gs
      → ResetWhenVacant gs (exchange c r) t
  write-ResetWhenVacant (Call.update_pa_status pa) r t v = λ _. v
  write-ResetWhenVacant _ r t v = tt

  AllVacant-ResetsWhenVacant : Frame (λ _. Unit) AllVacant
  AllVacant-ResetsWhenVacant c r t k (h, v) =
      ((write-ResetWhenVacant c r t v, h), All-monotone gs (exchange c r) t v)

ruleset rules = (only_rules, request_rules)

quiet-Anything : {A : Type 0} {m : Proc A} → Only IsQuiet m → Only (λ _. Unit) m
quiet-Anything o = Only-mono (λ c k. tt) o

label-Anything : (pa : PortAllocation) → Only (λ _. Unit) (update_phase_label pa)
unfolding update_phase_label
label-Anything pa = search rules depth 8

reset-Anything :
    (pa : PortAllocation) (message : String) → Only (λ _. Unit) (reset_to_available pa message)
unfolding reset_to_available
reset-Anything pa message =
    search
      (
        rules, quiet-Anything, label-Anything, Calls.remove_all_servers-IsQuiet,
        Calls.clear_pod_claim-IsQuiet,
      )
      depth 12

-- After handleReleasing has found the start of its cycle with the allocation `pa`, it writes the status
-- Available only when every server group of `pa` has no id, was Clear in its status, or was listed by
-- the cloud with no server.
pub release_from-ResetsWhenVacant :
    (pa : PortAllocation) (since : ℤ)
    → Keeps (ResetsWhenVacant pa.status.server_groups) (release_from (pa, since))
unfolding release_from
release_from-ResetsWhenVacant pa since =
    Keeps-bind (request now) _
      ((Only-request now tt).keeps (ResetsWhenVacant gs) (IsQuiet-ResetsWhenVacant gs))
      λ time.
        Keeps-then _ _ ((loop _).keeps (ResetsWhenVacant gs) (IsQuiet-ResetsWhenVacant gs))
          (groups_listed gs _)
          λ st.
            Meets-if st.all_clear _ _
              (λ clear.
                Meets-weaken (λ t h. (h.0, ((h.1) clear).1))
                  (Meets-map (λ a t h. h.0)
                    (Meets-Keeps (λ t h. h.0)
                      ((reset st.pa).keeps (AllVacant gs) (AllVacant-ResetsWhenVacant gs)))))
              λ _.
                Meets-weaken (λ t h. h.0)
                  (Meets-Keeps (λ t h. h)
                    (Only.keeps (search rules depth 9) (ResetsWhenVacant gs)
                      (IsQuiet-ResetsWhenVacant gs)))
  where
    gs : List ServerGroupCloudStatus
    gs = pa.status.server_groups

    loop :
        (start : Release) → Only IsQuiet (for_index 0 pa.status.server_groups start release_group)
    loop start =
        Only-for_index 0 pa.status.server_groups start release_group Calls.release_group-IsQuiet

    reset :
        (pa : PortAllocation)
        → Only
            (λ _. Unit)
            (clear_pod_claim pa >>= λ _. reset_to_available pa "Released, ready for rebinding")
    reset pa = search (rules, quiet-Anything, reset-Anything, Calls.clear_pod_claim-IsQuiet)

-- ===== src/Pool/Teardown/Children.antt =====
-- hasChildResources: what is known of a pool's children when it answers that there are none.
use alibaba_cloud_nlb_pool_o.Base.{
  Bool, true, false, ◌∷◌, ◌≡◌, refl, inl, inr, arith, if◌then◌else◌,
}
use alibaba_cloud_nlb_pool_o.Types.{NlbPool}
use alibaba_cloud_nlb_pool_o.World.{
  Call, Response, Kind, allocations, nlbs, eips, server_groups, listeners, list_pas, list_nlbs,
  list_eips, list_server_groups, list_listeners, Exchange, exchange, Trace, Proc, ◌>>=◌, pure,
  request,
}
use alibaba_cloud_nlb_pool_o.World.Keeps.{Once}
use alibaba_cloud_nlb_pool_o.World.Meets.{
  Meets, Meets-pure, Meets-bind, Meets-if, Meets-weaken, Meets-map, Meets-request,
}
use alibaba_cloud_nlb_pool_o.Pool.Deletion.{pool_selector, some_listed, has_child_resources}

-- the pool's children of a kind were listed, and the answer was empty or an error
abbrev pub ListsNone : NlbPool → Kind → Exchange → Type 0
ListsNone pool Kind.allocations (exchange (list_pas ns sel) r) =
    (ns ≡ pool.metadata.namespace) × (sel ≡ pool_selector pool) × (some_listed r ≡ false)
ListsNone pool Kind.nlbs (exchange (list_nlbs ns sel) r) =
    (ns ≡ pool.metadata.namespace) × (sel ≡ pool_selector pool) × (some_listed r ≡ false)
ListsNone pool Kind.eips (exchange (list_eips ns sel) r) =
    (ns ≡ pool.metadata.namespace) × (sel ≡ pool_selector pool) × (some_listed r ≡ false)
ListsNone pool Kind.server_groups (exchange (list_server_groups ns sel) r) =
    (ns ≡ pool.metadata.namespace) × (sel ≡ pool_selector pool) × (some_listed r ≡ false)
ListsNone pool Kind.listeners (exchange (list_listeners ns sel) r) =
    (ns ≡ pool.metadata.namespace) × (sel ≡ pool_selector pool) × (some_listed r ≡ false)
ListsNone pool kind _ = ⊥

-- every kind of child was listed, and none was found
abbrev pub Childless : NlbPool → Trace → Type 0
Childless pool t = (kind : Kind) → Once (ListsNone pool kind) t

pub one_listing :
    {R S : Trace → Type 0} {Q : Bool → Trace → Type 0} (c : Call) (found : Response c → Bool)
    (rest : Proc Bool)
    → ((r : Response c) (t : Trace) → R t → found r ≡ false → S (exchange c r ∷ t))
    → ((t : Trace) → Q true t)
    → Meets S rest Q (λ _. Unit)
    → Meets R (request c >>= λ r. if found r then pure true else rest) Q (λ _. Unit)
one_listing {S = S} c found rest k q meets =
    Meets-bind _ _ (Meets-request c {Q = λ r t. found r ≡ false → S t} k) λ r.
      Meets-if (found r) _ _ (λ e. Meets-pure true λ t h. q t) λ e. Meets-weaken (λ t h. h e) meets

abbrev pub None : NlbPool → Kind → Trace → Type 0
None pool kind t = Once (ListsNone pool kind) t

-- the kinds in the order in which they are listed
abbrev pub Listed1 : NlbPool → Trace → Type 0
Listed1 pool t = None pool Kind.allocations t

abbrev pub Listed2 : NlbPool → Trace → Type 0
Listed2 pool t = Listed1 pool t × None pool Kind.nlbs t

abbrev pub Listed3 : NlbPool → Trace → Type 0
Listed3 pool t = Listed2 pool t × None pool Kind.server_groups t

abbrev pub Listed4 : NlbPool → Trace → Type 0
Listed4 pool t = Listed3 pool t × None pool Kind.listeners t

abbrev pub Listed5 : NlbPool → Trace → Type 0
Listed5 pool t = Listed4 pool t × None pool Kind.eips t

pub none_of : (pool : NlbPool) (t : Trace) → Listed5 pool t → Childless pool t
none_of pool t ((((p, n), s), l), e) allocations = p
none_of pool t ((((p, n), s), l), e) nlbs = n
none_of pool t ((((p, n), s), l), e) eips = e
none_of pool t ((((p, n), s), l), e) server_groups = s
none_of pool t ((((p, n), s), l), e) listeners = l

pub has_child_resources-Childless :
    (pool : NlbPool)
    → Meets (λ _. Unit) (has_child_resources pool) (λ b t. b ≡ false → Childless pool t) (λ _. Unit)
unfolding has_child_resources
has_child_resources-Childless pool =
    let ns = pool.metadata.namespace in
    let sel = pool_selector pool in
    Meets-map {Q = λ b t. b ≡ false → Listed5 pool t} (λ b t h e. none_of pool t (h e))
      (one_listing {S = Listed1 pool} (list_pas ns sel) some_listed _
        (λ r t h e. inl (refl, refl, e)) (λ t e. ground arith)
        (one_listing {S = Listed2 pool} (list_nlbs ns sel) some_listed _
          (λ r t h e. (inr h, inl (refl, refl, e))) (λ t e. ground arith)
          (one_listing {S = Listed3 pool} (list_server_groups ns sel) some_listed _
            (λ r t h e. ((inr h.0, inr h.1), inl (refl, refl, e))) (λ t e. ground arith)
            (one_listing {S = Listed4 pool} (list_listeners ns sel) some_listed _
              (λ r t h e. (((inr h.0.0, inr h.0.1), inr h.1), inl (refl, refl, e)))
              (λ t e. ground arith)
              (Meets-bind _ _
                (Meets-request (list_eips ns sel)
                  {Q = λ r t. some_listed r ≡ false → Listed5 pool t}
                  λ r t h e.
                    ((((inr h.0.0.0, inr h.0.0.1), inr h.0.1), inr h.1), inl (refl, refl, e)))
                λ r. Meets-pure (some_listed r) λ t h e. h e)))))

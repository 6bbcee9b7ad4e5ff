-- ===== src/Pool/Teardown/Infrastructure.antt =====
-- deleteInfrastructure: what its loops delete, and the ids of the load balancers that it records.
use alibaba_cloud_nlb_pool_o.Base.{
  String, Bool, true, false, List, [], ◌∷◌, Option, none, some, All, ◌≡◌, refl, sym, ap, ◌∙◌, inl,
  inr, select, arith, if◌then◌else◌,
}
use alibaba_cloud_nlb_pool_o.Types.{Key, ObjectMeta, NlbPool}
use alibaba_cloud_nlb_pool_o.World.{
  Kind, delete, Exchange, exchange, Trace, Env, GoError, is_not_found, Flow, next, exit, panic,
  running, Proc, continue, ◌>>=◌, pure, asks, on_none, key_of,
}
use alibaba_cloud_nlb_pool_o.World.Keeps.{Once}
use alibaba_cloud_nlb_pool_o.World.Only.{Frame}
use alibaba_cloud_nlb_pool_o.World.Meets.{
  Meets, Meets-pure, Meets-bind, Meets-if, Meets-on_none, Meets-weaken, Meets-map, Meets-request,
  Meets-also,
}
use alibaba_cloud_nlb_pool_o.Pool.Teardown.Calls.{delete_children-Only}
use alibaba_cloud_nlb_pool_o.Pool.Deletion.{
  controlled, delete_child, delete_children, delete_controlled,
}

-- the objects of a list that the pool controls
abbrev pub controlled_of : Env → NlbPool → List ObjectMeta → List ObjectMeta
controlled_of env pool ms = select (λ m. env.is_controlled_by m pool.metadata) ms

continue_cong :
    {A B : Type 0} (r : Flow A) (f g : A → Proc B) (env : Env) (t : Trace)
    → ((a : A) → f a env t ≡ g a env t)
    → continue r f env t ≡ continue r g env t
continue_cong (next a) f g env t h = h a
continue_cong (exit r) f g env t h = refl
continue_cong panic f g env t h = refl
continue_cong running f g env t h = refl

on_none_cong :
    {A B : Type 0} (o : Option A) (f g : Proc B) (rest : A → Proc B) (env : Env) (t : Trace)
    → f env t ≡ g env t
    → on_none o f rest env t ≡ on_none o g rest env t
unfolding on_none
on_none_cong none f g rest env t h = h
on_none_cong (some a) f g rest env t h = refl

skipped :
    (pool : NlbPool) (kind : Kind) (what : String) (m : ObjectMeta) (ms cs : List ObjectMeta)
    (b : Bool) (env : Env) (t : Trace)
    → ((t : Trace) → delete_controlled pool kind what ms env t ≡ delete_children kind what cs env t)
    → ((if b then delete_child kind what m else pure none) >>= λ failure.
          on_none failure (delete_controlled pool kind what ms) λ e. pure (some e))
        env t
      ≡ delete_children kind what (if b then m ∷ cs else cs) env t
unfolding delete_children ◌>>=◌ on_none pure
skipped pool kind what m ms cs true env t h =
    let ran = delete_child kind what m env t in
    continue_cong ran.0 _ _ env ran.1 λ failure. on_none_cong failure _ _ _ env ran.1 (h ran.1)
skipped pool kind what m ms cs false env t h = h t

-- The loop over objects of which the pool controls some deletes as the plain loop does over those that
-- the pool controls.
pub delete_controlled_lem :
    (pool : NlbPool) (kind : Kind) (what : String) (ms : List ObjectMeta) (env : Env) (t : Trace)
    → delete_controlled pool kind what ms env t
      ≡ delete_children kind what (controlled_of env pool ms) env t
unfolding delete_controlled delete_children controlled ◌>>=◌ asks
delete_controlled_lem pool kind what [] env t = refl
delete_controlled_lem pool kind what (m ∷ ms) env t =
    skipped pool kind what m ms (controlled_of env pool ms) (env.is_controlled_by m pool.metadata)
      env t (λ t. delete_controlled_lem pool kind what ms env t)

-- an object was deleted, or the server did not find it
abbrev pub Deletes : Kind → Key → Exchange → Type 0
Deletes kind k (exchange (delete kind' k') failure) =
    (kind' ≡ kind) × (k' ≡ k) × ((e : GoError) → failure ≡ some e → is_not_found e ≡ true)
Deletes kind k _ = ⊥

-- every object of the list is being deleted, or the server took its deletion
abbrev pub AllDeleted : Kind → List ObjectMeta → Trace → Type 0
AllDeleted kind ms t = All (λ m. m.deleting ≡ false → Once (Deletes kind (key_of m)) t) ms

AllDeleted-monotone : (kind : Kind) (ms : List ObjectMeta) → Frame (λ _. Unit) (AllDeleted kind ms)
AllDeleted-monotone kind [] c r t k h = tt
AllDeleted-monotone kind (m ∷ ms) c r t k h =
    (λ e. inr (h.0 e), AllDeleted-monotone kind ms c r t k h.1)

answered_delete :
    (kind : Kind) (key : Key) (failure : Option GoError) (t : Trace)
    → ((e : GoError) → failure ≡ some e → is_not_found e ≡ true)
    → Once (Deletes kind key) (exchange (delete kind key) failure ∷ t)
answered_delete kind key failure t h = inl (refl, refl, h)

same_error :
    (o : Option GoError) (x y : GoError)
    → o ≡ some x
    → o ≡ some y
    → is_not_found x ≡ true
    → is_not_found y ≡ true
same_error o x y e f h =
    let same : some x ≡ some y = sym e ∙ f in ap is_not_found (sym (some_inj same)) ∙ h
  where
    some_inj : {a b : GoError} → some a ≡ some b → a ≡ b
    some_inj q = cc

delete_child-Deletes :
    (kind : Kind) (what : String) (m : ObjectMeta)
    → Meets
        (λ _. Unit)
        (delete_child kind what m)
        (λ r t. r ≡ none → m.deleting ≡ false → Once (Deletes kind (key_of m)) t)
        (λ _. Unit)
unfolding delete_child
delete_child-Deletes kind what m =
    Meets-if m.deleting _ _ (λ e. Meets-pure none λ t h n d. ground arith)
      λ e.
        Meets-bind _ _
          (Meets-request (delete kind (key_of m))
            {Q = λ r t.
              (k : (e : GoError) → r ≡ some e → is_not_found e ≡ true)
              → Once (Deletes kind (key_of m)) t}
            λ r t h k. answered_delete kind (key_of m) r t k)
          λ failure.
            Meets-on_none failure _ _ (λ e. Meets-pure none λ t h n d. h λ x f. ground arith)
              λ x e.
                Meets-if (is_not_found x) _ _
                  (λ f. Meets-pure none λ t h n d. h λ y g. same_error failure x y e g f)
                  λ f. Meets-pure _ λ t h n d. ground arith

-- Where a deletion loop ends with no error, each object of the list that was not being deleted already
-- had its deletion taken by the server, or was not found there.
pub delete_children-AllDeleted :
    (kind : Kind) (what : String) (ms : List ObjectMeta)
    → Meets
        (λ _. Unit)
        (delete_children kind what ms)
        (λ r t. r ≡ none → AllDeleted kind ms t)
        (λ _. Unit)
unfolding delete_children
delete_children-AllDeleted kind what [] = Meets-pure none λ t h e. tt
delete_children-AllDeleted kind what (m ∷ ms) =
    Meets-bind _ _ (delete_child-Deletes kind what m) λ failure.
      Meets-on_none failure _ _
        (λ e.
          Meets-map (λ r t h f. (h.1, h.0 f))
            (Meets-weaken (λ t h. (tt, h e))
              (Meets-also (delete_children-AllDeleted kind what ms) (
                (delete_children-Only (λ _. Unit) kind what ms (λ key. tt)).keeps
                  (λ t. m.deleting ≡ false → Once (Deletes kind (key_of m)) t)
                  λ c r t k h d. inr (h d)))))
        λ x e. Meets-pure (some x) λ t h f. ground arith

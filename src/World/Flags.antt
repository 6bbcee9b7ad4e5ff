-- ===== src/World/Flags.antt =====
-- A loop that clears a flag of its variables where a check fails: where the flag is up at the end, it
-- was up at the start and every element passed.
use alibaba_cloud_nlb_pool_o.Base.{ℕ, suc, Bool, true, List, [], ◌∷◌, All, ◌≡◌}
use alibaba_cloud_nlb_pool_o.World.Calls.{Trace}
use alibaba_cloud_nlb_pool_o.World.Monad.{Proc, for_index}
use alibaba_cloud_nlb_pool_o.World.Keeps.{Keeps, Keeps-for_index}
use alibaba_cloud_nlb_pool_o.World.Meets.{
  Meets, Meets-pure, Meets-bind, Meets-also, Meets-weaken, Meets-map,
}

module _ {A S : Type 0} (flag : S → Bool) (Passed : A → Trace → Type 0)
    (body : ℕ → A → S → Proc S) where
  abbrev pub Checks : Type 0
  Checks =
      (i : ℕ) (x : A) (s : S)
      → Meets (λ _. Unit) (body i x s) (λ s' t. flag s' ≡ true → (flag s ≡ true) × Passed x t)
          (λ _. Unit)

  module _ (checks : Checks)
      (keeps : (y : A) (i : ℕ) (x : A) (s : S) → Keeps (Passed y) (body i x s)) where
    pub for_index-Flag :
        (i : ℕ) (xs : List A) (s : S)
        → Meets
            (λ _. Unit)
            (for_index i xs s body)
            (λ s' t. flag s' ≡ true → (flag s ≡ true) × All (λ x. Passed x t) xs)
            (λ _. Unit)
    unfolding for_index
    for_index-Flag i [] s = Meets-pure s λ t _ e. (e, tt)
    for_index-Flag i (x ∷ xs) s = Meets-bind (body i x s) _ (checks i x s) λ s1.
        Meets-map (λ s' t h e. let (u, us) = h.0 e in let (v, p) = h.1 u in (v, (p, us)))
          (Meets-weaken (λ t h. (tt, h))
            (Meets-also (for_index-Flag (suc i) xs s1) (record {
              at = λ env t h e.
                  ((h e).0, (Keeps-for_index (suc i) xs s1 body (keeps x)).at env t (h e).1);
            })))

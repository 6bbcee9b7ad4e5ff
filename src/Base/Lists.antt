-- ===== src/Base/Lists.antt =====
-- Lists measured and indexed by native numbers, under the library's names; Go maps with text keys.
use Prim.Native.Nat.{ℕ, zero, suc, ◌+◌, ◌*◌, ◌<◌}
use mathlib.Core.Path.{◌≡◌, refl, ap}
use mathlib.Core.Bool.{Bool, true, false, ◌&&◌, ◌||◌}
use mathlib.Core.List.{List, [], ◌∷◌, ◌++◌}
use mathlib.Core.Option.{Option, none, some}
use native.Mathlib.Omega.{arith}
use alibaba_cloud_nlb_pool_o.Base.Tests.{if◌then◌else◌}

module _ {ℓ} {A : Type ℓ} where
  abbrev pub length : List A → ℕ
  length [] = 0
  length (x ∷ xs) = suc (length xs)

  abbrev pub get_elem? : List A → ℕ → Option A
  get_elem? [] i = none
  get_elem? (x ∷ xs) zero = some x
  get_elem? (x ∷ xs) (suc i) = get_elem? xs i

  abbrev pub is_empty : List A → Bool
  is_empty [] = true
  is_empty (x ∷ xs) = false

  abbrev pub any : (A → Bool) → List A → Bool
  any p [] = false
  any p (x ∷ xs) = p x || any p xs

  abbrev pub all : (A → Bool) → List A → Bool
  all p [] = true
  all p (x ∷ xs) = p x && all p xs

  -- the elements that pass a Boolean test
  abbrev pub select : (A → Bool) → List A → List A
  select p [] = []
  select p (x ∷ xs) = if p x then x ∷ select p xs else select p xs

  -- how many elements pass a Boolean test
  abbrev pub count : (A → Bool) → List A → ℕ
  count p [] = 0
  count p (x ∷ xs) = (if p x then 1 else 0) + count p xs

  -- rewrites the element at a position; `none` where Go panics, out of range
  abbrev pub modify? : List A → ℕ → (A → A) → Option (List A)
  modify? [] i f = none
  modify? (x ∷ xs) zero f = some (f x ∷ xs)
  modify? (x ∷ xs) (suc i) f = elim (modify? xs i f) [ none ↦ none | some ys ↦ some (x ∷ ys) ]

  abbrev pub All {κ} : (A → Type κ) → List A → Type κ
  All P [] = Unit
  All P (x ∷ xs) = P x × All P xs

  pub length-append : (xs ys : List A) → length (xs ++ ys) ≡ length xs + length ys
  length-append [] ys = omega arith
  length-append (x ∷ xs) ys = omega (arith, length-append xs ys)

  pub get_elem?-bound : (xs : List A) (i : ℕ) (x : A) → get_elem? xs i ≡ some x → i < length xs
  get_elem?-bound [] i x e = ground arith
  get_elem?-bound (y ∷ ys) zero x e = omega arith
  get_elem?-bound (y ∷ ys) (suc i) x e = omega (arith, get_elem?-bound ys i x e)

  pub get_elem?-append_left :
      (xs ys : List A) (i : ℕ) → i < length xs → get_elem? (xs ++ ys) i ≡ get_elem? xs i
  get_elem?-append_left [] ys i h = elim h [ ]
  get_elem?-append_left (x ∷ xs) ys zero h = refl
  get_elem?-append_left (x ∷ xs) ys (suc i) h = get_elem?-append_left xs ys i (omega arith)

  pub get_elem?-append_right :
      (xs ys : List A) (i : ℕ) → get_elem? (xs ++ ys) (length xs + i) ≡ get_elem? ys i
  get_elem?-append_right [] ys i = ap (get_elem? ys) (omega arith)
  get_elem?-append_right (x ∷ xs) ys i =
      let e : length (x ∷ xs) + i ≡ suc (length xs + i) = omega arith in
      ap (get_elem? (x ∷ (xs ++ ys))) e ∙' get_elem?-append_right xs ys i
    where
      infixr 30 ◌∙'◌
      ◌∙'◌ : {a b c : Option A} → a ≡ b → b ≡ c → a ≡ c
      p ∙' q = cc

  pub get_elem?-append_some :
      (xs ys : List A) (i : ℕ) (x : A) → get_elem? xs i ≡ some x → get_elem? (xs ++ ys) i ≡ some x
  get_elem?-append_some xs ys i x e =
      let same = get_elem?-append_left xs ys i (get_elem?-bound xs i x e) in cc

  -- Past a row of `l` elements, the index is one row less.
  pub get_elem?-append_row :
      (xs ys : List A) (l k j : ℕ)
      → length xs ≡ l
      → get_elem? (xs ++ ys) (suc k * l + j) ≡ get_elem? ys (k * l + j)
  get_elem?-append_row xs ys l k j e =
      let same = get_elem?-append_right xs ys (k * l + j) in
      let index : suc k * l + j ≡ length xs + (k * l + j) = omega arith in cc

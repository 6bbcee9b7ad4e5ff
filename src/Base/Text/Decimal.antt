-- ===== src/Base/Text/Decimal.antt =====
-- Decimal texts: `%d` and `strconv.Atoi`.
use Prim.Native.Nat.{ℕ, zero, suc, ◌+◌, ◌-◌, ◌*◌, ◌/◌, ◌%◌, ◌^◌, ◌<◌, ◌≤◌}
use Prim.Native.Char.{code}
use Prim.Native.String.{String}
use mathlib.Core.Path.{◌≡◌, refl, ap, sym, subst, ◌∙◌}
use mathlib.Core.Bool.{Bool, true, false, ◌&&◌}
use mathlib.Core.Option.{Option, none, some}
use native.Mathlib.Omega.{arith}
use text.Mathlib.TextLemmas.{nil-append, cons-append}
use mathlib.Core.Logic.{inl, inr}
use alibaba_cloud_nlb_pool_o.Base.Tests.{ltb, leb, if◌then◌else◌, Bool-cases}
use alibaba_cloud_nlb_pool_o.Base.Int.{ℤ, pos, signed}
use alibaba_cloud_nlb_pool_o.Base.Text.{
  ◌<>◌, digit, show_fuel, show_ℕ, show_ℤ, scan, unsigned, in_int64, atoi,
}

-- `scan` goes on where it left off
abbrev resume : String → Option ℕ → Option ℕ
resume t none = none
resume t (some n) = scan t n

scan-append : (s t : String) (n : ℕ) → scan (s <> t) n ≡ resume t (scan s n)
unfolding scan
scan-append String.[] t n = ap (λ u. scan u n) (nil-append t)
scan-append (String.◌∷◌ c s) t n =
    let d = code c in
    ap (λ u. scan u n) (cons-append c s t)
    ∙ branch (leb 48 d && leb d 57) (scan (s <> t) (n * 10 + (d - 48))) (scan s (n * 10 + (d - 48)))
        (scan-append s t (n * 10 + (d - 48)))
  where
    branch :
        (b : Bool) (x y : Option ℕ)
        → x ≡ resume t y
        → (if b then x else none) ≡ resume t (if b then y else none)
    branch true x y e = e
    branch false x y e = refl

scan-digit : (d n : ℕ) → d < 10 → scan (digit d) n ≡ some (n * 10 + d)
unfolding scan
scan-digit zero n h = refl
scan-digit (suc zero) n h = refl
scan-digit (suc (suc zero)) n h = refl
scan-digit (suc (suc (suc zero))) n h = refl
scan-digit (suc (suc (suc (suc zero)))) n h = refl
scan-digit (suc (suc (suc (suc (suc zero))))) n h = refl
scan-digit (suc (suc (suc (suc (suc (suc zero)))))) n h = refl
scan-digit (suc (suc (suc (suc (suc (suc (suc zero))))))) n h = refl
scan-digit (suc (suc (suc (suc (suc (suc (suc (suc zero)))))))) n h = refl
scan-digit (suc (suc (suc (suc (suc (suc (suc (suc (suc zero))))))))) n h = refl
scan-digit (suc (suc (suc (suc (suc (suc (suc (suc (suc (suc d)))))))))) n h = absurd (omega arith)

scan-show_fuel : (f n : ℕ) → n < f → scan (show_fuel f n) 0 ≡ some n
unfolding show_fuel
scan-show_fuel zero n h = elim h [ ]
scan-show_fuel (suc f) n h = elim (Bool-cases (ltb n 10)) [
  | inl e ↦
      ap (λ b. scan (if b then digit n else show_fuel f (n / 10) <> digit (n % 10)) 0) e
      ∙ scan-digit n 0 (ground arith)
      ∙ ap some (omega arith)
  | inr e ↦
      ap (λ b. scan (if b then digit n else show_fuel f (n / 10) <> digit (n % 10)) 0) e
      ∙ scan-append (show_fuel f (n / 10)) (digit (n % 10)) 0
      ∙ ap (resume (digit (n % 10))) (scan-show_fuel f (n / 10) (smaller (ground arith)))
      ∙ scan-digit (n % 10) (n / 10) (omega arith)
      ∙ ap some (omega arith)
]
  where
    smaller : 10 ≤ n → n / 10 < f
    smaller k = omega arith

-- a text whose first character is a digit
abbrev StartsWithDigit : String → Type 0
StartsWithDigit String.[] = ⊥
StartsWithDigit (String.◌∷◌ c s) = (48 ≤ code c) × (code c ≤ 57)

starts-append : (s t : String) → StartsWithDigit s → StartsWithDigit (s <> t)
starts-append String.[] t h = elim h [ ]
starts-append (String.◌∷◌ c s) t h = subst StartsWithDigit (sym (cons-append c s t)) h

starts-digit : (d : ℕ) → StartsWithDigit (digit d)
starts-digit zero = (omega arith, omega arith)
starts-digit (suc zero) = (omega arith, omega arith)
starts-digit (suc (suc zero)) = (omega arith, omega arith)
starts-digit (suc (suc (suc zero))) = (omega arith, omega arith)
starts-digit (suc (suc (suc (suc zero)))) = (omega arith, omega arith)
starts-digit (suc (suc (suc (suc (suc zero))))) = (omega arith, omega arith)
starts-digit (suc (suc (suc (suc (suc (suc zero)))))) = (omega arith, omega arith)
starts-digit (suc (suc (suc (suc (suc (suc (suc zero))))))) = (omega arith, omega arith)
starts-digit (suc (suc (suc (suc (suc (suc (suc (suc zero)))))))) = (omega arith, omega arith)
starts-digit (suc (suc (suc (suc (suc (suc (suc (suc (suc d))))))))) = (omega arith, omega arith)

starts-show_fuel : (f n : ℕ) → n < f → StartsWithDigit (show_fuel f n)
unfolding show_fuel
starts-show_fuel zero n h = elim h [ ]
starts-show_fuel (suc f) n h = elim (Bool-cases (ltb n 10)) [
  | inl e ↦
      subst (λ b. StartsWithDigit (if b then digit n else show_fuel f (n / 10) <> digit (n % 10)))
        (sym e) (starts-digit n)
  | inr e ↦
      subst (λ b. StartsWithDigit (if b then digit n else show_fuel f (n / 10) <> digit (n % 10)))
        (sym e)
        (starts-append (show_fuel f (n / 10)) (digit (n % 10))
          (starts-show_fuel f (n / 10) (smaller (ground arith))))
]
  where
    smaller : 10 ≤ n → n / 10 < f
    smaller k = omega arith

atoi-digits :
    (s : String) (n : ℕ)
    → StartsWithDigit s
    → scan s 0 ≡ some n
    → n < 2 ^ 63
    → atoi s ≡ some (pos n)
unfolding atoi unsigned
atoi-digits String.[] n d e h = elim d [ ]
atoi-digits (String.◌∷◌ c s) n d e h =
    neither (leb (code c) 45 && leb 45 (code c)) (leb (code c) 43 && leb 43 (code c)) _ _ _
      (ground arith) (ground arith)
    ∙ ap (in_int64 false) e
    ∙ ap (λ b. if b then some (signed false n) else none) (fits n h)
  where
    neither :
        (b b' : Bool) (x y z : Option ℤ)
        → b ≡ false
        → b' ≡ false
        → (if b then x else if b' then y else z) ≡ z
    neither b b' x y z e f =
        ap (λ c. if c then x else if b' then y else z) e ∙ ap (λ c. if c then y else z) f

    fits : (n : ℕ) → n < 2 ^ 63 → leb n (2 ^ 63 - 1) ≡ true
    fits n h = ground arith

-- `Atoi` reads back what `%d` writes of a number that is not negative and fits.
pub atoi-show_ℤ : (n : ℕ) → n < 2 ^ 63 → atoi (show_ℤ (pos n)) ≡ some (pos n)
unfolding show_ℤ show_ℕ
atoi-show_ℤ n h =
    atoi-digits (show_fuel (suc n) n) n (starts-show_fuel (suc n) n (omega arith))
      (scan-show_fuel (suc n) n (omega arith)) h

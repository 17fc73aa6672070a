-- ===== src/Prelude/Lists.antt =====
-- Lists measured by native numbers, under the library's names.
use Prim.Native.Nat.{ℕ, zero, suc, ◌+◌, ◌-◌, ◌≤◌, min}
use mathlib.Core.Path.{◌≡◌, refl, sym, ap, ◌∙◌}
use mathlib.Core.Bool.{Bool, true, false, not}
use mathlib.Core.List.{List, [], ◌∷◌, ◌++◌, append-nil}
use mathlib.Core.Logic.{◌⊎◌}
use native.Mathlib.Omega.{arith}
use fapilog.Prelude.Tests.{if◌then◌else◌}

module _ {ℓ} {A : Type ℓ} where
  abbrev pub length : List A → ℕ
  length [] = 0
  length (x ∷ xs) = suc (length xs)

  abbrev pub take : ℕ → List A → List A
  take zero xs = []
  take (suc n) [] = []
  take (suc n) (x ∷ xs) = x ∷ take n xs

  abbrev pub drop : ℕ → List A → List A
  drop zero xs = xs
  drop (suc n) [] = []
  drop (suc n) (x ∷ xs) = drop n xs

  -- `[x for x in xs if p(x)]`
  abbrev pub keep_if : (A → Bool) → List A → List A
  keep_if p [] = []
  keep_if p (x ∷ xs) = let rest = keep_if p xs in if p x then x ∷ rest else rest

  abbrev pub All {κ} : (A → Type κ) → List A → Type κ
  All P [] = Unit
  All P (x ∷ xs) = P x × All P xs

  abbrev pub Any : (A → Type 0) → List A → Type 0
  Any P [] = ⊥
  Any P (x ∷ xs) = P x ⊎ Any P xs

module _ {ℓ} {A : Type ℓ} where
  pub length-append : (xs ys : List A) → length (xs ++ ys) ≡ length xs + length ys
  length-append [] ys = omega arith
  length-append (x ∷ xs) ys = omega (arith, length-append xs ys)

  pub length-take : (n : ℕ) (xs : List A) → length (take n xs) ≡ min n (length xs)
  length-take zero xs = omega arith
  length-take (suc n) [] = omega arith
  length-take (suc n) (x ∷ xs) = omega (arith, length-take n xs)

  pub length-drop : (n : ℕ) (xs : List A) → length (drop n xs) ≡ length xs - n
  length-drop zero xs = omega arith
  length-drop (suc n) [] = omega arith
  length-drop (suc n) (x ∷ xs) = omega (arith, length-drop n xs)

  pub take-append-drop : (n : ℕ) (xs : List A) → take n xs ++ drop n xs ≡ xs
  take-append-drop zero xs = refl
  take-append-drop (suc n) [] = refl
  take-append-drop (suc n) (x ∷ xs) = ap (◌∷◌ x) (take-append-drop n xs)

  pub keep_if-append :
      (p : A → Bool) (xs ys : List A) → keep_if p (xs ++ ys) ≡ keep_if p xs ++ keep_if p ys
  keep_if-append p [] ys = refl
  keep_if-append p (x ∷ xs) ys = ground (arith, keep_if-append p xs ys)

  pub length-keep_if-le : (p : A → Bool) (xs : List A) → length (keep_if p xs) ≤ length xs
  length-keep_if-le p [] = omega arith
  length-keep_if-le p (x ∷ xs) = ground (arith, length-keep_if-le p xs)

  pub All-append {κ} : (P : A → Type κ) (xs ys : List A) → All P xs → All P ys → All P (xs ++ ys)
  All-append P [] ys hx hy = hy
  All-append P (x ∷ xs) ys hx hy = (hx.0, All-append P xs ys hx.1 hy)

  pub keep_if-snoc :
      (p : A → Bool) (xs : List A) (x : A)
      → keep_if p (xs ++ x ∷ []) ≡ (if p x then keep_if p xs ++ x ∷ [] else keep_if p xs)
  keep_if-snoc p [] x = refl
  keep_if-snoc p (y ∷ xs) x = ground (arith, keep_if-snoc p xs x)

  pub keep_if-All : (p : A → Bool) (xs : List A) → All (λ v. p v ≡ true) xs → keep_if p xs ≡ xs
  keep_if-All p [] h = refl
  keep_if-All p (x ∷ xs) (a, h) = rw (a, keep_if-All p xs h) refl

  pub keep_if-none : (p : A → Bool) (xs : List A) → All (λ v. p v ≡ false) xs → keep_if p xs ≡ []
  keep_if-none p [] h = refl
  keep_if-none p (x ∷ xs) (a, h) = rw (a, keep_if-none p xs h) refl

  pub not-All :
      (p : A → Bool) (b : Bool) (xs : List A)
      → All (λ v. p v ≡ b) xs
      → All (λ v. not (p v) ≡ not b) xs
  not-All p b [] h = tt
  not-All p b (x ∷ xs) (a, h) = (ap not a, not-All p b xs h)

  -- A class of the served events after a drain is what was accepted of it.
  pub drained_order :
      (p : A → Bool) (accepted served protected main rest : List A)
      → keep_if p accepted ≡ keep_if p served ++ rest
      → keep_if p protected ++ keep_if p main ≡ rest
      → keep_if p accepted ≡ keep_if p (served ++ (protected ++ main)) ++ []
  drained_order p accepted served protected main rest e f =
      e
      ∙ ap (◌++◌ (keep_if p served)) (sym f ∙ sym (keep_if-append p protected main))
      ∙ sym (keep_if-append p served (protected ++ main))
      ∙ sym (append-nil (keep_if p (served ++ (protected ++ main))))

  pub keep_if-cong :
      (p q : A → Bool) (xs : List A) → All (λ x. p x ≡ q x) xs → keep_if p xs ≡ keep_if q xs
  keep_if-cong p q [] h = refl
  keep_if-cong p q (x ∷ xs) h = ground (arith, keep_if-cong p q xs h.1)

  pub All-map {κ κ'} :
      (P : A → Type κ) (Q : A → Type κ') (xs : List A) → ((x : A) → P x → Q x) → All P xs → All Q xs
  All-map P Q [] f h = tt
  All-map P Q (x ∷ xs) f h = (f x h.0, All-map P Q xs f h.1)

-- ===== src/Common/Lists.antt =====
-- Lists measured by native numbers, predicates by recursion, and folds.
use Prim.Native.Nat.{ℕ, suc}
use everoute.Common.Tests.{if◌then◌else◌}
use mathlib.Core.Path.{◌≡◌, refl}
use mathlib.Core.Bool.{Bool, true, false, ◌||◌}
use mathlib.Core.List.{append_assoc, List, [], ◌∷◌, ◌++◌}
use native.Mathlib.Omega.{arith}

module _ {ℓ} {A : Type ℓ} where
  abbrev pub length : List A → ℕ
  length [] = 0
  length (x ∷ xs) = suc (length xs)

  -- whether some element passes a test
  abbrev pub any : (A → Bool) → List A → Bool
  any p [] = false
  any p (x ∷ xs) = p x || any p xs

  pub any-append : (p : A → Bool) (xs ys : List A) → any p (xs ++ ys) ≡ (any p xs || any p ys)
  any-append p [] ys = refl
  any-append p (x ∷ xs) ys = ground (arith, any-append p xs ys)

-- every element has a property
abbrev pub All {ℓ κ} : {A : Type ℓ} → (A → Type κ) → List A → Type κ
All P [] = Unit
All P (x ∷ xs) = P x × All P xs

-- a property that may change from element to element is kept by a loop over the list
abbrev pub fold {ℓ κ} : {A : Type ℓ} {S : Type κ} → (S → A → S) → S → List A → S
fold f s [] = s
fold f s (x ∷ xs) = fold f (f s x) xs

pub All-append {ℓ κ} :
    {A : Type ℓ} (P : A → Type κ) (xs ys : List A) → All P xs → All P ys → All P (xs ++ ys)
All-append P [] ys h k = k
All-append P (x ∷ xs) ys h k = (h.0, All-append P xs ys h.1 k)

pub fold-keeps {ℓ κ μ} :
    {A : Type ℓ} {S : Type κ} (P : S → Type μ) (f : S → A → S)
    → ((s : S) (x : A) → P s → P (f s x))
    → (s : S) (xs : List A) → P s
    → P (fold f s xs)
fold-keeps P f keep s [] h = h
fold-keeps P f keep s (x ∷ xs) h = fold-keeps P f keep (f s x) xs (keep s x h)

-- the list that nested loops append to, one pass after the other
abbrev pub gather {ℓ κ} : {A : Type ℓ} {B : Type κ} → (A → List B) → List A → List B
gather f [] = []
gather f (x ∷ xs) = f x ++ gather f xs

pub gather-append {ℓ κ} :
    {A : Type ℓ} {B : Type κ} (f : A → List B) (xs ys : List A)
    → gather f (xs ++ ys) ≡ gather f xs ++ gather f ys
gather-append f [] ys = refl
gather-append f (x ∷ xs) ys = simp (gather-append f xs ys, append_assoc)

-- what holds of all that is appended for each element holds of the list
pub All-gather {ℓ κ μ} :
    {A : Type ℓ} {B : Type κ} (P : B → Type μ) (f : A → List B)
    → ((x : A) → All P (f x))
    → (xs : List A) → All P (gather f xs)
All-gather P f h [] = tt
All-gather P f h (x ∷ xs) = All-append P (f x) (gather f xs) (h x) (All-gather P f h xs)

pub All-if {ℓ κ} :
    {A : Type ℓ} (P : A → Type κ) (b : Bool) (xs ys : List A)
    → (b ≡ true → All P xs)
    → (b ≡ false → All P ys)
    → All P (if b then xs else ys)
All-if P true xs ys h k = h refl
All-if P false xs ys h k = k refl

pub All-map {ℓ κ μ} :
    {A : Type ℓ} (P : A → Type κ) (Q : A → Type μ)
    → ((x : A) → P x → Q x)
    → (xs : List A) → All P xs
    → All Q xs
All-map P Q f [] all = tt
All-map P Q f (x ∷ xs) all = (f x all.0, All-map P Q f xs all.1)

-- Boolean tests of the elements: equal tests have equal answers, and an element passes its test
pub any-All {ℓ} :
    {A : Type ℓ} (p q : A → Bool) (xs : List A) → All (λ x. p x ≡ q x) xs → any p xs ≡ any q xs
any-All p q [] all = refl
any-All p q (x ∷ xs) all = ground (arith, all.0, any-All p q xs all.1)

pub any-ext {ℓ} :
    {A : Type ℓ} (p q : A → Bool) (xs : List A) → ((x : A) → p x ≡ q x) → any p xs ≡ any q xs
any-ext p q [] h = refl
any-ext p q (x ∷ xs) h = ground (arith, h x, any-ext p q xs h)

pub any-none {ℓ} :
    {A : Type ℓ} (p : A → Bool) (xs : List A) → any p xs ≡ false → All (λ x. p x ≡ false) xs
any-none p [] h = tt
any-none p (x ∷ xs) h = (ground (arith, h), any-none p xs (ground (arith, h)))

-- a test that some element passes is passed by one of them
pub All-any {ℓ} :
    {A : Type ℓ} (xs : List A) → All (λ x. (q : A → Bool) → q x ≡ true → any q xs ≡ true) xs
All-any {A = A} [] = tt
All-any {A = A} (x ∷ xs) = (
  λ q h. ground (arith, h),
  All-map (λ y. (q : A → Bool) → q y ≡ true → any q xs ≡ true)
      (λ y. (q : A → Bool) → q y ≡ true → any q (x ∷ xs) ≡ true) (λ y f q h. ground (arith, f q h))
      xs (All-any xs),
)

pub any-gather {ℓ κ} :
    {A : Type ℓ} {B : Type κ} (p : B → Bool) (f : A → List B) (xs : List A)
    → any p (gather f xs) ≡ any (λ x. any p (f x)) xs
any-gather p f [] = refl
any-gather p f (x ∷ xs) = ground (arith, any-gather p f xs, any-append p (f x) (gather f xs))

pub any-false {ℓ} : {A : Type ℓ} (xs : List A) → any (λ x. false) xs ≡ false
any-false [] = refl
any-false (x ∷ xs) = any-false xs

pub All-zip {ℓ κ μ} :
    {A : Type ℓ} (P : A → Type κ) (Q : A → Type μ) (xs : List A)
    → All P xs
    → All Q xs
    → All (λ x. P x × Q x) xs
All-zip P Q [] h k = tt
All-zip P Q (x ∷ xs) h k = ((h.0, k.0), All-zip P Q xs h.1 k.1)

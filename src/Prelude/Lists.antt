-- ===== src/Prelude/Lists.antt =====
-- Lists measured by native numbers, predicates over lists, and the slices of the source.
use Prim.Native.Nat.{ℕ, zero, suc, ◌+◌, ◌-◌, min}
use mathlib.Core.Path.{◌≡◌, refl, ap}
use mathlib.Core.List.{List, [], ◌∷◌, ◌++◌, map}
use native.Mathlib.Omega.{arith}

module _ {ℓ} {A : Type ℓ} where
  abbrev pub length : List A → ℕ
  length [] = 0
  length (x ∷ xs) = suc (length xs)

  -- `xs[:n]` and `xs[n:]`
  abbrev pub take : ℕ → List A → List A
  take zero xs = []
  take (suc n) [] = []
  take (suc n) (x ∷ xs) = x ∷ take n xs

  abbrev pub drop : ℕ → List A → List A
  drop zero xs = xs
  drop (suc n) [] = []
  drop (suc n) (x ∷ xs) = drop n xs

  pub length-append : (xs ys : List A) → length (xs ++ ys) ≡ length xs + length ys
  length-append [] ys = omega arith
  length-append (x ∷ xs) ys = omega (arith, length-append xs ys)

  pub length-drop : (n : ℕ) (xs : List A) → length (drop n xs) ≡ length xs - n
  length-drop zero xs = omega arith
  length-drop (suc n) [] = omega arith
  length-drop (suc n) (x ∷ xs) = omega (arith, length-drop n xs)

  pub length-take : (n : ℕ) (xs : List A) → length (take n xs) ≡ min n (length xs)
  length-take zero xs = omega arith
  length-take (suc n) [] = omega arith
  length-take (suc n) (x ∷ xs) = omega (arith, length-take n xs)

  pub take-append-drop : (n : ℕ) (xs : List A) → take n xs ++ drop n xs ≡ xs
  take-append-drop zero xs = refl
  take-append-drop (suc n) [] = refl
  take-append-drop (suc n) (x ∷ xs) = ap (λ l. x ∷ l) (take-append-drop n xs)

pub length-map {ℓ κ} :
    {A : Type ℓ} {B : Type κ} (f : A → B) (xs : List A) → length (map f xs) ≡ length xs
length-map f [] = refl
length-map f (x ∷ xs) = ap suc (length-map f xs)

-- Every member has `Q`; the constructors are `×`, so that the tactics read it.
abbrev pub All {ℓ κ} : {A : Type ℓ} → (A → Type κ) → List A → Type κ
All Q (y ∷ rest) = Q y × All Q rest
All Q [] = Unit

module _ {ℓ κ} {A : Type ℓ} (Q : A → Type κ) where
  pub All-append : (l m : List A) → All Q l → All Q m → All Q (l ++ m)
  All-append [] m left right = right
  All-append (y ∷ l) m (first, left) right = (first, All-append l m left right)

module _ {ℓ κ μ} {A : Type ℓ} {P : A → Type κ} {Q : A → Type μ} where
  pub All-map : ((a : A) → P a → Q a) → (l : List A) → All P l → All Q l
  All-map f [] h = tt
  All-map f (a ∷ l) (h, hs) = (f a h, All-map f l hs)

module _ {ℓ κ μ} {A : Type ℓ} {B : Type κ} (R : A → B → Type μ) where
  All-cons :
      (l : List A) (b : B) (m : List B)
      → All (λ a. R a b) l
      → All (λ a. All (R a) m) l
      → All (λ a. All (R a) (b ∷ m)) l
  All-cons [] b m hs ks = tt
  All-cons (a ∷ l) b m (h, hs) (k, ks) = ((h, k), All-cons l b m hs ks)

  All-nil : (l : List A) → All (λ a. All (R a) []) l
  All-nil [] = tt
  All-nil (a ∷ l) = (tt, All-nil l)

  -- two `All`s change places
  pub All-swap :
      (l : List A) (m : List B) → All (λ b. All (λ a. R a b) l) m → All (λ a. All (R a) m) l
  All-swap l [] h = All-nil l
  All-swap l (b ∷ m) (h, hs) = All-cons l b m h (All-swap l m hs)

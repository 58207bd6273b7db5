-- ===== src/Action.antt =====
-- What a Go function gives back, and functions that change a state or call the outside world.
-- A `(T, error)` is `ok` or `err`, where an error is the text of its message; `panicked` is a
-- run-time panic, which ends the goroutine and which no code in the modelled files recovers from.
pub mod OnOk
pub mod Keeps
use capyclaw.Prelude.{String, [], ◌∷◌, concat, ◌≡◌, refl}

pub data Result {ℓ} (A : Type ℓ) : Type ℓ where
  ok : A → Result A
  err : String → Result A
  panicked : Result A

-- what was done before an error stays done, so the state comes back beside the error too
abbrev pub Action {ℓ} : Type ℓ → Type ℓ → Type ℓ
Action S A = S → Result A × S

module _ {ℓ} {S A : Type ℓ} where
  unfoldable pub pure : A → Action S A
  pure a s = (ok a, s)

  unfoldable pub fail : String → Action S A
  fail e s = (err e, s)

  unfoldable pub panic : Action S A
  panic s = (panicked, s)

  unfoldable pub gets : (S → A) → Action S A
  gets f s = (ok (f s), s)

unfoldable pub modify {ℓ} : {S : Type ℓ} → (S → S) → Action S (Unit {ℓ})
modify f s = (ok tt, f s)

module _ {ℓ} {S A B : Type ℓ} where
  abbrev pub continue : Result A → (A → Action S B) → Action S B
  continue (ok a) f s = f a s
  continue (err e) f s = (err e, s)
  continue panicked f s = (panicked, s)

  infixl 10 ◌>>=◌ ◌>>◌
  unfoldable pub ◌>>=◌ : Action S A → (A → Action S B) → Action S B
  unfolding pure fail panic gets modify
  ◌>>=◌ m f s = let (r, s') = m s in continue r f s'

  pub >>=-ok :
      (m : Action S A) (f : A → Action S B) (s : S) (a : A)
      → (m s).0 ≡ ok a
      → (m >>= f) s ≡ f a (m s).1
  unfolding ◌>>=◌
  >>=-ok m f s a h = rw h refl

  abbrev pub ◌>>◌ : Action S A → Action S B → Action S B
  m >> n = m >>= λ _. n

-- `if err != nil { … }` where the code goes on after the error: the error is a value
abbrev pub settle {ℓ κ} : {A : Type ℓ} {B : Type κ} → (A → B) → (String → B) → Result A → Result B
settle f g (ok a) = ok (f a)
settle f g (err e) = ok (g e)
settle f g panicked = panicked

module _ {ℓ} {S A B : Type ℓ} where
  unfoldable pub attempt : (A → B) → (String → B) → Action S A → Action S B
  attempt f g m s = let (r, s') = m s in (settle f g r, s')

-- `fmt.Errorf("context: %w", err)`
abbrev pub context {ℓ} : {A : Type ℓ} → String → Result A → Result A
context c (ok a) = ok a
context c (err e) = err (concat (c ∷ e ∷ []))
context c panicked = panicked

unfoldable pub within {ℓ} : {S A : Type ℓ} → String → Action S A → Action S A
within c m s = let (r, s') = m s in (context c r, s')

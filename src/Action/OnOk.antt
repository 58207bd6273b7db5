-- ===== src/Action/OnOk.antt =====
-- What holds of the value of a result, if there is one, along a sequence of actions.
use mathlib.Core.Path.{subst}
use capyclaw.Prelude.{◌≡◌}
use capyclaw.Action.{Result, ok, err, panicked, Action, continue, ◌>>=◌}

-- `P` of the value, if there is one
abbrev pub OnOk {ℓ} : {A : Type ℓ} → (A → Type ℓ) → Result A → Type ℓ
OnOk P (ok a) = P a
OnOk P (err e) = Unit
OnOk P panicked = Unit

module _ {A : Type 0} (P : A → Type 0) where
  pub OnOk-eq : (r : Result A) (a : A) → r ≡ ok a → OnOk P r → OnOk P (ok a)
  OnOk-eq r a e h = subst (OnOk P) e h

  pub OnOk-map : (Q : A → Type 0) (r : Result A) → ((a : A) → P a → Q a) → OnOk P r → OnOk Q r
  OnOk-map Q (ok a) f h = f a h
  OnOk-map Q (err e) f h = tt
  OnOk-map Q panicked f h = tt

pub OnOk-any : {A : Type 0} (r : Result A) → OnOk (λ _. Unit) r
OnOk-any (ok a) = tt
OnOk-any (err e) = tt
OnOk-any panicked = tt

module _ {S A B : Type 0} (P : A → Type 0) (Q : B → Type 0) where
  OnOk-continue :
      (r : Result A) (f : A → Action S B) (s : S)
      → OnOk P r
      → ((a : A) (s : S) → P a → OnOk Q (f a s).0)
      → OnOk Q (continue r f s).0
  OnOk-continue (ok a) f s h k = k a s h
  OnOk-continue (err e) f s h k = tt
  OnOk-continue panicked f s h k = tt

  pub OnOk-bind :
      (m : Action S A) (f : A → Action S B) (s : S)
      → OnOk P (m s).0
      → ((a : A) (s : S) → P a → OnOk Q (f a s).0)
      → OnOk Q ((m >>= f) s).0
  unfolding ◌>>=◌
  OnOk-bind m f s h k = OnOk-continue (m s).0 f (m s).1 h k

-- the same of the value with the state after it
module _ {S A B : Type 0} (Q : B → S → Type 0) where
  Post-continue :
      (r : Result A) (f : A → Action S B) (s : S)
      → ((a : A) (s : S) → OnOk (λ b. Q b (f a s).1) (f a s).0)
      → OnOk (λ b. Q b (continue r f s).1) (continue r f s).0
  Post-continue (ok a) f s h = h a s
  Post-continue (err e) f s h = tt
  Post-continue panicked f s h = tt

  pub Post-bind :
      (m : Action S A) (f : A → Action S B) (s : S)
      → ((a : A) (s : S) → OnOk (λ b. Q b (f a s).1) (f a s).0)
      → OnOk (λ b. Q b ((m >>= f) s).1) ((m >>= f) s).0
  unfolding ◌>>=◌
  Post-bind m f s h = Post-continue (m s).0 f (m s).1 h

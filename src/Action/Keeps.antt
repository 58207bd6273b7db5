-- ===== src/Action/Keeps.antt =====
-- What an action keeps of the state, along the ways in which actions are put together.
use capyclaw.Prelude.{String, Option, none, some}
use capyclaw.Action.{
  Result, ok, err, panicked, Action, pure, fail, continue, within, attempt, ◌>>=◌,
}

-- `P` of the value, if there is one
abbrev pub OnSome {ℓ κ} : {A : Type ℓ} → (A → Type κ) → Option A → Type κ
OnSome P none = Unit
OnSome P (some a) = P a

module _ {S : Type 0} (I : S → Type 0) where
  abbrev pub Keeps : {A : Type 0} → Action S A → Type 0
  Keeps m = (s : S) → I s → I (m s).1

  pub Keeps-pure : {A : Type 0} (a : A) → Keeps (pure a)
  unfolding pure
  Keeps-pure a s i = i

  pub Keeps-fail : (A : Type 0) (e : String) → Keeps {A = A} (fail e)
  unfolding fail
  Keeps-fail A e s i = i

  Keeps-continue :
      {A B : Type 0} (r : Result A) (f : A → Action S B)
      → ((a : A) → Keeps (f a))
      → Keeps (continue r f)
  Keeps-continue (ok a) f k s i = k a s i
  Keeps-continue (err e) f k s i = i
  Keeps-continue panicked f k s i = i

  pub Keeps-bind :
      {A B : Type 0} (m : Action S A) (f : A → Action S B)
      → Keeps m
      → ((a : A) → Keeps (f a))
      → Keeps (m >>= f)
  unfolding ◌>>=◌
  Keeps-bind m f h k s i = Keeps-continue (m s).0 f k (m s).1 (h s i)

  pub Keeps-within : {A : Type 0} (c : String) (m : Action S A) → Keeps m → Keeps (within c m)
  unfolding within
  Keeps-within c m h s i = h s i

  pub Keeps-attempt :
      {A B : Type 0} (f : A → B) (g : String → B) (m : Action S A) → Keeps m → Keeps (attempt f g m)
  unfolding attempt
  Keeps-attempt f g m h s i = h s i

-- ===== src/Burrow/Sends.antt =====
-- Which chunks an action of the pipeline sends on the output channel, one rule for each way to
-- build an action.
use mathlib.Core.List.{append-nil, append_assoc}
use capyclaw.Prelude.{
  String, ◌≡◌, refl, sym, ap, ◌∙◌, ◌≢◌, Bool, true, false, Option, none, some, List, [], ◌∷◌, ◌++◌,
  All, All-append, if◌then◌else◌,
}
use capyclaw.Action.{
  Result, ok, err, panicked, Action, continue, pure, fail, panic, attempt, within, ◌>>=◌,
}
use capyclaw.Nibble.Executor.{ExecutorState}
use capyclaw.Burrow.Types.{StreamChunk, StreamType}
use capyclaw.Burrow.Deps.{State, on_executor, outside, emit, send}

-- a chunk that does not end the stream
pub record IsBody (c : StreamChunk) : Type 0 where
  pub not_done : c.kind ≢ StreamType.done
  pub not_error : c.kind ≢ StreamType.error

pub record Sent (W : Type 0) (s t : State W) : Type 0 where
  pub body : List StreamChunk
  pub is_body : All IsBody body
  pub grown : t.out ≡ s.out ++ body

-- from every state, `m` only adds chunks that do not end the stream
pub record Sends (W A : Type 0) (m : Action (State W) A) : Type 0 where
  pub at : (s : State W) → Sent W s (m s).1

module _ {W : Type 0} where
  pub Sent-refl : (s : State W) → Sent W s s
  Sent-refl s = record { body = []; is_body = tt; grown = sym (append-nil s.out) }

  pub Sent-trans : {s t u : State W} → Sent W s t → Sent W t u → Sent W s u
  Sent-trans {s} {t} {u} a b = record {
    body = a.body ++ b.body;
    is_body = All-append IsBody a.body b.body a.is_body b.is_body;
    grown = b.grown ∙ ap (λ o. o ++ b.body) a.grown ∙ append_assoc s.out a.body b.body;
  }

  pub Sent-emit :
      (has_output : Bool) (c : StreamChunk) (s : State W)
      → IsBody c
      → Sent W s (emit has_output c s)
  unfolding emit
  Sent-emit true c s h = record { body = c ∷ []; is_body = (h, tt); grown = refl }
  Sent-emit false c s h = Sent-refl s

module _ {W A : Type 0} where
  pub Sends-pure : (a : A) → Sends W A (pure a)
  unfolding pure
  Sends-pure a = record { at = λ s. Sent-refl s }

  pub Sends-fail : (e : String) → Sends W A (fail e)
  unfolding fail
  Sends-fail e = record { at = λ s. Sent-refl s }

  pub Sends-panic : Sends W A panic
  unfolding panic
  Sends-panic = record { at = λ s. Sent-refl s }

  pub Sends-on_executor : (m : Action (ExecutorState W) A) → Sends W A (on_executor m)
  unfolding on_executor
  Sends-on_executor m = record {
    at = λ s. record { body = []; is_body = tt; grown = sym (append-nil s.out) };
  }

  pub Sends-outside : (m : Action W A) → Sends W A (outside m)
  unfolding outside on_executor
  Sends-outside m = record {
    at = λ s. record { body = []; is_body = tt; grown = sym (append-nil s.out) };
  }

  pub Sends-within : (c : String) (m : Action (State W) A) → Sends W A m → Sends W A (within c m)
  unfolding within
  Sends-within c m h = record { at = λ s. h.at s }

  pub Sends-if :
      (b : Bool) (m n : Action (State W) A)
      → Sends W A m
      → Sends W A n
      → Sends W A (if b then m else n)
  Sends-if true m n hm hn = hm
  Sends-if false m n hm hn = hn

module _ {W A B : Type 0} where
  pub Sends-attempt :
      (f : A → B) (g : String → B) (m : Action (State W) A)
      → Sends W A m
      → Sends W B (attempt f g m)
  unfolding attempt
  Sends-attempt f g m h = record { at = λ s. h.at s }

  pub Sends-option :
      (o : Option B) (m : Action (State W) A) (f : B → Action (State W) A)
      → Sends W A m
      → ((b : B) → Sends W A (f b))
      → Sends W A (elim o [ none ↦ m | some b ↦ f b ])
  Sends-option none m f hm hf = hm
  Sends-option (some b) m f hm hf = hf b

  Sent-continue :
      (r : Result A) (f : A → Action (State W) B) (s : State W)
      → ((a : A) → Sends W B (f a))
      → Sent W s (continue r f s).1
  Sent-continue (ok a) f s h = (h a).at s
  Sent-continue (err e) f s h = Sent-refl s
  Sent-continue panicked f s h = Sent-refl s

  pub Sends-bind :
      (m : Action (State W) A) (f : A → Action (State W) B)
      → Sends W A m
      → ((a : A) → Sends W B (f a))
      → Sends W B (m >>= f)
  unfolding ◌>>=◌
  Sends-bind m f hm hf = record {
    at = λ s. Sent-trans (hm.at s) (Sent-continue (m s).0 f (m s).1 hf);
  }

pub Sends-send :
    {W : Type 0} (has_output : Bool) (c : StreamChunk)
    → IsBody c
    → Sends W (Unit {0}) (send has_output c)
unfolding send
Sends-send has_output c h = record { at = λ s. Sent-emit has_output c s h }

pub ruleset sends_rules = (
  Sends-pure, Sends-fail, Sends-panic, Sends-on_executor, Sends-outside, Sends-within, Sends-if,
  Sends-attempt, Sends-bind, Sends-send, Sends-option,
)

-- ===== src/Sql/Numbered.antt =====
-- The placeholders of a statement and its arguments.
use mathlib.Core.Path.{subst}
use text.Mathlib.TextLemmas.{append_assoc, append-nil}
use mathlib.Core.List.{append-nil as list_append-nil, append_assoc as list_append_assoc}
use Prim.Native.String.{◌++◌ as append}
use capyclaw.Prelude.{
  ℕ, zero, suc, ◌+◌, ◌≡◌, refl, sym, ◌∙◌, arith, String, Option, none, some, List, [], ◌∷◌, ◌++◌,
  concat, length, length-append, All,
}
use capyclaw.Sql.{Arg, Statement, Field, start, add, add_field, add_fields}

-- a clause, the number of its placeholder, and its value
abbrev pub Clause : Type 0
Clause = String × ℕ × Arg

-- the fields that are there, numbered from `n`
abbrev pub numbered : ℕ → List Field → List Clause
numbered n [] = []
numbered n ((clause, none) ∷ fs) = numbered n fs
numbered n ((clause, some v) ∷ fs) = (clause, n, v) ∷ numbered (n + 1) fs

-- the argument that a placeholder `$n` stands for
abbrev pub arg_at : ℕ → List Arg → Option Arg
arg_at n [] = none
arg_at zero (v ∷ vs) = none
arg_at (suc zero) (v ∷ vs) = some v
arg_at (suc (suc n)) (v ∷ vs) = arg_at (suc n) vs

arg_at-length :
    (n : ℕ) (before rest : List Arg) (v : Arg)
    → n ≡ length before + 1
    → arg_at n (before ++ v ∷ rest) ≡ some v
arg_at-length zero before rest v e = absurd (omega (arith, e))
arg_at-length (suc zero) [] rest v e = refl
arg_at-length (suc zero) (b ∷ before) rest v e = absurd (omega (arith, e))
arg_at-length (suc (suc n)) [] rest v e = absurd (omega (arith, e))
arg_at-length (suc (suc n)) (b ∷ before) rest v e =
    arg_at-length (suc n) before rest v (omega (arith, e))

module _ (number_text : ℕ → String) where
  abbrev pub printed : List Clause → String
  printed [] = ""
  printed ((clause, n, v) ∷ cs) = append clause (append (number_text n) (printed cs))

  abbrev pub values_of : List Clause → List Arg
  values_of [] = []
  values_of ((clause, n, v) ∷ cs) = v ∷ values_of cs

  -- the statement is `head` and the clauses in order, and each placeholder stands for its clause's value
  pub record Bound (head : String) (cs : List Clause) (s : Statement) : Type 0 where
    pub text_eq : s.query ≡ append head (printed cs)
    pub args_eq : s.args ≡ values_of cs
    pub next_eq : s.arg_idx ≡ length cs + 1
    pub each : All (λ (c : Clause). arg_at c.1 s.args ≡ some c.2) cs

  add_fields-query :
      (fs : List Field) (s : Statement)
      → (add_fields number_text fs s).query ≡ append s.query (printed (numbered s.arg_idx fs))
  unfolding add_fields add_field add concat
  add_fields-query [] s = sym (append-nil s.query)
  add_fields-query ((clause, none) ∷ fs) s = add_fields-query fs s
  add_fields-query ((clause, some v) ∷ fs) s =
      add_fields-query fs (add number_text clause v s) ∙ simp (append-nil, append_assoc)

  add_fields-args :
      (fs : List Field) (s : Statement)
      → (add_fields number_text fs s).args ≡ s.args ++ values_of (numbered s.arg_idx fs)
  unfolding add_fields add_field add
  add_fields-args [] s = sym (list_append-nil s.args)
  add_fields-args ((clause, none) ∷ fs) s = add_fields-args fs s
  add_fields-args ((clause, some v) ∷ fs) s =
      add_fields-args fs (add number_text clause v s) ∙ list_append_assoc s.args (v ∷ []) _

  add_fields-next :
      (fs : List Field) (s : Statement)
      → (add_fields number_text fs s).arg_idx ≡ length (numbered s.arg_idx fs) + s.arg_idx
  unfolding add_fields add_field add
  add_fields-next [] s = omega arith
  add_fields-next ((clause, none) ∷ fs) s = add_fields-next fs s
  add_fields-next ((clause, some v) ∷ fs) s =
      omega (arith, add_fields-next fs (add number_text clause v s))

  placed :
      (fs : List Field) (n : ℕ) (before after : List Arg)
      → n ≡ length before + 1
      → All
          (λ (c : Clause). arg_at c.1 (before ++ (values_of (numbered n fs) ++ after)) ≡ some c.2)
          (numbered n fs)
  placed [] n before after e = tt
  placed ((clause, none) ∷ fs) n before after e = placed fs n before after e
  placed ((clause, some v) ∷ fs) n before after e =
      let rest = values_of (numbered (n + 1) fs) ++ after in
      let later =
        placed fs (n + 1) (before ++ v ∷ []) after
          (omega (arith, e, length-append before (v ∷ []))) in
      (
        arg_at-length n before rest v e,
        subst (λ l. All (λ (c : Clause). arg_at c.1 l ≡ some c.2) (numbered (n + 1) fs))
            (list_append_assoc before (v ∷ []) rest) later,
      )

  pub add_fields-Bound :
      (head : String) (fs : List Field)
      → Bound head (numbered 1 fs) (add_fields number_text fs (start head))
  add_fields-Bound head fs = record {
    text_eq = add_fields-query fs (start head);
    args_eq = add_fields-args fs (start head);
    next_eq = add_fields-next fs (start head);
    each =
        subst (λ l. All (λ (c : Clause). arg_at c.1 l ≡ some c.2) (numbered 1 fs))
          (list_append-nil _ ∙ sym (add_fields-args fs (start head)))
          (placed fs 1 [] [] (omega arith));
  }

  pub add_fields-last :
      (fs : List Field) (clause : String) (v : Arg) (s : Statement)
      → add_fields number_text (fs ++ (clause, some v) ∷ []) s
        ≡ add number_text clause v (add_fields number_text fs s)
  unfolding add_fields add_field
  add_fields-last [] clause v s = refl
  add_fields-last (f ∷ fs) clause v s = add_fields-last fs clause v (add_field number_text f s)

  pub add_fields-last_two :
      (fs : List Field) (clause clause' : String) (v v' : Arg) (s : Statement)
      → add_fields number_text (fs ++ (clause, some v) ∷ (clause', some v') ∷ []) s
        ≡ add number_text clause' v' (add number_text clause v (add_fields number_text fs s))
  unfolding add_fields add_field
  add_fields-last_two [] clause clause' v v' s = refl
  add_fields-last_two (f ∷ fs) clause clause' v v' s =
      add_fields-last_two fs clause clause' v v' (add_field number_text f s)

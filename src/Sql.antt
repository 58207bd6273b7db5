-- ===== src/Sql.antt =====
-- The statements that the code puts together from the clauses that are asked for: the query's text, its
-- arguments, and the number of the next placeholder. The white space of a statement is one space.
pub mod Numbered
use capyclaw.Prelude.{ℕ, ◌+◌, String, Option, none, some, List, [], ◌∷◌, ◌++◌, concat}
use capyclaw.Action.{Result, ok, err, panicked}

-- an argument: a UUID is its text, an instant its number of seconds
pub data Arg : Type 0 where
  text : String → Arg
  raw : List ℕ → Arg
  uuid : String → Arg
  int : ℕ → Arg
  instant : ℕ → Arg

-- `query`, `args` and `argIdx`
pub record Statement : Type 0 where
  pub query : String
  pub args : List Arg
  pub arg_idx : ℕ

abbrev pub start : String → Statement
start query = record { query = query; args = []; arg_idx = 1 }

-- a field that is a pointer, or a text that counts as missing if it is empty: the clause's text up to
-- the number of its placeholder, and its value
abbrev pub Field : Type 0
Field = String × Option Arg

-- `%d` is a parameter
module _ (number_text : ℕ → String) where
  -- `query += fmt.Sprintf(…, argIdx); args = append(args, v); argIdx++`
  unfoldable pub add : String → Arg → Statement → Statement
  add clause v s = record {
    query = concat (s.query ∷ clause ∷ number_text s.arg_idx ∷ []);
    args = s.args ++ v ∷ [];
    arg_idx = s.arg_idx + 1;
  }

  -- `if v != nil { … }`
  unfoldable pub add_field : Field → Statement → Statement
  unfolding add
  add_field (clause, none) s = s
  add_field (clause, some v) s = add clause v s

  -- one such statement after the other
  unfoldable pub add_fields : List Field → Statement → Statement
  unfolding add_field
  add_fields [] s = s
  add_fields (f ∷ fs) s = add_fields fs (add_field f s)

-- the rows of a query, each scanned; the loop ends at the first that cannot be
unfoldable pub scan_rows : {A : Type 0} → List (Result A) → List A → Result (List A)
scan_rows [] read = ok read
scan_rows (ok a ∷ rows) read = scan_rows rows (read ++ a ∷ [])
scan_rows (err e ∷ rows) read = err e
scan_rows (panicked ∷ rows) read = panicked

-- ===== src/Wetland/Footprint/Filter.antt =====
-- The statement of a query of the audit log.
use mathlib.Core.Path.{subst}
use capyclaw.Prelude.{
  ℕ, ◌+◌, ◌≤◌, ◌^◌, ◌<◌, ◌≡◌, refl, ap, ◌∙◌, ◌⊎◌, inl, inr, arith, String, String_eq, ◌==◌,
  Bool-cases, Option, none, some, List, [], ◌∷◌, ◌++◌, Int64, if◌then◌else◌,
}
use capyclaw.Sql.{Arg, Field, start}
use capyclaw.Sql.Numbered.{Clause, Bound, numbered, add_fields-Bound, add_fields-last_two}
use capyclaw.Wetland.Footprint.{
  AuditDb, AuditFilter, select_events, filter_fields, filter_statement, effective_limit,
  effective_offset, uuid_arg, instant_arg, non_empty_arg,
}

-- what a query asks of its rows, given the limit and the offset of its filter: those, if the limit is
-- from 1 to 200 and the offset is not negative, and 50 and 0 otherwise
pub record Paged (limit offset rows from : Int64) : Type 0 where
  pub some_rows : 1 ≤ rows
  pub few_rows : rows ≤ 200
  pub from_start : from < 2 ^ 63
  pub rows_asked : 1 ≤ limit → limit ≤ 200 → rows ≡ limit
  pub rows_default : (limit ≡ 0) ⊎ (200 < limit) → rows ≡ 50
  pub from_asked : offset < 2 ^ 63 → from ≡ offset
  pub from_default : 2 ^ 63 ≤ offset → from ≡ 0

effective-Paged :
    (limit offset : Int64)
    → limit < 2 ^ 64
    → offset < 2 ^ 64
    → Paged limit offset (effective_limit limit) (effective_offset offset)
unfolding effective_limit effective_offset
effective-Paged limit offset h k = record {
  some_rows = ground (arith, h);
  few_rows = ground (arith, h);
  from_start = ground (arith, k);
  rows_asked = λ low high. ground (arith, h, low, high);
  rows_default = λ out. ground (arith, h, out);
  from_asked = λ low. ground (arith, k, low);
  from_default = λ high. ground (arith, k, high);
}

-- The conditions that a filter stands for: one on each column for which it gives a value.
abbrev pub Condition : Type 0
Condition = String × Arg

abbrev pub if_given : {A : Type 0} → String → (A → Arg) → Option A → List Condition
if_given clause of_value none = []
if_given clause of_value (some v) = (clause, of_value v) ∷ []

abbrev pub if_filled : String → String → List Condition
if_filled clause t = if t == "" then [] else (clause, Arg.text t) ∷ []

abbrev pub conditions : AuditFilter → List Condition → List Condition
conditions f rest =
    if_given " AND tenant_id = $" Arg.uuid f.tenant_id
    ++ (if_given " AND actor_id = $" Arg.uuid f.actor_id
        ++ (if_filled " AND action = $" f.action
            ++ (if_filled " AND resource_type = $" f.resource_type
                ++ (if_given " AND created_at >= $" Arg.instant f.since
                    ++ (if_given " AND created_at <= $" Arg.instant f.until ++ rest)))))

-- the clauses with the numbers of their placeholders
abbrev pub clauses : ℕ → List Condition → List Clause
clauses n [] = []
clauses n ((text, v) ∷ cs) = (text, n, v) ∷ clauses (n + 1) cs

abbrev present : List Field → List Condition
present [] = []
present ((text, none) ∷ fs) = present fs
present ((text, some v) ∷ fs) = (text, v) ∷ present fs

numbered-clauses : (n : ℕ) (fs : List Field) → numbered n fs ≡ clauses n (present fs)
numbered-clauses n [] = refl
numbered-clauses n ((text, none) ∷ fs) = numbered-clauses n fs
numbered-clauses n ((text, some v) ∷ fs) =
    ap (λ cs. (text, n, v) ∷ cs) (numbered-clauses (n + 1) fs)

present-uuid :
    (clause : String) (o : Option String) (fs : List Field)
    → present ((clause, uuid_arg o) ∷ fs) ≡ if_given clause Arg.uuid o ++ present fs
present-uuid clause none fs = refl
present-uuid clause (some v) fs = refl

present-instant :
    (clause : String) (o : Option ℕ) (fs : List Field)
    → present ((clause, instant_arg o) ∷ fs) ≡ if_given clause Arg.instant o ++ present fs
present-instant clause none fs = refl
present-instant clause (some v) fs = refl

present-text :
    (clause t : String) (fs : List Field)
    → present ((clause, non_empty_arg t) ∷ fs) ≡ if_filled clause t ++ present fs
present-text clause t fs = elim (Bool-cases (t == "")) [
  | inl empty ↦ rw empty refl
  | inr filled ↦ rw filled refl
]

present-conditions :
    (f : AuditFilter) (rest : List Field)
    → present (filter_fields f ++ rest) ≡ conditions f (present rest)
present-conditions f rest =
    present-uuid " AND tenant_id = $" f.tenant_id _
    ∙ ap (λ cs. if_given " AND tenant_id = $" Arg.uuid f.tenant_id ++ cs)
        (present-uuid " AND actor_id = $" f.actor_id _
          ∙ ap (λ cs. if_given " AND actor_id = $" Arg.uuid f.actor_id ++ cs)
              (present-text " AND action = $" f.action _
                ∙ ap (λ cs. if_filled " AND action = $" f.action ++ cs)
                    (present-text " AND resource_type = $" f.resource_type _
                      ∙ ap (λ cs. if_filled " AND resource_type = $" f.resource_type ++ cs)
                          (present-instant " AND created_at >= $" f.since _
                            ∙ ap (λ cs. if_given " AND created_at >= $" Arg.instant f.since ++ cs)
                                (present-instant " AND created_at <= $" f.until _)))))

-- The statement of a query has a condition for each column for which the filter gives a value, and no
-- other, in the order of the clauses, and then a limit and an offset: its text is these clauses with the
-- numbers of their placeholders, its arguments are as many, and each placeholder stands for the value of
-- its own clause. The limit is from 1 to 200, the filter's if that is, and 50 otherwise; the offset is
-- the filter's, and 0 if that is negative. The filter's limit and offset are patterns of 64 bits.
pub filter_statement-Bound :
    {W : Type 0} (db : AuditDb W) (f : AuditFilter)
    → f.limit < 2 ^ 64
    → f.offset < 2 ^ 64
    → Bound db.number_text select_events
        (clauses 1 (
          conditions f (
            (" ORDER BY id DESC LIMIT $", Arg.int (effective_limit f.limit))
            ∷ (" OFFSET $", Arg.int (effective_offset f.offset))
            ∷ [])))
        (filter_statement db f)
      × Paged f.limit f.offset (effective_limit f.limit) (effective_offset f.offset)
unfolding filter_statement
filter_statement-Bound db f h k =
    let last =
      (" ORDER BY id DESC LIMIT $", some (Arg.int (effective_limit f.limit)))
      ∷ (" OFFSET $", some (Arg.int (effective_offset f.offset)))
      ∷ [] in
    (
      subst (λ cs. Bound db.number_text select_events cs (filter_statement db f))
          (numbered-clauses 1 (filter_fields f ++ last)
            ∙ ap (clauses 1) (present-conditions f last))
          (subst (Bound db.number_text select_events (numbered 1 (filter_fields f ++ last)))
            (add_fields-last_two db.number_text (filter_fields f) _ _ _ _ (start select_events))
            (add_fields-Bound db.number_text select_events _)),
      effective-Paged f.limit f.offset h k,
    )

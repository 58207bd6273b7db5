-- ===== src/Memory/Consolidator/Merges.antt =====
-- Which memories the loop of mergeSimilar touches.
use mathlib.Core.Path.{subst}
use mathlib.Core.List.{append_assoc, append-nil}
use capyclaw.Prelude.{
  ℕ, ℕ_eq, ◌+◌, ◌||◌, ◌≡◌, refl, sym, ap, ◌∙◌, Bool, true, false, Bool-cases, inl, inr, List, [],
  ◌∷◌, ◌++◌, if◌then◌else◌, arith,
}
use capyclaw.Action.{Result, ok, err, panicked, continue, pure, attempt, settle, ◌>>=◌}
use capyclaw.Action.OnOk.{OnOk, OnOk-map}
use capyclaw.Burrow.Types.{Uuid}
use capyclaw.Memory.Consolidator.{
  Pair, MemoryStore, ScoreOps, has, choose, after_remove, after_update, merge_pair, merge_pairs,
}

-- a statement of the loop: its memory, and whether it removed it
pub record Entry : Type 0 where
  pub id : Uuid
  pub removed : Bool

abbrev pub Journal : Type 0 → Type 0
Journal W = W × List Entry

abbrev is_ok : {A : Type 0} → Result A → Bool
is_ok (ok a) = true
is_ok (err e) = false
is_ok panicked = false

-- a store whose updates and removals are written to a journal
unfoldable pub journaled : {W : Type 0} → MemoryStore W → MemoryStore (Journal W)
journaled st = record {
  count = λ id (w, j). let (r, w') = st.count id w in (r, (w', j));
  boost = λ id (w, j). let (r, w') = st.boost id w in (r, (w', j));
  similar_pairs = λ id t (w, j). let (r, w') = st.similar_pairs id t w in (r, (w', j));
  update_merged = λ n f id (w, j).
      let (r, w') = st.update_merged n f id w in
      (r, (w', j ++ record { id = id; removed = false } ∷ []));
  remove = λ id (w, j).
      let (r, w') = st.remove id w in (r, (w', j ++ record { id = id; removed = is_ok r } ∷ []));
  prune = λ id t (w, j). let (r, w') = st.prune id t w in (r, (w', j));
  remove_lowest = λ id n (w, j). let (r, w') = st.remove_lowest id n w in (r, (w', j));
  agents = λ (w, j). let (r, w') = st.agents w in (r, (w', j));
}

-- the memories that are gone after the statements
abbrev pub gone : List Uuid → List Entry → List Uuid
gone ids [] = ids
gone ids (e ∷ es) = gone (if e.removed then e.id ∷ ids else ids) es

-- how many were removed
abbrev pub removals : List Entry → ℕ
removals [] = 0
removals (e ∷ es) = (if e.removed then 1 else 0) + removals es

-- no statement is on a memory that is gone already
abbrev pub Fresh : List Uuid → List Entry → Type 0
Fresh ids [] = Unit
Fresh ids (e ∷ es) = (has ids e.id ≡ false) × Fresh (if e.removed then e.id ∷ ids else ids) es

Fresh-append :
    (ids : List Uuid) (xs ys : List Entry)
    → Fresh ids xs
    → Fresh (gone ids xs) ys
    → Fresh ids (xs ++ ys)
Fresh-append ids [] ys h k = k
Fresh-append ids (x ∷ xs) ys h k = (h.0, Fresh-append _ xs ys h.1 k)

removals-append : (xs ys : List Entry) → removals (xs ++ ys) ≡ removals xs + removals ys
removals-append [] ys = omega arith
removals-append (x ∷ xs) ys = omega (arith, removals-append xs ys)

-- what a run from a journal `j` adds to it, where `ids` are gone and `n` were removed
pub record Adds {A : Type 0} (W : Type 0) (post : List Entry → A → Type 0) (ids : List Uuid)
    (j : List Entry) (run : Result A × Journal W) : Type 0 where
  pub entries : List Entry
  pub journal_eq : run.1.1 ≡ j ++ entries
  pub fresh : Fresh ids entries
  pub result : OnOk (post entries) run.0

-- the variables of the loop agree with the journal
abbrev Tracks : List Uuid → ℕ → List Entry → List Uuid × ℕ → Type 0
Tracks ids n es (ids', n') = (ids' ≡ gone ids es) × (n' ≡ n + removals es)

abbrev pub Counts : ℕ → List Entry → ℕ → Type 0
Counts n es n' = n' ≡ n + removals es

or_false : (a b : Bool) → (a || b) ≡ false → (a ≡ false) × (b ≡ false)
or_false true b h = cc
or_false false b h = (refl, h)

module _ {W : Type 0} (float : ScoreOps) (st : MemoryStore W) where
  nothing-Adds :
      (ids : List Uuid) (n : ℕ) (w : W) (j : List Entry)
      → Adds W (Tracks ids n) ids j (ok (ids, n), (w, j))
  nothing-Adds ids n w j = record {
    entries = [];
    journal_eq = sym (append-nil j);
    fresh = tt;
    result = (refl, omega arith);
  }

  after_remove-Adds :
      (id : Uuid) (ids : List Uuid) (n : ℕ) (r : Result (Unit {0})) (w : W) (j : List Entry)
      → has ids id ≡ false
      → Adds W (Tracks ids n) ids j (
          continue
            (settle (λ _. true) (λ _. false) r)
            (λ b. pure (after_remove id ids n b))
            (w, j ++ record { id = id; removed = is_ok r } ∷ []))
  unfolding after_remove pure
  after_remove-Adds id ids n (ok u) w j h = record {
    entries = record { id = id; removed = true } ∷ [];
    journal_eq = refl;
    fresh = (h, tt);
    result = (refl, omega arith);
  }
  after_remove-Adds id ids n (err e) w j h = record {
    entries = record { id = id; removed = false } ∷ [];
    journal_eq = refl;
    fresh = (h, tt);
    result = (refl, omega arith);
  }
  after_remove-Adds id ids n panicked w j h = record {
    entries = record { id = id; removed = false } ∷ [];
    journal_eq = refl;
    fresh = (h, tt);
    result = tt;
  }

  after_update-Adds :
      (id : Uuid) (ids : List Uuid) (n : ℕ) (b : Bool) (w : W) (j : List Entry)
      → has ids id ≡ false
      → Adds W (Tracks ids n) ids j (after_update float (journaled st) id ids n b (w, j))
  unfolding after_update journaled attempt pure ◌>>=◌
  after_update-Adds id ids n false w j h = nothing-Adds ids n w j
  after_update-Adds id ids n true w j h =
      after_remove-Adds id ids n (st.remove id w).0 (st.remove id w).1 j h

  -- an entry that removes nothing stands before the others
  entry-Adds :
      (keep : Uuid) (ids : List Uuid) (n : ℕ) (j : List Entry)
      (run : Result (List Uuid × ℕ) × Journal W)
      → has ids keep ≡ false
      → Adds W (Tracks ids n) ids (j ++ record { id = keep; removed = false } ∷ []) run
      → Adds W (Tracks ids n) ids j run
  entry-Adds keep ids n j run h a = record {
    entries = record { id = keep; removed = false } ∷ a.entries;
    journal_eq = a.journal_eq ∙ append_assoc j _ a.entries;
    fresh = (h, a.fresh);
    result = OnOk-map (Tracks ids n a.entries) _ run.0 (λ v t. (t.0, omega (arith, t.1))) a.result;
  }

  chosen-kept :
      (ids : List Uuid) (p : Pair)
      → has ids p.id1 ≡ false
      → has ids p.id2 ≡ false
      → (has ids (choose float p).keep_id ≡ false) × (has ids (choose float p).delete_id ≡ false)
  unfolding choose
  chosen-kept ids p h1 h2 = ground arith

  after_updated-Adds :
      (keep id : Uuid) (ids : List Uuid) (n : ℕ) (r : Result (Unit {0})) (w : W) (j : List Entry)
      → has ids keep ≡ false
      → has ids id ≡ false
      → Adds W (Tracks ids n) ids j (
          continue
            (settle (λ _. true) (λ _. false) r)
            (after_update float (journaled st) id ids n)
            (w, j ++ record { id = keep; removed = false } ∷ []))
  after_updated-Adds keep id ids n (ok u) w j hk h =
      entry-Adds keep ids n j _ hk (after_update-Adds id ids n true w _ h)
  after_updated-Adds keep id ids n (err e) w j hk h =
      entry-Adds keep ids n j _ hk (after_update-Adds id ids n false w _ h)
  after_updated-Adds keep id ids n panicked w j hk h = record {
    entries = record { id = keep; removed = false } ∷ [];
    journal_eq = refl;
    fresh = (hk, tt);
    result = tt;
  }

  merge_pair-Adds :
      (p : Pair) (ids : List Uuid) (n : ℕ) (w : W) (j : List Entry)
      → Adds W (Tracks ids n) ids j (merge_pair float (journaled st) p ids n (w, j))
  unfolding merge_pair journaled attempt pure ◌>>=◌
  merge_pair-Adds p ids n w j = elim (Bool-cases (has ids p.id1 || has ids p.id2)) [
    | inl seen ↦ rw seen (nothing-Adds ids n w j)
    | inr unseen ↦
        let kept = or_false (has ids p.id1) (has ids p.id2) unseen in
        let ends = chosen-kept ids p kept.0 kept.1 in
        rw unseen (
          after_updated-Adds (choose float p).keep_id (choose float p).delete_id ids n _ _ j ends.0
            ends.1)
  ]

  pairs_after-Adds :
      (next : List Uuid × ℕ → Journal W → Result ℕ × Journal W) (ids : List Uuid) (n : ℕ)
      (j : List Entry) (r : Result (List Uuid × ℕ)) (s : Journal W)
      → Adds W (Tracks ids n) ids j (r, s)
      → ((v : List Uuid × ℕ) (s : Journal W) → Adds W (Counts v.1) v.0 s.1 (next v s))
      → Adds W (Counts n) ids j (continue r next s)
  pairs_after-Adds next ids n j (ok v) s a h =
      let b = h v s in
      record {
        entries = a.entries ++ b.entries;
        journal_eq =
            b.journal_eq
            ∙ ap (λ l. l ++ b.entries) a.journal_eq
            ∙ append_assoc j a.entries b.entries;
        fresh =
            Fresh-append ids a.entries b.entries a.fresh
              (subst (λ i. Fresh i b.entries) a.result.0 b.fresh);
        result =
            OnOk-map (Counts v.1 b.entries) _ (next v s).0
              (λ m e. omega (arith, e, a.result.1, removals-append a.entries b.entries)) b.result;
      }
  pairs_after-Adds next ids n j (err e) s a h = record {
    entries = a.entries;
    journal_eq = a.journal_eq;
    fresh = a.fresh;
    result = tt;
  }
  pairs_after-Adds next ids n j panicked s a h = record {
    entries = a.entries;
    journal_eq = a.journal_eq;
    fresh = a.fresh;
    result = tt;
  }

  -- The loop over the similar pairs, where the memories `ids` are gone already and `n` were merged,
  -- executes no statement on a memory that is gone or that it has removed before, whatever errors
  -- the statements return; it only adds to the journal, and the count that it returns is `n` and
  -- the number of memories that it removed.
  pub merge_pairs-Adds :
      (ps : List Pair) (ids : List Uuid) (n : ℕ) (s : Journal W)
      → Adds W (Counts n) ids s.1 (merge_pairs float (journaled st) ps ids n s)
  unfolding merge_pairs ◌>>=◌
  merge_pairs-Adds [] ids n (w, j) =
      unfold pure in
      record { entries = []; journal_eq = sym (append-nil j); fresh = tt; result = omega arith }
  merge_pairs-Adds (p ∷ ps) ids n (w, j) =
      pairs_after-Adds (λ v. merge_pairs float (journaled st) ps v.0 v.1) ids n j _ _
        (merge_pair-Adds p ids n w j) (λ v s. merge_pairs-Adds ps v.0 v.1 s)

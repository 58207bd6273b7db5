-- ===== src/Mcp/Client/Entries.antt =====
-- The entries of a client's maps: what its pending calls lead to, and what a step on one call changes.
use mathlib.Core.Path.{subst}
use capyclaw.Prelude.{
  ℕ, ◌+◌, ◌≤◌, ◌≡◌, ◌≢◌, refl, sym, ap, ◌∙◌, ◌⊎◌, inl, inr, arith, ℕ_eq, String, String_eq, ◌==◌,
  Bool, true, false, Bool-cases, none, some, List, [], ◌∷◌, Map, lookup, insert, delete,
  lookup-insert, lookup-insert_same, lookup-insert_other, lookup-delete_same, lookup-delete_other,
}
use capyclaw.Action.{ok, err, panicked}
use capyclaw.Mcp.Client.{
  Phase, sending, returned, CallState, Client, new_state, Response, begin_call,
}

-- the texts that were received under an identifier
pub data Received : List Response → String → String → Type 0 where
  here : (resp : Response) (log : List Response) → Received (resp ∷ log) resp.id resp.result
  there :
      {log : List Response} {id raw : String} (resp : Response)
      → Received log id raw
      → Received (resp ∷ log) id raw

-- a call has only results that were received under its own identifier
abbrev pub FromLog : List Response → String → CallState → Type 0
FromLog log id call =
    ((raw : String) → call.buffer ≡ some raw → Received log id raw)
    × ((raw : String) → call.phase ≡ returned (ok raw) → Received log id raw)

pub true-not-false : true ≡ false → ⊥
true-not-false = cc

pub none-not-some : {A : Type 0} {a : A} → none ≡ some a → ⊥
none-not-some = cc

abbrev raw_of : Phase → String
raw_of (returned (ok raw)) = raw
raw_of _ = ""

pub returned_same : {a b : String} → returned (ok a) ≡ returned (ok b) → a ≡ b
returned_same e = ap raw_of e

abbrev has_result : Phase → Bool
has_result (returned (ok raw)) = true
has_result _ = false

pub err-not-ok : {e a : String} → returned (err e) ≡ returned (ok a) → ⊥
err-not-ok h = true-not-false (sym (ap has_result h))

pub panic-not-ok : {a : String} → returned panicked ≡ returned (ok a) → ⊥
panic-not-ok h = true-not-false (sym (ap has_result h))

pub text_same : {a b : String} → some a ≡ some b → a ≡ b
text_same {a} e = ap (λ o. elim o [ none ↦ a | some x ↦ x ]) e

number_same : {m n : ℕ} → some m ≡ some n → m ≡ n
number_same {m} e = ap (λ o. elim o [ none ↦ m | some x ↦ x ]) e

pub some_same : {a b : CallState} → some a ≡ some b → a ≡ b
some_same {a} e = ap (λ o. elim o [ none ↦ a | some x ↦ x ]) e

module _ (number_text : ℕ → String) where
  pub record Sound (log : List Response) (c : Client) : Type 0 where
    -- a pending entry leads to the call of that number, whose channel is empty
    pub open_call :
        (id : String) (i : ℕ)
        → lookup id c.pending ≡ some i
        → (id ≡ number_text i)
          × (call : CallState) × (lookup i c.calls ≡ some call)
          × (call.buffer ≡ none)
    pub used : (i : ℕ) (call : CallState) → lookup i c.calls ≡ some call → i ≤ c.next_id
    pub answered :
        (i : ℕ) (call : CallState) → lookup i c.calls ≡ some call → FromLog log (number_text i) call

  pub new_state-Sound : Sound [] new_state
  unfolding lookup
  new_state-Sound = record {
    open_call = λ id i h. absurd (cc h);
    used = λ i call h. absurd (cc h);
    answered = λ i call h. absurd (cc h);
  }

  -- what a step does to the map of the pending calls, beside a call `i` that becomes `call`
  abbrev pub Leads : Map String ℕ → Map String ℕ → ℕ → CallState → Type 0
  Leads before after i call =
      (id : String) (j : ℕ)
      → lookup id after ≡ some j
      → ((j ≡ i) × (id ≡ number_text i) × (call.buffer ≡ none))
        ⊎ ((j ≢ i) × (lookup id before ≡ some j))

  found_other :
      (i j : ℕ) (call : CallState) (calls : Map ℕ CallState)
      → j ≢ i
      → lookup j (insert i call calls) ≡ lookup j calls
  found_other i j call calls other = ground (arith, lookup-insert i j call calls, other)

  found_same :
      (i : ℕ) (call : CallState) (calls : Map ℕ CallState)
      → lookup i (insert i call calls) ≡ some call
  found_same i call calls = ground (arith, lookup-insert i i call calls)

  found_cases :
      (i j : ℕ) (call found : CallState) (calls : Map ℕ CallState)
      → lookup j (insert i call calls) ≡ some found
      → ((j ≡ i) × (call ≡ found)) ⊎ ((j ≢ i) × (lookup j calls ≡ some found))
  found_cases i j call found calls h = elim (Bool-cases (i == j)) [
    | inl same ↦ inl (
      sym ((ℕ_eq.same_iff i j).0 same),
      some_same (
          sym (found_same i call calls)
          ∙ subst (λ k. lookup k (insert i call calls) ≡ some found)
              (sym ((ℕ_eq.same_iff i j).0 same)) h),
    )
    | inr other ↦
        let apart : j ≢ i = λ e. true-not-false (sym ((ℕ_eq.same_iff i j).1 (sym e)) ∙ other) in
        inr (apart, sym (found_other i j call calls apart) ∙ h)
  ]

  pub update-Sound :
      (log log' : List Response) (c : Client) (next : ℕ) (pending : Map String ℕ) (i : ℕ)
      (call : CallState)
      → Sound log c
      → ((id raw : String) → Received log id raw → Received log' id raw)
      → c.next_id ≤ next
      → i ≤ next
      → Leads c.pending pending i call
      → FromLog log' (number_text i) call
      → Sound log' (record { next_id = next; pending = pending; calls = insert i call c.calls })
  update-Sound log log' c next pending i call s grows more within leads results = record {
    open_call = λ id j h. elim (leads id j h) [
      | inl (same, name, empty) ↦ (
        name ∙ ap number_text (sym same),
        call,
        subst (λ k. lookup k (insert i call c.calls) ≡ some call) (sym same)
            (found_same i call c.calls),
        empty,
      )
      | inr (other, before) ↦
          let (name, old, found, empty) = s.open_call id j before in
          (name, old, found_other i j call c.calls other ∙ found, empty)
    ];
    used = λ j found h. elim (found_cases i j call found c.calls h) [
      | inl (same, _) ↦ omega (arith, same, within)
      | inr (_, before) ↦ omega (arith, more, s.used j found before)
    ];
    answered = λ j found h. elim (found_cases i j call found c.calls h) [
      | inl (same, e) ↦
          subst (λ k. FromLog log' (number_text k) found) (sym same)
            (subst (FromLog log' (number_text i)) e results)
      | inr (_, before) ↦
          let (held, given) = s.answered j found before in
          ((λ raw e. grows _ raw (held raw e)), (λ raw e. grows _ raw (given raw e)))
    ];
  }

  pub kept : {log : List Response} (id raw : String) → Received log id raw → Received log id raw
  kept id raw r = r

  pub begin_call-Sound :
      (log : List Response) (c : Client) → Sound log c → Sound log (begin_call number_text c)
  unfolding begin_call
  begin_call-Sound log c s =
      update-Sound log log c (c.next_id + 1) _ (c.next_id + 1) _ s kept (omega arith) (omega arith)
        (λ id j h. begun id j h) ((λ raw e. absurd (cc e)), (λ raw e. absurd (cc e)))
    where
      begun :
          Leads c.pending
            (insert (number_text (c.next_id + 1)) (c.next_id + 1) c.pending)
            (c.next_id + 1)
            (record { phase = sending; buffer = none })
      begun id j h = elim (Bool-cases (number_text (c.next_id + 1) == id)) [
        | inl same ↦ inl (
          number_same (
              sym h
              ∙ lookup-insert_same (number_text (c.next_id + 1)) id (c.next_id + 1) c.pending same),
          sym ((String_eq.same_iff (number_text (c.next_id + 1)) id).0 same),
          refl,
        )
        | inr other ↦
            let before =
              sym (
                lookup-insert_other (number_text (c.next_id + 1)) id (c.next_id + 1) c.pending
                  other)
              ∙ h in
            let (_, call, found, _) = s.open_call id j before in
            inr ((λ e. ground (arith, s.used j call found, e)), before)
      ]

  -- the pending calls that are left lead to where they led, except for a call that is deleted
  pub left_over :
      (log : List Response) (c : Client) (i : ℕ) (call : CallState)
      → Sound log c
      → Leads c.pending (delete (number_text i) c.pending) i call
  left_over log c i call s id j h = elim (Bool-cases (number_text i == id)) [
    | inl gone ↦
        absurd (none-not-some (sym (lookup-delete_same (number_text i) id c.pending gone) ∙ h))
    | inr other ↦
        let before = sym (lookup-delete_other (number_text i) id c.pending other) ∙ h in
        let (name, _, _, _) = s.open_call id j before in
        let apart : j ≢ i = λ e. true-not-false (
          sym ((String_eq.same_iff (number_text i) id).1 (ap number_text (sym e) ∙ sym name))
          ∙ other) in
        inr (apart, before)
  ]

  -- a step that leaves the pending calls as they are, and does not fill the channel
  pub untouched :
      (log : List Response) (c : Client) (i : ℕ) (old call : CallState)
      → Sound log c
      → lookup i c.calls ≡ some old
      → (old.buffer ≡ none → call.buffer ≡ none)
      → Leads c.pending c.pending i call
  untouched log c i old call s found empty id j h = elim (Bool-cases (i == j)) [
    | inl same ↦
        let e = (ℕ_eq.same_iff i j).0 same in
        let (name, entry, at, none_there) = s.open_call id j h in
        let old_eq =
          some_same (sym found ∙ subst (λ k. lookup k c.calls ≡ some entry) (sym e) at) in
        inl (
          sym e,
          name ∙ ap number_text (sym e),
          empty (ap (λ (x : CallState). x.buffer) old_eq ∙ none_there),
        )
    | inr other ↦
        let apart : j ≢ i = λ e. true-not-false (sym ((ℕ_eq.same_iff i j).1 (sym e)) ∙ other) in
        inr (apart, h)
  ]

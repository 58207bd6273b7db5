-- ===== src/Mcp/Client/Reach.antt =====
-- The states of a client that its calls and its loop can bring about, in any order.
use mathlib.Core.Path.{subst}
use capyclaw.Prelude.{
  ℕ, ◌≡◌, ◌≢◌, refl, sym, ap, inl, inr, arith, ℕ_eq, String, String_eq, ◌==◌, true, false,
  Bool-cases, none, some, Option-cases, List, [], ◌∷◌, lookup, delete,
}
use capyclaw.Action.{Result, ok, err, panicked}
use capyclaw.Mcp.Client.{
  sending, waiting, returned, CallState, Client, new_state, Response, Delivery, delivered, blocked,
  begin_call, refuse_call, after_send, cancel_call, take_result, put_result, deliver_to, receive,
}
use capyclaw.Mcp.Client.Entries.{
  Received, here, there, text_same, returned_same, err-not-ok, panic-not-ok, none-not-some,
  true-not-false, Sound, new_state-Sound, begin_call-Sound, update-Sound, left_over, untouched,
  kept, Leads,
}

module _ (number_text : ℕ → String) where
  module _ (log : List Response) (c : Client) (s : Sound number_text log c) (i : ℕ)
      (call : CallState) (found : lookup i c.calls ≡ some call) where
    after_send-Sound :
        (r : Result (Unit {0})) → Sound number_text log (after_send number_text i call r c)
    unfolding after_send
    after_send-Sound (ok _) =
        update-Sound number_text log log c c.next_id c.pending i (record call { phase = waiting }) s
          (kept number_text) (omega arith) (s.used i call found)
          (untouched number_text log c i call (record call { phase = waiting }) s found (λ e. e))
          ((s.answered i call found).0, (λ raw e. absurd (cc e)))
    after_send-Sound (err m) =
        update-Sound number_text log log c c.next_id _ i (record call { phase = returned (err m) })
          s (kept number_text) (omega arith) (s.used i call found)
          (left_over number_text log c i (record call { phase = returned (err m) }) s)
          ((s.answered i call found).0, (λ raw e. absurd (err-not-ok e)))
    after_send-Sound panicked =
        update-Sound number_text log log c c.next_id c.pending i
          (record call { phase = returned panicked }) s (kept number_text) (omega arith)
          (s.used i call found)
          (untouched number_text log c i call (record call { phase = returned panicked }) s found
            (λ e. e))
          ((s.answered i call found).0, (λ raw e. absurd (panic-not-ok e)))

    cancel_call-Sound :
        (reason : String) → Sound number_text log (cancel_call number_text i call reason c)
    unfolding cancel_call
    cancel_call-Sound reason =
        update-Sound number_text log log c c.next_id _ i
          (record call { phase = returned (err reason) }) s (kept number_text) (omega arith)
          (s.used i call found)
          (left_over number_text log c i (record call { phase = returned (err reason) }) s)
          ((s.answered i call found).0, (λ raw e. absurd (err-not-ok e)))

    take_result-Sound :
        (raw : String)
        → call.buffer ≡ some raw
        → Sound number_text log (take_result number_text i call raw c)
    unfolding take_result
    take_result-Sound raw held =
        update-Sound number_text log log c c.next_id c.pending i
          (record call { phase = returned (ok raw); buffer = none }) s (kept number_text)
          (omega arith) (s.used i call found)
          (untouched number_text log c i call
            (record call { phase = returned (ok raw); buffer = none }) s found (λ e. refl))
          (
            (λ other e. absurd (none-not-some e)),
            (λ other e.
                subst (Received log (number_text i)) (returned_same e)
                  ((s.answered i call found).0 raw held)),
          )

  -- a delivery goes on, in a sound state, and its text is a result of the call alone whose number its
  -- identifier is
  data Goes (log : List Response) : Delivery → Type 0 where
    on : (c : Client) → Sound number_text log c → Goes log (delivered c)

  grown :
      (resp : Response) (log : List Response) (c : Client)
      → Sound number_text log c
      → Sound number_text (resp ∷ log) c
  grown resp log c s = record {
    open_call = s.open_call;
    used = s.used;
    answered = λ i call h.
        let (held, given) = s.answered i call h in
        ((λ raw e. there resp (held raw e)), (λ raw e. there resp (given raw e)));
  }

  deliver_to-Goes :
      (resp : Response) (log : List Response) (c : Client)
      → Sound number_text log c
      → Goes (resp ∷ log) (deliver_to number_text (lookup resp.id c.pending) resp c)
  unfolding deliver_to put_result
  deliver_to-Goes resp log c s = elim (Option-cases (lookup resp.id c.pending)) [
    | inl unknown ↦ rw unknown (Goes.on c (grown resp log c s))
    | inr (i, known) ↦
        let (name, call, found, empty) = s.open_call resp.id i known in
        rw (known, deliver_to, found, put_result, empty)
          (Goes.on _ (
            update-Sound number_text log (resp ∷ log) c c.next_id _ i
              (record call { buffer = some resp.result }) s (λ id raw held. there resp held)
              (omega arith) (s.used i call found)
              (subst
                (λ id.
                  Leads number_text c.pending (delete id c.pending) i
                    (record call { buffer = some resp.result }))
                (sym name)
                (left_over number_text log c i (record call { buffer = some resp.result }) s))
              (
                (λ raw e.
                    subst (λ id. Received (resp ∷ log) id raw) name
                      (subst (Received (resp ∷ log) resp.id) (text_same e) (here resp log))),
                (λ raw e. there resp ((s.answered i call found).1 raw e)),
              )))
  ]

  receive-Goes :
      (resp : Response) (log : List Response) (c : Client)
      → Sound number_text log c
      → Goes (resp ∷ log) (receive number_text (some resp) c)
  unfolding receive
  receive-Goes resp log c s = elim (Bool-cases (resp.id == "")) [
    | inl nameless ↦ rw nameless (Goes.on c (grown resp log c s))
    | inr named ↦ rw named (deliver_to-Goes resp log c s)
  ]

  Goes-Sound :
      (log : List Response) (c : Client) (d : Delivery)
      → Goes log d
      → d ≡ delivered c
      → Sound number_text log c
  Goes-Sound log c _ (Goes.on c' s) e =
      subst (Sound number_text log) (ap (λ d. elim d [ delivered x ↦ x | blocked ↦ c' ]) e) s

  Goes-not_blocked : (log : List Response) (d : Delivery) → Goes log d → d ≢ blocked
  Goes-not_blocked log _ (Goes.on c s) e =
      true-not-false (ap (λ d. elim d [ delivered _ ↦ true | blocked ↦ false ]) e)

  refuse_call-Sound :
      (log : List Response) (c : Client)
      → Sound number_text log c
      → Sound number_text log (refuse_call c)
  unfolding refuse_call
  refuse_call-Sound log c s = record {
    open_call = s.open_call;
    used = λ i call h. let u = s.used i call h in omega arith;
    answered = s.answered;
  }

  -- the responses that were received so far, the latest first, and the client
  pub data Reach : List Response → Client → Type 0 where
    start : Reach [] new_state
    began : (log : List Response) (c : Client) → Reach log c → Reach log (begin_call number_text c)
    refused : (log : List Response) (c : Client) → Reach log c → Reach log (refuse_call c)
    sent :
        (log : List Response) (c : Client) (i : ℕ) (call : CallState) (r : Result (Unit {0}))
        → lookup i c.calls ≡ some call
        → call.phase ≡ sending
        → Reach log c
        → Reach log (after_send number_text i call r c)
    cancelled :
        (log : List Response) (c : Client) (i : ℕ) (call : CallState) (reason : String)
        → lookup i c.calls ≡ some call
        → call.phase ≡ waiting
        → Reach log c
        → Reach log (cancel_call number_text i call reason c)
    taken :
        (log : List Response) (c : Client) (i : ℕ) (call : CallState) (raw : String)
        → lookup i c.calls ≡ some call
        → call.phase ≡ waiting
        → call.buffer ≡ some raw
        → Reach log c
        → Reach log (take_result number_text i call raw c)
    received :
        (log : List Response) (c c' : Client) (resp : Response)
        → receive number_text (some resp) c ≡ delivered c'
        → Reach log c
        → Reach (resp ∷ log) c'

  Reach-Sound : (log : List Response) (c : Client) → Reach log c → Sound number_text log c
  Reach-Sound _ _ Reach.start = new_state-Sound number_text
  Reach-Sound _ _ (Reach.began log c r) = begin_call-Sound number_text log c (Reach-Sound log c r)
  Reach-Sound _ _ (Reach.refused log c r) = refuse_call-Sound log c (Reach-Sound log c r)
  Reach-Sound _ _ (Reach.sent log c i call r found _ before) =
      after_send-Sound log c (Reach-Sound log c before) i call found r
  Reach-Sound _ _ (Reach.cancelled log c i call reason found _ before) =
      cancel_call-Sound log c (Reach-Sound log c before) i call found reason
  Reach-Sound _ _ (Reach.taken log c i call raw found _ held before) =
      take_result-Sound log c (Reach-Sound log c before) i call found raw held
  Reach-Sound _ _ (Reach.received log c c' resp e before) =
      Goes-Sound (resp ∷ log) c' _ (receive-Goes resp log c (Reach-Sound log c before)) e

  -- the loop can go on, and a call came back only with what was received under its identifier
  pub record Correlated (log : List Response) (c : Client) : Type 0 where
    pub goes_on : (resp : Response) → receive number_text (some resp) c ≢ blocked
    pub own :
        (i : ℕ) (call : CallState) (raw : String)
        → lookup i c.calls ≡ some call
        → call.phase ≡ returned (ok raw)
        → Received log (number_text i) raw

  -- In every state that calls, their sends, cancellations and ends, and received messages can bring
  -- about, in any order, the loop does not wait at a call's channel, whatever message comes next, and
  -- every call that came back with a result came back with one that was received under its own number.
  pub Reach-Correlated : (log : List Response) (c : Client) → Reach log c → Correlated log c
  Reach-Correlated log c r =
      let s = Reach-Sound log c r in
      record {
        goes_on = λ resp. Goes-not_blocked (resp ∷ log) _ (receive-Goes resp log c s);
        own = λ i call raw found back. (s.answered i call found).1 raw back;
      }

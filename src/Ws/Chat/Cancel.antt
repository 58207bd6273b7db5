-- ===== src/Ws/Chat/Cancel.antt =====
-- What a chat.cancel does to the streams that are tracked.
use mathlib.Core.Path.{subst}
use capyclaw.Prelude.{
  ℕ, String, String_eq, ◌==◌, ==_refl, ◌≡◌, ◌≢◌, refl, sym, ap, ◌+◌, ◌∙◌, Option, none, some, List,
  [], ◌∷◌, Map, lookup, delete, lookup-delete, true, Bool-cases, inl, inr,
}
use capyclaw.Action.{Result, ok, modify, ◌>>=◌}
use capyclaw.Ws.Hub.{ClientRef, Sockets, send}
use capyclaw.Ws.Protocol.{Frame, Payload, frame_type_response}
use capyclaw.Ws.Client.{Gateway, on_sockets, send_frame, send_response, send_result}
use capyclaw.Ws.Chat.{Handler, track_stream, end_chat, cancel_context, cancel_found, cancel_key}

abbrev pub result_frame : String → List (String × String) → Frame
result_frame id pairs = Frame.response (record {
  kind = frame_type_response;
  id = id;
  ok = true;
  payload = some (Payload.fields pairs);
  error = none;
})

-- an action of the handler that does to the sockets what an action on the sockets does
pub record Agree {W M : Type 0} (r : Result (Unit {0}) × Gateway W M)
    (k : Result (Unit {0}) × Sockets M) : Type 0 where
  pub result_eq : r.0 ≡ k.0
  pub sockets_eq : r.1.sockets ≡ k.1

-- the status that is answered, and the contexts that are cancelled
abbrev pub cancel_status : Option ℕ → String
cancel_status none = "no_active_stream"
cancel_status (some n) = "cancelled"

abbrev pub cancel_contexts : Option ℕ → List ℕ → List ℕ
cancel_contexts none ns = ns
cancel_contexts (some n) ns = n ∷ ns

-- a key that is deleted is gone, and the others are left
lookup-delete_self : (key : String) (m : Map String ℕ) → lookup key (delete key m) ≡ none
lookup-delete_self key m = rw (lookup-delete key key m) (rw (==_refl key))

lookup-delete_other :
    (key k : String) (m : Map String ℕ) → k ≢ key → lookup k (delete key m) ≡ lookup k m
lookup-delete_other key k m ne = rw (lookup-delete key k m) (elim (Bool-cases (key == k)) [
  | inl same ↦ absurd (ne (sym ((String_eq.same_iff key k).0 same)))
  | inr other ↦ rw other
])

module _ {W M : Type 0} (h : Handler W M) (c : ClientRef) (id : String) where
  -- what `cancel_found` does to a state
  record Answers (s : Gateway W M) (found : Option ℕ) : Type 0 where
    cancelled_eq : (cancel_found h c id found s).1.cancelled ≡ cancel_contexts found s.cancelled
    streams_eq : (cancel_found h c id found s).1.active_streams ≡ s.active_streams
    agree :
        Agree (cancel_found h c id found s) (
          send c (h.json.encode (result_frame id (("status", cancel_status found) ∷ []))) s.sockets)

  cancel_found-Answers : (s : Gateway W M) (found : Option ℕ) → Answers s found
  unfolding cancel_found cancel_context modify send_result send_response send_frame on_sockets ◌>>=◌
  cancel_found-Answers s none = record {
    cancelled_eq = refl;
    streams_eq = refl;
    agree = record { result_eq = refl; sockets_eq = refl };
  }
  cancel_found-Answers s (some n) = record {
    cancelled_eq = refl;
    streams_eq = refl;
    agree = record { result_eq = refl; sockets_eq = refl };
  }

  -- what a cancel of `key` does to a state
  pub record Cancels (key : String) (s : Gateway W M) : Type 0 where
    pub cancelled_eq :
        (cancel_key h c id key s).1.cancelled
        ≡ cancel_contexts (lookup key s.active_streams) s.cancelled
    pub forgotten : lookup key (cancel_key h c id key s).1.active_streams ≡ none
    pub others :
        (k : String)
        → k ≢ key
        → lookup k (cancel_key h c id key s).1.active_streams ≡ lookup k s.active_streams
    pub answer : Agree (cancel_key h c id key s) (
        send c
          (h.json.encode
            (result_frame id (("status", cancel_status (lookup key s.active_streams)) ∷ [])))
          s.sockets)

  -- A cancel with a stream's key cancels the context that was stored last under the key and
  -- answers "cancelled", or cancels nothing and answers "no_active_stream" if there is none;
  -- the key is forgotten, and the streams of the other keys are left as they were.
  pub cancel_key-Cancels : (key : String) (s : Gateway W M) → Cancels key s
  unfolding cancel_key
  cancel_key-Cancels key s =
      let t = record s { active_streams = delete key s.active_streams } in
      let done = cancel_found-Answers t (lookup key s.active_streams) in
      record {
        cancelled_eq = done.cancelled_eq;
        forgotten = ap (lookup key) done.streams_eq ∙ lookup-delete_self key s.active_streams;
        others =
            λ k ne. ap (lookup k) done.streams_eq ∙ lookup-delete_other key k s.active_streams ne;
        answer = done.agree;
      }

  -- two streams with one key, of which the first has ended
  abbrev pub overlapped : String → Gateway W M → Gateway W M
  overlapped key s = (end_chat key (track_stream key (track_stream key s).1).1).1

  pub record NotCancelled (key : String) (s : Gateway W M) : Type 0 where
    pub running : (track_stream key (track_stream key s).1).0 ≡ ok (s.contexts + 1)
    pub cancelled_eq : (cancel_key h c id key (overlapped key s)).1.cancelled ≡ s.cancelled
    pub answer :
        Agree
          (cancel_key h c id key (overlapped key s))
          (send c (h.json.encode (result_frame id (("status", "no_active_stream") ∷ []))) s.sockets)

  overlapped-none :
      (key : String) (s : Gateway W M) → lookup key (overlapped key s).active_streams ≡ none
  unfolding end_chat modify
  overlapped-none key s =
      lookup-delete_self key (track_stream key (track_stream key s).1).1.active_streams

  -- Of two chats with one key, the end of the first makes the second one impossible to cancel.
  pub cancel_key-overlap : (key : String) (s : Gateway W M) → NotCancelled key s
  cancel_key-overlap key s =
      let cancel = cancel_key-Cancels key (overlapped key s) in
      let gone = overlapped-none key s in
      unfold track_stream end_chat modify in
      record {
        running = refl;
        cancelled_eq = cancel.cancelled_eq ∙ ap (λ o. cancel_contexts o s.cancelled) gone;
        answer =
            subst
              (λ o. Agree (cancel_key h c id key (overlapped key s)) (
                send c (h.json.encode (result_frame id (("status", cancel_status o) ∷ [])))
                  s.sockets))
              gone cancel.answer;
      }

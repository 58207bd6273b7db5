-- ===== src/Burrow/Stages/SessionPersister/Survives.antt =====
-- SessionPersister never fails a run, whatever the repositories answer.
use capyclaw.Prelude.{
  ◌≡◌, refl, ◌⊎◌, inl, inr, Bool, true, false, Option, none, some, List, [], ◌∷◌, if◌then◌else◌,
}
use capyclaw.Action.{Result, ok, err, panicked, Action, pure, attempt, settle, continue, ◌>>=◌}
use capyclaw.Llm
use capyclaw.Burrow.Types.{Session, PipelineRequest}
use capyclaw.Burrow.Deps.{
  StoredMessage, SessionRepository, MessageRepository, ExtractionInput, PipelineDeps, State,
  outside,
}
use capyclaw.Burrow.Stages.SessionPersister.{
  logged, append_all, update_counts, extract, persist_with, persist, to_store,
}

-- the value `a`, or a panic, and no error
abbrev pub Survives : {A : Type 0} → A → Result A → Type 0
Survives a r = (r ≡ ok a) ⊎ (r ≡ panicked)

ok_inj : {A : Type 0} {a b : A} → ok a ≡ ok b → a ≡ b
ok_inj e = cc

module _ {S A B : Type 0} where
  Survives-continue :
      (a : A) (b : B) (r : Result A) (f : A → Action S B) (s : S)
      → Survives a r
      → ((s : S) → Survives b (f a s).0)
      → Survives b (continue r f s).0
  Survives-continue a b (ok x) f s (inl e) h = let same : x ≡ a = ok_inj e in rw same (h s)
  Survives-continue a b (ok x) f s (inr e) h = cc
  Survives-continue a b (err x) f s (inl e) h = cc
  Survives-continue a b (err x) f s (inr e) h = cc
  Survives-continue a b panicked f s e h = inr refl

  Survives-bind :
      (a : A) (b : B) (m : Action S A) (f : A → Action S B) (s : S)
      → Survives a (m s).0
      → ((s : S) → Survives b (f a s).0)
      → Survives b ((m >>= f) s).0
  unfolding ◌>>=◌
  Survives-bind a b m f s e h = Survives-continue a b (m s).0 f (m s).1 e h

settle-Survives : (r : Result (Unit {0})) → Survives tt (settle (λ u. u) (λ _. tt) r)
settle-Survives (ok tt) = inl refl
settle-Survives (err _) = inl refl
settle-Survives panicked = inr refl

module _ {W : Type 0} (d : PipelineDeps W) (req : PipelineRequest) where
  logged-Survives : (m : Action W (Unit {0})) (s : State W) → Survives tt (logged d req m s).0
  unfolding logged attempt
  logged-Survives m s = settle-Survives (outside m s).0

  append_all-Survives :
      (repo : MessageRepository W) (ms : List StoredMessage) (s : State W)
      → Survives tt (append_all d req repo ms s).0
  unfolding append_all pure
  append_all-Survives repo [] s = inl refl
  append_all-Survives repo (m ∷ ms) s =
      Survives-bind tt tt (logged d req (repo.append m)) _ s (logged-Survives (repo.append m) s)
        (append_all-Survives repo ms)

  update_counts-Survives :
      (repo : Option (SessionRepository W)) (u : Option Llm.Usage) (session : Session) (s : State W)
      → Survives tt (update_counts d req repo u session s).0
  unfolding update_counts pure
  update_counts-Survives (some repo) (some u) session s = logged-Survives _ s
  update_counts-Survives (some repo) none session s = inl refl
  update_counts-Survives none u session s = inl refl

  if-Survives :
      (b : Bool) (m : Action W (Unit {0})) (s : State W)
      → Survives tt ((if b then pure tt else logged d req m) s).0
  unfolding pure
  if-Survives true m s = inl refl
  if-Survives false m s = logged-Survives m s

  extract-Survives :
      (o : Option (ExtractionInput → Action W (Unit {0}))) (session : Session) (s : State W)
      → Survives tt (extract d req o session s).0
  unfolding extract pure
  extract-Survives none session s = inl refl
  extract-Survives (some x) session s = if-Survives _ _ s

  persist_with-Survives :
      (o : Option (MessageRepository W)) (session : Option Session) (s : State W)
      → Survives req (persist_with d req o session s).0
  unfolding persist_with pure
  persist_with-Survives (some repo) (some session) s =
      Survives-bind tt req _ _ s (append_all-Survives repo (to_store d req session) s) (λ s.
        Survives-bind tt req _ _ s (update_counts-Survives d.session_repo req.usage session s) (λ s.
          Survives-bind tt req _ _ s (extract-Survives d.extract_async session s) (λ s. inl refl)))
  persist_with-Survives (some repo) none s = inl refl
  persist_with-Survives none session s = inl refl

  -- SessionPersister hands its request on unchanged, whatever errors the repositories and the
  -- extractor return; only a panic of one of them stops it.
  pub persist-Survives : (s : State W) → Survives req (persist d req s).0
  unfolding persist
  persist-Survives s = persist_with-Survives d.message_repo req.session s

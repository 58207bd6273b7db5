-- ===== src/Riverbank/Pairing/Approval.antt =====
-- A device is told of its approval only after it was approved.
use mathlib.Core.Path.{subst}
use capyclaw.Prelude.{
  ◌≡◌, ◌≢◌, refl, sym, ap, ◌∙◌, ◌⊎◌, inl, inr, String, String_eq, ◌==◌, ==_refl, ◌&&◌, Bool, true,
  false, Bool-cases, Option, none, some, List, [], ◌∷◌, Map, lookup, insert, lookup-insert_same,
  if◌then◌else◌,
}
use capyclaw.Riverbank.Errors.{Reply}
use capyclaw.Riverbank.Pairing.{
  Redis, CodeRequest, ApproveRequest, text_at, pair_key, user_key, pairing_of, is_loopback,
  store_pairing, new_pairing, handle_device_code, token_reply, token_for, handle_device_token,
  approve_pairing, approve_device, fields, set_status, handle_device_approve,
}

abbrev pub In : String → List String → Type 0
In k [] = ⊥
In k (x ∷ xs) = (x ≡ k) ⊎ In k xs

-- What the handlers rely on: GET gives what a key holds; after SET a key holds what it held or what was
-- set under it, or nothing; after DEL and GET it holds what it held, or nothing, since a key can expire
-- and a command can fail. The status of a map is read back from the map's text.
pub record RedisLaws {W : Type 0} (redis : Redis W) : Type 0 where
  pub held : W → String → Option String
  pub get_held : (k : String) (w : W) (v : String) → (redis.get k w).0 ≡ some v → held w k ≡ some v
  pub after_get :
      (k : String) (w : W) (k' v : String) → held (redis.get k w).1 k' ≡ some v → held w k' ≡ some v
  pub after_set :
      (k t : String) (w : W) (k' v : String)
      → held (redis.set k t w) k' ≡ some v
      → ((k ≡ k') × (t ≡ v)) ⊎ (held w k' ≡ some v)
  pub after_del :
      (k : String) (w : W) (k' v : String) → held (redis.del k w) k' ≡ some v → held w k' ≡ some v
  pub status_read :
      (m : Map String String)
      → text_at "status" (fields (redis.decode (redis.encode m))) ≡ text_at "status" m

-- the answer says that the device is approved
abbrev pub says_approved : Reply → Bool
says_approved (Reply.json status fields) = text_at "status" fields == "approved"
says_approved (Reply.failed status e) = false

module _ {W : Type 0} (redis : Redis W) (laws : RedisLaws redis) where
  -- the keys of the pairings that were approved: that of a new device on the same machine, and that to
  -- which the user code of an approval leads
  abbrev pub log_code : Bool → String → String → List String → List String
  log_code allowed ip device_code log =
      if allowed && is_loopback ip then pair_key device_code ∷ log else log

  abbrev pub log_approval : String → Option String → List String → List String
  log_approval action none log = log
  log_approval action (some device_code) log =
      if action == "approve" then pair_key device_code ∷ log else log

  abbrev Sub : W → W → Type 0
  Sub w w' = (k v : String) → laws.held w' k ≡ some v → laws.held w k ≡ some v

  -- the states that requests bring about, in any order, while keys expire at any time; a new device code
  -- is a text that is not a JSON object
  pub data Reach : List String → W → Type 0 where
    start : (w : W) → ((k v : String) → laws.held w k ≢ some v) → Reach [] w
    expired : (log : List String) (w w' : W) → Sub w w' → Reach log w → Reach log w'
    coded :
        (log : List String) (w : W) (allowed : Bool) (ip device_code user_code : String)
        (req : CodeRequest)
        → text_at "status" (fields (redis.decode device_code)) ≡ ""
        → Reach log w
        → Reach
            (log_code allowed ip device_code log)
            (handle_device_code (some redis) allowed ip device_code user_code (some req) w).1
    asked :
        (log : List String) (w : W) (device_code : String)
        → Reach log w
        → Reach log (handle_device_token (some redis) (some device_code) w).1
    answered :
        (log : List String) (w : W) (req : ApproveRequest)
        → Reach log w
        → Reach
            (log_approval req.action (redis.get (user_key req.user_code) w).0 log)
            (handle_device_approve (some redis) (some req) w).1

  -- a key that holds an approved pairing is that of one that was approved
  abbrev Sound : List String → W → Type 0
  Sound log w =
      (k v : String)
      → laws.held w k ≡ some v
      → text_at "status" (fields (redis.decode v)) ≡ "approved"
      → In k log

  Sound-Sub : (log : List String) (w w' : W) → Sub w w' → Sound log w → Sound log w'
  Sound-Sub log w w' sub s k v h a = s k v (sub k v h) a

  Sound-more : (log : List String) (w : W) (x : String) → Sound log w → Sound (x ∷ log) w
  Sound-more log w x s k v h a = inr (s k v h a)

  Sound-set :
      (log : List String) (w : W) (k t : String)
      → (text_at "status" (fields (redis.decode t)) ≡ "approved" → In k log)
      → Sound log w
      → Sound log (redis.set k t w)
  Sound-set log w k t into s k' v h a = elim (laws.after_set k t w k' v h) [
    | inl (same, set) ↦
        subst (λ x. In x log) same
          (into (subst (λ x. text_at "status" (fields (redis.decode x)) ≡ "approved") (sym set) a))
    | inr before ↦ s k' v before a
  ]

  other_status :
      (k t : String) (log : List String) → (t == "approved") ≡ false → t ≡ "approved" → In k log
  other_status k t log other e =
      let h = subst (λ x. (x == "approved") ≡ false) e other in elim (absurd h) [ ]
    where
      absurd : true ≡ false → ⊥
      absurd h = cc

  -- a map whose status is another is no approval
  Sound-other :
      (log : List String) (w : W) (k : String) (m : Map String String)
      → (text_at "status" m == "approved") ≡ false
      → Sound log w
      → Sound log (redis.set k (redis.encode m) w)
  Sound-other log w k m other s =
      Sound-set log w k _ (λ a. other_status k _ log other (sym (laws.status_read m) ∙ a)) s

  store_pairing-Sound :
      (log : List String) (w : W) (device_code user_code : String) (req : CodeRequest)
      → text_at "status" (fields (redis.decode device_code)) ≡ ""
      → Sound log w
      → Sound log (store_pairing redis device_code user_code req w)
  unfolding lookup
  store_pairing-Sound log w device_code user_code req plain s =
      Sound-set log _ _ device_code (λ a. other_status _ "" log refl (sym plain ∙ a))
        (Sound-other log w _ (pairing_of device_code user_code req "pending") refl s)

  new_pairing-Sound :
      (log : List String) (w : W) (allowed : Bool) (ip device_code user_code : String)
      (req : CodeRequest)
      → text_at "status" (fields (redis.decode device_code)) ≡ ""
      → Sound log w
      → Sound
          (log_code allowed ip device_code log)
          (new_pairing (some redis) (allowed && is_loopback ip) device_code user_code req w).1
  unfolding new_pairing
  new_pairing-Sound log w allowed ip device_code user_code req plain s =
      elim (Bool-cases (allowed && is_loopback ip)) [
        | inl auto ↦ rw auto (
            Sound-set (pair_key device_code ∷ log) _ (pair_key device_code) _ (λ a. inl refl)
              (Sound-more log _ (pair_key device_code)
                (store_pairing-Sound log w device_code user_code req plain s)))
        | inr asks ↦ rw asks (store_pairing-Sound log w device_code user_code req plain s)
      ]

  handle_device_code-Sound :
      (log : List String) (w : W) (allowed : Bool) (ip device_code user_code : String)
      (req : CodeRequest)
      → text_at "status" (fields (redis.decode device_code)) ≡ ""
      → Sound log w
      → Sound
          (log_code allowed ip device_code log)
          (handle_device_code (some redis) allowed ip device_code user_code (some req) w).1
  unfolding handle_device_code
  handle_device_code-Sound log w allowed ip device_code user_code req plain s =
      elim (Bool-cases (req.device_name == "")) [
        | inl unnamed ↦ rw unnamed (elim (Bool-cases (allowed && is_loopback ip)) [
          | inl auto ↦ rw auto (Sound-more log w _ s)
          | inr asks ↦ rw asks s
        ])
        | inr named ↦
            rw named (new_pairing-Sound log w allowed ip device_code user_code req plain s)
      ]

  -- an answer to the poll of a device: it adds nothing, and says that the device is approved only for an
  -- approved pairing
  abbrev Polled : Map String String → W → Reply × W → Type 0
  Polled m w x = Sub w x.1 × (says_approved x.0 ≡ true → text_at "status" m ≡ "approved")

  false_neq_true : {A : Type 0} → false ≡ true → A
  false_neq_true h = elim (absurd h) [ ]
    where
      absurd : false ≡ true → ⊥
      absurd h = cc

  token_reply-Polled :
      (device_code : String) (m : Map String String) (w : W)
      → Polled m w (token_reply redis device_code m w)
  unfolding token_reply lookup
  token_reply-Polled device_code m w = elim (Bool-cases (text_at "status" m == "pending")) [
    | inl pending ↦ rw pending ((λ k v h. h), false_neq_true)
    | inr not_pending ↦ rw not_pending (elim (Bool-cases (text_at "status" m == "approved")) [
      | inl same ↦ rw same (
        (λ k v h. laws.after_del (pair_key device_code) w k v (laws.after_del _ _ k v h)),
        λ said. (String_eq.same_iff (text_at "status" m) "approved").0 same,
      )
      | inr not_approved ↦ rw not_approved (elim (Bool-cases (text_at "status" m == "denied")) [
        | inl denied ↦
            rw denied ((λ k v h. laws.after_del (pair_key device_code) w k v h), false_neq_true)
        | inr other ↦ rw other ((λ k v h. h), false_neq_true)
      ])
    ])
  ]

  token_for-Sub :
      (device_code : String) (found : Option String) (w : W)
      → Sub w (token_for redis device_code found w).1
  unfolding token_for
  token_for-Sub device_code none w k v h = h
  token_for-Sub device_code (some t) w k v h =
      (token_reply-Polled device_code (fields (redis.decode t)) w).0 k v h

  handle_device_token-Sub :
      (device_code : String) (w : W)
      → Sub w (handle_device_token (some redis) (some device_code) w).1
  unfolding handle_device_token
  handle_device_token-Sub device_code w k v h =
      laws.after_get _ w k v (token_for-Sub device_code _ _ k v h)

  text_at-insert : (t : String) (m : Map String String) → text_at "status" (insert "status" t m) ≡ t
  text_at-insert t m =
      rw (text_at, lookup-insert_same "status" "status" t m (==_refl {A = String} "status")) refl

  kept-Sound :
      (log : List String) (action device_code : String) (w : W)
      → Sound log w
      → Sound (log_approval action (some device_code) log) w
  kept-Sound log action device_code w s = elim (Bool-cases (action == "approve")) [
    | inl approves ↦ rw approves (Sound-more log w (pair_key device_code) s)
    | inr denies ↦ rw denies s
  ]

  set_status-Sound :
      (log : List String) (action device_code : String) (read : Option (Map String String)) (w : W)
      → Sound log w
      → Sound
          (log_approval action (some device_code) log)
          (set_status redis action device_code read w).1
  unfolding set_status
  set_status-Sound log action device_code none w s = kept-Sound log action device_code w s
  set_status-Sound log action device_code (some read) w s =
      elim (Bool-cases (action == "approve")) [
        | inl approves ↦ rw approves (
            Sound-set (pair_key device_code ∷ log) w (pair_key device_code) _ (λ a. inl refl)
              (Sound-more log w (pair_key device_code) s))
        | inr denies ↦ rw denies (
            Sound-other log w (pair_key device_code) _
              (ap (λ x. x == "approved") (text_at-insert "denied" read)) s)
      ]

  approve_pairing-Sound :
      (log : List String) (action device_code : String) (found : Option String) (w : W)
      → Sound log w
      → Sound
          (log_approval action (some device_code) log)
          (approve_pairing redis action device_code found w).1
  unfolding approve_pairing
  approve_pairing-Sound log action device_code none w s = kept-Sound log action device_code w s
  approve_pairing-Sound log action device_code (some t) w s =
      set_status-Sound log action device_code (redis.decode t) w s

  approve_device-Sound :
      (log : List String) (action : String) (found : Option String) (w : W)
      → Sound log w
      → Sound (log_approval action found log) (approve_device redis action found w).1
  unfolding approve_device
  approve_device-Sound log action none w s = s
  approve_device-Sound log action (some device_code) w s =
      approve_pairing-Sound log action device_code _ _
        (Sound-Sub log w _ (laws.after_get (pair_key device_code) w) s)

  handle_device_approve-Sound :
      (log : List String) (w : W) (req : ApproveRequest)
      → Sound log w
      → Sound
          (log_approval req.action (redis.get (user_key req.user_code) w).0 log)
          (handle_device_approve (some redis) (some req) w).1
  unfolding handle_device_approve
  handle_device_approve-Sound log w req s =
      approve_device-Sound log req.action _ _
        (Sound-Sub log w _ (laws.after_get (user_key req.user_code) w) s)

  Reach-Sound : (log : List String) (w : W) → Reach log w → Sound log w
  Reach-Sound _ _ (Reach.start w empty) = λ k v h a. elim (empty k v h) [ ]
  Reach-Sound _ _ (Reach.expired log w w' sub r) = Sound-Sub log w w' sub (Reach-Sound log w r)
  Reach-Sound _ _ (Reach.coded log w allowed ip device_code user_code req plain r) =
      handle_device_code-Sound log w allowed ip device_code user_code req plain
        (Reach-Sound log w r)
  Reach-Sound _ _ (Reach.asked log w device_code r) =
      Sound-Sub log w _ (handle_device_token-Sub device_code w) (Reach-Sound log w r)
  Reach-Sound _ _ (Reach.answered log w req r) =
      handle_device_approve-Sound log w req (Reach-Sound log w r)

  token_for-Approved :
      (log : List String) (device_code : String) (found : Option String) (w w' : W)
      → Sound log w
      → ((v : String) → found ≡ some v → laws.held w (pair_key device_code) ≡ some v)
      → says_approved (token_for redis device_code found w').0 ≡ true
      → In (pair_key device_code) log
  unfolding token_for lookup
  token_for-Approved log device_code none w w' s at said = false_neq_true said
  token_for-Approved log device_code (some t) w w' s at said =
      s (pair_key device_code) t (at t refl)
        ((token_reply-Polled device_code (fields (redis.decode t)) w').1 said)

  -- Where Redis and the JSON texts behave as `RedisLaws` says: in every state that requests for codes, polls
  -- and approvals bring about, in any order and with keys that expire or are lost at any time, a device is
  -- told that it is approved only if the pairing of its device code was approved by a request for an
  -- approval, or on its creation, from an address of the same machine while the setting allows it.
  pub handle_device_token-Approved :
      (log : List String) (w : W) (device_code : String)
      → Reach log w
      → says_approved (handle_device_token (some redis) (some device_code) w).0 ≡ true
      → In (pair_key device_code) log
  unfolding handle_device_token
  handle_device_token-Approved log w device_code r said =
      token_for-Approved log device_code (redis.get (pair_key device_code) w).0 w
        (redis.get (pair_key device_code) w).1 (Reach-Sound log w r)
        (λ v h. laws.get_held (pair_key device_code) w v h) said

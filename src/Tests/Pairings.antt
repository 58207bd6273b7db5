-- ===== src/Tests/Pairings.antt =====
-- Examples for the device pairing.
use Prim.Native.Char.{Char, code}
use capyclaw.Prelude.{
  nat_eq, some_inj, concat, ◌≡◌, refl, sym, ◌∙◌, ◌⊎◌, inl, inr, String, String_eq, ◌==◌, true,
  Bool-cases, Option, none, some, [], ◌∷◌, Map, lookup, insert, delete, lookup-insert_same,
  lookup-insert_other, lookup-delete_same, lookup-delete_other, if◌then◌else◌,
}
use capyclaw.Riverbank.Pairing.{
  Redis, CodeRequest, ApproveRequest, text_at, pair_key, handle_device_code, handle_device_approve,
  handle_device_token,
}
use capyclaw.Riverbank.Pairing.Approval.{RedisLaws, Reach, In, handle_device_token-Approved}

abbrev Store : Type 0
Store = Map String String

-- of a map only the status is kept, after a brace
abbrev brace : Char
brace = "{"

abbrev decode_status : String → Option (Map String String)
decode_status String.[] = none
decode_status (String.◌∷◌ c s) = if nat_eq (code c) 123 then some (("status", s) ∷ []) else none

abbrev local : Redis Store
local = record {
  get = λ k w. (lookup k w, w);
  set = λ k t w. insert k t w;
  del = λ k w. delete k w;
  encode = λ m. String.◌∷◌ brace (text_at "status" m);
  decode = decode_status;
}

none_neq_some : {A : Type 0} {v : String} → none ≡ some v → A
none_neq_some h = elim (absurd h) [ ]
  where
    absurd : {v : String} → none ≡ some v → ⊥
    absurd h = cc

after_insert :
    (k t : String) (w : Store) (k' v : String)
    → lookup k' (insert k t w) ≡ some v
    → ((k ≡ k') × (t ≡ v)) ⊎ (lookup k' w ≡ some v)
after_insert k t w k' v h = elim (Bool-cases (k == k')) [
  | inl same ↦
      inl ((String_eq.same_iff k k').0 same, some_inj (sym (lookup-insert_same k k' t w same) ∙ h))
  | inr other ↦ inr (sym (lookup-insert_other k k' t w other) ∙ h)
]

after_delete :
    (k : String) (w : Store) (k' v : String)
    → lookup k' (delete k w) ≡ some v
    → lookup k' w ≡ some v
after_delete k w k' v h = elim (Bool-cases (k == k')) [
  | inl same ↦ none_neq_some (sym (lookup-delete_same k k' w same) ∙ h)
  | inr other ↦ sym (lookup-delete_other k k' w other) ∙ h
]

local-RedisLaws : RedisLaws local
unfolding lookup
local-RedisLaws = record {
  held = λ w k. lookup k w;
  get_held = λ k w v h. h;
  after_get = λ k w k' v h. h;
  after_set = after_insert;
  after_del = after_delete;
  status_read = λ m. refl;
}

abbrev phone : CodeRequest
phone = record { device_name = "phone"; platform = "ios" }

abbrev coded : Store
coded = (handle_device_code (some local) true "10.0.0.9" "d1" "u1" (some phone) []).1

abbrev approval : ApproveRequest
approval = record { user_code = "u1"; action = "approve" }

abbrev approved : Store
approved = (handle_device_approve (some local) (some approval) coded).1

approved-Reach : Reach local local-RedisLaws (pair_key "d1" ∷ []) approved
unfolding handle_device_code handle_device_approve lookup insert concat local-RedisLaws
approved-Reach = Reach.answered [] coded approval (
    Reach.coded [] [] true "10.0.0.9" "d1" "u1" phone refl
      (Reach.start [] (λ k v h. none_neq_some h)))

handle_device_token-Approved_example : In (pair_key "d1") (pair_key "d1" ∷ [])
unfolding handle_device_code handle_device_approve handle_device_token lookup insert concat
handle_device_token-Approved_example =
    handle_device_token-Approved local local-RedisLaws (pair_key "d1" ∷ []) approved "d1"
      approved-Reach refl

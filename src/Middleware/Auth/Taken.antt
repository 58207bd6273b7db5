-- ===== src/Middleware/Auth/Taken.antt =====
-- What a token says that the code takes.
use capyclaw.Prelude.{
  ◌≡◌, ◌≢◌, refl, sym, ◌∙◌, arith, String, String_eq, true, false, Bool-cases, inl, inr, Option,
  none, some, Map,
}
use capyclaw.Action.{Result, ok, err, panicked, Action, continue, context, within, ◌>>=◌}
use capyclaw.Middleware.Auth.{Claim, Token, JwtClaims, claim_text, claims_of, check_token}

-- the claims are those of a token that is valid
pub record Taken (token : Token) (claims : JwtClaims) : Type 0 where
  pub valid : token.valid ≡ true
  pub named : claims.user_id ≢ ""
  pub from : Map String Claim
  pub from_eq : token.claims ≡ some from
  pub user_eq : claims.user_id ≡ claim_text "sub" from
  pub tenant_eq : claims.tenant_id ≡ claim_text "tid" from
  pub role_eq : claims.role ≡ claim_text "role" from

claims_of-ok :
    (from : Map String Claim) (claims : JwtClaims)
    → claims_of from ≡ ok claims
    → (claims.user_id ≢ "")
      × (claims.user_id ≡ claim_text "sub" from)
      × (claims.tenant_id ≡ claim_text "tid" from)
      × (claims.role ≡ claim_text "role" from)
unfolding claims_of
claims_of-ok from claims h = ground (arith, h, String_eq.same_iff (claim_text "sub" from) "")

pub true-not-false : true ≡ false → ⊥
true-not-false = cc

pub ok-not-err : {A : Type 0} {a : A} {e : String} → err e ≡ ok a → ⊥
ok-not-err = cc

pub check_token-Taken :
    (token : Token) (claims : JwtClaims) → check_token token ≡ ok claims → Taken token claims
unfolding check_token
check_token-Taken token claims h = elim (Bool-cases token.valid) [
  | inl valid ↦ with_map token.claims refl valid (sym (opened valid) ∙ h)
  | inr invalid ↦ absurd (ok-not-err (sym (shut invalid) ∙ h))
]
  where
    opened :
        token.valid ≡ true
        → check_token token
          ≡ elim token.claims [ none ↦ err "invalid claims type" | some from ↦ claims_of from ]
    opened valid = rw valid refl

    shut : token.valid ≡ false → check_token token ≡ err "invalid token"
    shut invalid = rw invalid refl

    with_map :
        (c : Option (Map String Claim))
        → token.claims ≡ c
        → token.valid ≡ true
        → elim c [ none ↦ err "invalid claims type" | some from ↦ claims_of from ] ≡ ok claims
        → Taken token claims
    with_map none e valid k = absurd (ok-not-err k)
    with_map (some from) e valid k =
        let (named, user_eq, tenant_eq, role_eq) = claims_of-ok from claims k in
        record {
          valid = valid;
          named = named;
          from = from;
          from_eq = e;
          user_eq = user_eq;
          tenant_eq = tenant_eq;
          role_eq = role_eq;
        }

module _ {W : Type 0} where
  pub parsed-ok :
      (m : Action W Token) (c : String) (w : W) (claims : JwtClaims)
      → ((within c m >>= λ token v. (check_token token, v)) w).0 ≡ ok claims
      → (token : Token) × ((m w).0 ≡ ok token) × (check_token token ≡ ok claims)
  unfolding within ◌>>=◌
  parsed-ok m c w claims h = by_result (m w).0 refl h
    where
      by_result :
          (r : Result Token)
          → (m w).0 ≡ r
          → (continue (context c r) (λ token (v : W). (check_token token, v)) (m w).1).0 ≡ ok claims
          → (token : Token) × ((m w).0 ≡ ok token) × (check_token token ≡ ok claims)
      by_result (ok token) e k = (token, e, k)
      by_result (err m) e k = absurd (cc k)
      by_result panicked e k = absurd (cc k)

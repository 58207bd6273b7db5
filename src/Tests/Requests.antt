-- ===== src/Tests/Requests.antt =====
-- Examples for internal/riverbank/middleware.
use capyclaw.Prelude.{
  ℕ, ◌+◌, ◌==◌, String_eq, String, ◌≡◌, ◌≢◌, refl, ap, true, false, none, some, [], ◌∷◌, Map,
  lookup, if◌then◌else◌,
}
use capyclaw.Action.{ok, err, ◌>>=◌, within}
use capyclaw.Middleware.Http.{Request, Context, Exchange, Handler, answer}
use capyclaw.Middleware.Keys.{Crypto, KeyKind, resolve_public_key}
use capyclaw.Middleware.Auth.{Claim, Tokens, AuthConfig, AuthState, extract_token, auth}
use capyclaw.Middleware.Auth.Configured.{FromConfig}
use capyclaw.Middleware.Auth.Gate.{Gate, auth-Gate}
use capyclaw.Middleware.Headers.{request_id, cors, tenant}
use capyclaw.Middleware.RateLimit.{rate_limit}
use capyclaw.Middleware.Audit.{audit}
use capyclaw.Middleware.Chain.{Gateway, api, limit}
use capyclaw.Middleware.Chain.Gate.{Served, api-Served}

-- keys are numbers
abbrev crypto : Crypto ℕ ℕ ℕ
crypto = record {
  read_file = λ path w. (ok (1 ∷ []), w + 1);
  pem_block = λ bytes. some bytes;
  parse_public_key = λ bytes. ok 7;
  kind_of = λ key. KeyKind.ecdsa;
  type_text = λ key. "key";
  generate = λ kind w. (ok (7, 8), w + 1);
}

abbrev claims : Map String Claim
claims =
    ("sub", Claim.text_claim "u") ∷ ("tid", Claim.text_claim "t") ∷ ("exp", Claim.other_claim) ∷ []

-- a token "good" is signed with ES256
abbrev tokens : Tokens ℕ ℕ ℕ
tokens = record {
  parse = λ token key methods w. (
    if token == "good" then ok (record { valid = true; claims = some claims }) else err "malformed",
    w + 1,
  );
  new_verifier = λ url id w. (err "no issuer", w);
  verify = λ v token w. (err "no verifier", w);
}

abbrev by_jwt_config : AuthConfig
by_jwt_config = record {
  provider = "jwt";
  oidc = record { issuer_url = ""; client_id = "" };
  jwt = record { signing_method = "ES256"; public_key_path = "key.pem" };
}

abbrev State : Type 0
State = AuthState ℕ ℕ ℕ ℕ

abbrev fresh : Exchange State
fresh = record {
  sent = [];
  world = record {
    key = none;
    verifier = none;
    dev = record { done = false; public_key = none; private_key = none };
    rest = 0;
  };
}

abbrev request : Request
request = record {
  method = "POST";
  path = "/api/v1/agents";
  headers = ("Authorization", "Bearer good") ∷ [];
  remote_addr = "10.0.0.1:5";
  user_agent = "curl";
}

abbrev nothing : Context
nothing = record { user_id = none; tenant_id = none; role = none; request_id = none }

abbrev greet : Handler State
greet r ctx = answer 200 "hello"

jwt-other : by_jwt_config.provider ≢ "device-pairing"
jwt-other = λ e. false-not-true (ap (λ t. t == "device-pairing") e)
  where
    false-not-true : false ≡ true → ⊥
    false-not-true = cc

none_neq_some : {A B : Type 0} {a : A} → none ≡ some a → B
none_neq_some h = absurd (never h)
  where
    never : {A : Type 0} {a : A} → none ≡ some a → ⊥
    never h = cc

fresh-FromConfig : FromConfig crypto tokens by_jwt_config fresh.world
fresh-FromConfig = record {
  key_from = λ key e. none_neq_some e;
  verifier_from = λ v e. none_neq_some e;
  made_from = λ key e. none_neq_some e;
}

auth-Gate_example :
    Gate crypto tokens greet
      (extract_token crypto tokens request)
      by_jwt_config
      request
      nothing
      (auth crypto tokens greet by_jwt_config request nothing fresh)
auth-Gate_example =
    auth-Gate crypto tokens greet by_jwt_config request nothing fresh fresh-FromConfig jwt-other

abbrev gateway : Gateway ℕ ℕ ℕ ℕ
gateway = record {
  crypto = crypto;
  tokens = tokens;
  texts = record { parse_uuid = λ t. some t; lower = λ t. t };
  number_text = λ n. "n";
  new_id = λ w. ("id", w);
  redis = none;
  audits = record {
    insert_event = λ event w. (ok tt, w);
    query = λ query args w. (ok [], w);
    number_text = λ n. "n";
  };
  origins = "https://app" ∷ [];
  auth_config = by_jwt_config;
  rapids = record { enabled = false; requests_per_minute = 0; requests_per_hour = 0 };
}

api-Served_example : Served gateway greet request (api gateway greet request nothing fresh)
api-Served_example =
    api-Served gateway greet request jwt-other nothing fresh fresh-FromConfig (λ s f. f)

-- and this request is served
api-status :
    (api gateway greet request nothing fresh).0 ≡ ok (record { status = 200; body = "hello" })
unfolding api request_id lookup cors auth extract_token resolve_public_key ◌>>=◌ within tenant limit
    rate_limit audit
api-status = refl

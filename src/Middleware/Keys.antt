-- ===== src/Middleware/Keys.antt =====
-- The keys of internal/riverbank/middleware/auth.go: the key from a file, and the pair of keys that the
-- development mode makes once. The packages crypto, os and pem are parameters.
pub mod Configured
use capyclaw.Prelude.{
  ℕ, String, String_eq, ◌==◌, Bool, true, false, Option, none, some, List, [], ◌∷◌, concat,
  if◌then◌else◌,
}
use capyclaw.Action.{Result, ok, err, panicked, Action, fail, within, ◌>>=◌}

pub data KeyKind : Type 0 where
  ecdsa rsa ed25519 other : KeyKind

-- `K` and `S` are the public and the private keys; `%T` of a key is a text
pub record Crypto (W : Type 0) (K : Type 0) (S : Type 0) : Type 0 where
  pub read_file : String → Action W (List ℕ)
  pub pem_block : List ℕ → Option (List ℕ)
  pub parse_public_key : List ℕ → Result K
  pub kind_of : K → KeyKind
  pub type_text : K → String
  pub generate : KeyKind → Action W (K × S)

-- `devPublicKey`, `devPrivateKey` and whether `devKeyOnce` was done
pub record DevKeys (K : Type 0) (S : Type 0) : Type 0 where
  pub done : Bool
  pub public_key : Option K
  pub private_key : Option S

pub record JwtConfig : Type 0 where
  pub signing_method : String
  pub public_key_path : String

-- `jwt.SigningMethod`, by its `Alg`
abbrev pub signing_method_from_string : String → String
signing_method_from_string method =
    if method == "ES256"
    then "ES256"
    else if method == "RS256"
    then "RS256"
    else if method == "EdDSA"
    then "EdDSA"
    else "ES256"

abbrev pub is_kind : KeyKind → KeyKind → Bool
is_kind KeyKind.ecdsa KeyKind.ecdsa = true
is_kind KeyKind.rsa KeyKind.rsa = true
is_kind KeyKind.ed25519 KeyKind.ed25519 = true
is_kind _ _ = false

module _ {W K S : Type 0} (crypto : Crypto W K S) where
  unfoldable pub of_kind : KeyKind → String → K → Result K
  of_kind kind expected key =
      if is_kind kind (crypto.kind_of key)
      then ok key
      else err (concat (expected ∷ ", got " ∷ crypto.type_text key ∷ []))

  -- the check of a key against the method; another method is not checked
  unfoldable pub check_kind : String → K → Result K
  unfolding of_kind
  check_kind method key =
      if method == "ES256"
      then of_kind KeyKind.ecdsa "expected ECDSA public key for ES256" key
      else if method == "RS256"
      then of_kind KeyKind.rsa "expected RSA public key for RS256" key
      else if method == "EdDSA"
      then of_kind KeyKind.ed25519 "expected Ed25519 public key for EdDSA" key
      else ok key

  unfoldable pub parse_block : String → String → Option (List ℕ) → Result K
  unfolding check_kind
  parse_block path method none = err (concat ("no PEM block found in " ∷ path ∷ []))
  parse_block path method (some block) = elim (crypto.parse_public_key block) [
    | ok key ↦ check_kind method key
    | err e ↦ err (concat ("parsing public key: " ∷ e ∷ []))
    | panicked ↦ panicked
  ]

  -- `loadPublicKey`
  unfoldable pub load_public_key : String → String → Action W K
  unfolding parse_block
  load_public_key path method = do
    bytes ← within "reading public key file: " (crypto.read_file path)
    λ w. (parse_block path method (crypto.pem_block bytes), w)

  abbrev pub Keyed : Type 0
  Keyed = DevKeys K S × W

  -- what the call of `generateDevKey` leaves: a failure leaves no key
  abbrev pub keys_of : Result (K × S) → DevKeys K S
  keys_of (ok (public, private)) = record {
    done = true;
    public_key = some public;
    private_key = some private;
  }
  keys_of (err e) = record { done = true; public_key = none; private_key = none }
  keys_of panicked = record { done = true; public_key = none; private_key = none }

  -- `generateDevKey`
  unfoldable pub generate_dev_key : String → Action W (K × S)
  generate_dev_key method =
      if method == "ES256"
      then crypto.generate KeyKind.ecdsa
      else if method == "RS256"
      then crypto.generate KeyKind.rsa
      else if method == "EdDSA"
      then crypto.generate KeyKind.ed25519
      else fail (concat ("unsupported signing method: " ∷ method ∷ []))

  -- `EnsureDevKey`
  unfoldable pub ensure_dev_key : String → Keyed → Keyed
  unfolding generate_dev_key
  ensure_dev_key method (keys, w) =
      let (r, w') = generate_dev_key method w in if keys.done then (keys, w) else (keys_of r, w')

  unfoldable pub dev_key : DevKeys K S → Result K
  dev_key keys = elim keys.public_key [
    | none ↦ err "failed to generate dev key"
    | some key ↦ ok key
  ]

  -- `resolvePublicKey`
  unfoldable pub resolve_public_key : JwtConfig → Keyed → Result K × Keyed
  unfolding load_public_key ensure_dev_key dev_key
  resolve_public_key cfg (keys, w) =
      if cfg.public_key_path == ""
      then (let after = ensure_dev_key cfg.signing_method (keys, w) in (dev_key after.0, after))
      else (let (r, w') = load_public_key cfg.public_key_path cfg.signing_method w in
          (r, (keys, w')))

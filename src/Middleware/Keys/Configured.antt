-- ===== src/Middleware/Keys/Configured.antt =====
-- Which keys are those of the configuration: the key from its file, or one that was made.
use mathlib.Core.Path.{subst}
use capyclaw.Prelude.{
  ℕ, ◌≡◌, ◌≢◌, refl, sym, ap, ◌∙◌, String, String_eq, ◌==◌, ==_neq, true, false, true_neq_false,
  some_inj, Bool-cases, inl, inr, Option, none, some, List, [], ◌∷◌, concat,
}
use capyclaw.Action.{Result, ok, err, panicked, continue, context, fail, within, ◌>>=◌}
use capyclaw.Middleware.Keys.{
  KeyKind, Crypto, DevKeys, JwtConfig, is_kind, of_kind, check_kind, parse_block, load_public_key,
  keys_of, generate_dev_key, ensure_dev_key, dev_key, resolve_public_key,
}

-- the kind of key that a method is for
pub data MethodKind : String → KeyKind → Type 0 where
  es256 : MethodKind "ES256" KeyKind.ecdsa
  rs256 : MethodKind "RS256" KeyKind.rsa
  eddsa : MethodKind "EdDSA" KeyKind.ed25519

-- a key from a file is of the kind of the method, if that is one of the three
pub data Fits (method : String) (kind : KeyKind) : Type 0 where
  checked : MethodKind method kind → Fits method kind
  unchecked : method ≢ "ES256" → method ≢ "RS256" → method ≢ "EdDSA" → Fits method kind

is_kind-eq : (a b : KeyKind) → is_kind a b ≡ true → b ≡ a
is_kind-eq KeyKind.ecdsa KeyKind.ecdsa h = refl
is_kind-eq KeyKind.ecdsa KeyKind.rsa h = absurd (true_neq_false (sym h))
is_kind-eq KeyKind.ecdsa KeyKind.ed25519 h = absurd (true_neq_false (sym h))
is_kind-eq KeyKind.ecdsa KeyKind.other h = absurd (true_neq_false (sym h))
is_kind-eq KeyKind.rsa KeyKind.ecdsa h = absurd (true_neq_false (sym h))
is_kind-eq KeyKind.rsa KeyKind.rsa h = refl
is_kind-eq KeyKind.rsa KeyKind.ed25519 h = absurd (true_neq_false (sym h))
is_kind-eq KeyKind.rsa KeyKind.other h = absurd (true_neq_false (sym h))
is_kind-eq KeyKind.ed25519 KeyKind.ecdsa h = absurd (true_neq_false (sym h))
is_kind-eq KeyKind.ed25519 KeyKind.rsa h = absurd (true_neq_false (sym h))
is_kind-eq KeyKind.ed25519 KeyKind.ed25519 h = refl
is_kind-eq KeyKind.ed25519 KeyKind.other h = absurd (true_neq_false (sym h))
is_kind-eq KeyKind.other KeyKind.ecdsa h = absurd (true_neq_false (sym h))
is_kind-eq KeyKind.other KeyKind.rsa h = absurd (true_neq_false (sym h))
is_kind-eq KeyKind.other KeyKind.ed25519 h = absurd (true_neq_false (sym h))
is_kind-eq KeyKind.other KeyKind.other h = absurd (true_neq_false (sym h))

ok_inj : {A : Type 0} {a b : A} → ok a ≡ ok b → a ≡ b
ok_inj h = cc

err_neq_ok : {A : Type 0} {e : String} {a : A} → err e ≡ ok a → ⊥
err_neq_ok h = cc

panicked_neq_ok : {A : Type 0} {a : A} → panicked ≡ ok a → ⊥
panicked_neq_ok h = cc

module _ {W K S : Type 0} (crypto : Crypto W K S) where
  -- the key that stands in the file
  pub record FileKey (path method : String) (key : K) : Type 0 where
    pub w : W
    pub bytes : List ℕ
    pub block : List ℕ
    pub read_eq : (crypto.read_file path w).0 ≡ ok bytes
    pub block_eq : crypto.pem_block bytes ≡ some block
    pub key_eq : crypto.parse_public_key block ≡ ok key
    pub fits : Fits method (crypto.kind_of key)

  -- a key that the program made, of the kind of the method
  pub record MadeKey (method : String) (key : K) : Type 0 where
    pub w : W
    pub kind : KeyKind
    pub private : S
    pub for_method : MethodKind method kind
    pub made_eq : (crypto.generate kind w).0 ≡ ok (key, private)

  -- the key of the configuration: that of its file, or a key that was made if it names no file
  pub data ConfiguredKey (cfg : JwtConfig) (key : K) : Type 0 where
    from_file :
        cfg.public_key_path ≢ ""
        → FileKey cfg.public_key_path cfg.signing_method key
        → ConfiguredKey cfg key
    generated : cfg.public_key_path ≡ "" → MadeKey cfg.signing_method key → ConfiguredKey cfg key

  of_kind-same :
      (kind : KeyKind) (expected : String) (key key' : K)
      → of_kind crypto kind expected key ≡ ok key'
      → (crypto.kind_of key ≡ kind) × (key ≡ key')
  unfolding of_kind
  of_kind-same kind expected key key' h = elim (Bool-cases (is_kind kind (crypto.kind_of key))) [
    | inl fits ↦ (is_kind-eq kind (crypto.kind_of key) fits, ok_inj (sym (opened fits) ∙ h))
    | inr other ↦ absurd (err_neq_ok (sym (shut other) ∙ h))
  ]
    where
      opened : is_kind kind (crypto.kind_of key) ≡ true → of_kind crypto kind expected key ≡ ok key
      opened fits = rw fits refl

      shut :
          is_kind kind (crypto.kind_of key) ≡ false
          → of_kind crypto kind expected key
            ≡ err (concat (expected ∷ ", got " ∷ crypto.type_text key ∷ []))
      shut other = rw other refl

  named-Fits :
      (method name : String) (kind : KeyKind) (key key' : K)
      → MethodKind name kind
      → (method == name) ≡ true
      → (crypto.kind_of key ≡ kind) × (key ≡ key')
      → Fits method (crypto.kind_of key) × (key ≡ key')
  named-Fits method name kind key key' is_for same (kind_eq, key_eq) = (
    Fits.checked (
        subst (λ n. MethodKind n (crypto.kind_of key))
          (sym ((String_eq.same_iff method name).0 same))
          (subst (λ k. MethodKind name k) (sym kind_eq) is_for)),
    key_eq,
  )

  check_kind-Fits :
      (method : String) (key key' : K)
      → check_kind crypto method key ≡ ok key'
      → Fits method (crypto.kind_of key) × (key ≡ key')
  unfolding check_kind
  check_kind-Fits method key key' h = elim (Bool-cases (method == "ES256")) [
    | inl es ↦
        named-Fits method "ES256" KeyKind.ecdsa key key' es256 es
          (of_kind-same KeyKind.ecdsa _ key key' (rw es at h))
    | inr not_es ↦ elim (Bool-cases (method == "RS256")) [
      | inl rs ↦
          named-Fits method "RS256" KeyKind.rsa key key' rs256 rs
            (of_kind-same KeyKind.rsa _ key key' (rw (not_es, rs) at h))
      | inr not_rs ↦ elim (Bool-cases (method == "EdDSA")) [
        | inl ed ↦
            named-Fits method "EdDSA" KeyKind.ed25519 key key' eddsa ed
              (of_kind-same KeyKind.ed25519 _ key key' (rw (not_es, not_rs, ed) at h))
        | inr not_ed ↦ (
          Fits.unchecked (==_neq not_es) (==_neq not_rs) (==_neq not_ed),
          ok_inj (rw (not_es, not_rs, not_ed) at h),
        )
      ]
    ]
  ]

  load_public_key-FileKey :
      (path method : String) (w : W) (key : K)
      → (load_public_key crypto path method w).0 ≡ ok key
      → FileKey path method key
  unfolding load_public_key parse_block within ◌>>=◌
  load_public_key-FileKey path method w key h =
      by_read (crypto.read_file path w).0 (crypto.read_file path w).1 refl h
    where
      by_key :
          (bytes block : List ℕ) (r : Result K)
          → (crypto.read_file path w).0 ≡ ok bytes
          → crypto.pem_block bytes ≡ some block
          → crypto.parse_public_key block ≡ r
          → elim r [
            | ok key ↦ check_kind crypto method key
            | err e ↦ err (concat ("parsing public key: " ∷ e ∷ []))
            | panicked ↦ panicked
          ]
            ≡ ok key
          → FileKey path method key
      by_key bytes block (ok found) read_eq block_eq key_eq checked_eq =
          let (fits, same) = check_kind-Fits method found key checked_eq in
          record {
            w = w;
            bytes = bytes;
            block = block;
            read_eq = read_eq;
            block_eq = block_eq;
            key_eq = key_eq ∙ ap (λ k. ok k) same;
            fits = subst (λ k. Fits method (crypto.kind_of k)) same fits;
          }
      by_key bytes block (err e) a b c k = absurd (err_neq_ok k)
      by_key bytes block panicked a b c k = absurd (panicked_neq_ok k)

      by_block :
          (bytes : List ℕ) (o : Option (List ℕ))
          → (crypto.read_file path w).0 ≡ ok bytes
          → crypto.pem_block bytes ≡ o
          → parse_block crypto path method o ≡ ok key
          → FileKey path method key
      by_block bytes none a b k = absurd (err_neq_ok k)
      by_block bytes (some block) a b k =
          by_key bytes block (crypto.parse_public_key block) a b refl k

      by_read :
          (r : Result (List ℕ)) (w' : W)
          → (crypto.read_file path w).0 ≡ r
          → (continue
              (context "reading public key file: " r)
              (λ bytes (v : W). (parse_block crypto path method (crypto.pem_block bytes), v))
              w').0
            ≡ ok key
          → FileKey path method key
      by_read (ok bytes) w' a k = by_block bytes (crypto.pem_block bytes) a refl k
      by_read (err e) w' a k = absurd (err_neq_ok k)
      by_read panicked w' a k = absurd (panicked_neq_ok k)

  generate_dev_key-MadeKey :
      (method : String) (w : W) (key : K) (private : S)
      → (generate_dev_key crypto method w).0 ≡ ok (key, private)
      → MadeKey method key
  unfolding generate_dev_key fail
  generate_dev_key-MadeKey method w key private h = elim (Bool-cases (method == "ES256")) [
    | inl es ↦ made_for "ES256" KeyKind.ecdsa es256 es (rw es at h)
    | inr not_es ↦ elim (Bool-cases (method == "RS256")) [
      | inl rs ↦ made_for "RS256" KeyKind.rsa rs256 rs (rw (not_es, rs) at h)
      | inr not_rs ↦ elim (Bool-cases (method == "EdDSA")) [
        | inl ed ↦ made_for "EdDSA" KeyKind.ed25519 eddsa ed (rw (not_es, not_rs, ed) at h)
        | inr not_ed ↦ absurd (err_neq_ok (rw (not_es, not_rs, not_ed) at h))
      ]
    ]
  ]
    where
      made_for :
          (name : String) (kind : KeyKind)
          → MethodKind name kind
          → (method == name) ≡ true
          → (crypto.generate kind w).0 ≡ ok (key, private)
          → MadeKey method key
      made_for name kind is_for same made_eq = record {
        w = w;
        kind = kind;
        private = private;
        for_method =
            subst (λ n. MethodKind n kind) (sym ((String_eq.same_iff method name).0 same)) is_for;
        made_eq = made_eq;
      }

  -- the keys of the development mode are those that the program made
  abbrev pub MadeKeys : String → DevKeys K S → Type 0
  MadeKeys method keys = (key : K) → keys.public_key ≡ some key → MadeKey method key

  none_neq_some : {A : Type 0} {key : K} → none ≡ some key → A
  none_neq_some h = absurd (never h)
    where
      never : {key : K} → none ≡ some key → ⊥
      never h = cc

  ensure_dev_key-MadeKeys :
      (method : String) (keys : DevKeys K S) (w : W)
      → MadeKeys method keys
      → MadeKeys method (ensure_dev_key crypto method (keys, w)).0
  unfolding ensure_dev_key
  ensure_dev_key-MadeKeys method keys w made = elim (Bool-cases keys.done) [
    | inl done ↦ rw done made
    | inr first ↦ rw first (by (generate_dev_key crypto method w).0 refl)
  ]
    where
      by :
          (r : Result (K × S))
          → (generate_dev_key crypto method w).0 ≡ r
          → MadeKeys method (keys_of crypto r)
      by (ok (public, private)) h key e =
          subst (λ k. MadeKey method k) (some_inj e)
            (generate_dev_key-MadeKey method w public private h)
      by (err m) h key e = none_neq_some e
      by panicked h key e = none_neq_some e

  dev_key-public :
      (keys : DevKeys K S) (key : K) → dev_key crypto keys ≡ ok key → keys.public_key ≡ some key
  unfolding dev_key
  dev_key-public keys key h = by keys.public_key h
    where
      by :
          (o : Option K)
          → elim o [ none ↦ err "failed to generate dev key" | some key ↦ ok key ] ≡ ok key
          → o ≡ some key
      by none k = absurd (err_neq_ok k)
      by (some found) k = ap (λ x. some x) (ok_inj k)

  -- what the resolution gives is the configured key, and it makes no other
  abbrev pub Resolved : JwtConfig → Result K × (DevKeys K S × W) → Type 0
  Resolved cfg x =
      ((key : K) → x.0 ≡ ok key → ConfiguredKey cfg key) × MadeKeys cfg.signing_method x.1.0

  pub resolve_public_key-Resolved :
      (cfg : JwtConfig) (keys : DevKeys K S) (w : W)
      → MadeKeys cfg.signing_method keys
      → Resolved cfg (resolve_public_key crypto cfg (keys, w))
  unfolding resolve_public_key
  resolve_public_key-Resolved cfg keys w made = elim (Bool-cases (cfg.public_key_path == "")) [
    | inl no_file ↦
        let after = ensure_dev_key-MadeKeys cfg.signing_method keys w made in
        rw no_file (
          (λ key h.
              ConfiguredKey.generated ((String_eq.same_iff cfg.public_key_path "").0 no_file) (
                after key
                  (dev_key-public (ensure_dev_key crypto cfg.signing_method (keys, w)).0 key h))),
          after,
        )
    | inr file ↦ rw file (
      (λ key h.
          ConfiguredKey.from_file (==_neq file)
            (load_public_key-FileKey cfg.public_key_path cfg.signing_method w key h)),
      made,
    )
  ]

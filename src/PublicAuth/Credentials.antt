-- ===== src/PublicAuth/Credentials.antt =====
-- Which credentials are accepted.
use sealtun.Prelude.{
  ◌≡◌, ◌↔◌, inl, inr, ap, ◌∙◌, true, false, ◌&&◌, some, Bytes, str_eq, str_eq_iff, str_eq_refl, ok,
  arith, length, Option-cases, Result-cases,
}
use sealtun.Text.Trim.{trim_space, trim_space_idem}
use sealtun.PublicAuth.{
  BasicAuth, Hashing, validate_username, is_legacy_sha256_hash, hash_password, new_basic_auth,
  validate_password_hash, validate, check,
}

module _ (hashing : Hashing) where
  open hashing use {generate, has_cost, compare}

  -- What bcrypt documents of the hashes it makes.
  pub record IsBcrypt : Type 0 where
    pub sized : (salt password hash : Bytes) → generate salt password ≡ some hash → length hash ≡ 60
    pub costed :
        (salt password hash : Bytes) → generate salt password ≡ some hash → has_cost hash ≡ true
    pub agrees :
        (salt password hash : Bytes)
        → generate salt password ≡ some hash
        → compare hash password ≡ true

  -- The parts of credentials that were made.
  record Made (salt name password : Bytes) (config : BasicAuth) : Type 0 where
    named : config.username ≡ name
    valid : validate_username name ≡ ok tt
    hashed : generate salt password ≡ some config.password_hash

  Made-of_new :
      (salt username password : Bytes) {config : BasicAuth}
      → new_basic_auth hashing salt username password ≡ ok config
      → Made salt (trim_space username) password config
  unfolding new_basic_auth hash_password
  Made-of_new salt username password {config} h =
      elim (Result-cases (validate_username (trim_space username))) [
        | inr (e, q) ↦ absurd (ground arith)
        | inl (tt, q) ↦ elim (Option-cases (generate salt password)) [
          | inl g ↦ absurd (ground arith)
          | inr (hash, g) ↦ record { named = ground arith; valid = q; hashed = ground arith }
        ]
      ]

  not_legacy : (hash : Bytes) → length hash ≡ 60 → is_legacy_sha256_hash hash ≡ false
  unfolding is_legacy_sha256_hash
  not_legacy hash h = ground arith

  -- A check of valid credentials with a bcrypt hash.
  check_of_valid :
      (config : BasicAuth) (name word : Bytes)
      → validate_username (trim_space config.username) ≡ ok tt
      → length config.password_hash ≡ 60
      → has_cost config.password_hash ≡ true
      → (validate hashing config ≡ ok tt)
        × (check hashing config name word
            ≡ (str_eq name (trim_space config.username) && compare config.password_hash word))
  unfolding validate validate_password_hash check
  check_of_valid config name word valid sized costed =
      ground (arith, not_legacy config.password_hash sized)

  -- Credentials that are made from a user name and a password are valid, and a check accepts a
  -- user name and a password exactly if the name is the trimmed name they were made from and
  -- bcrypt accepts the password for the stored hash; so it accepts the password they were made from.
  pub new_basic_auth-check :
      (salt username password : Bytes) {config : BasicAuth}
      → IsBcrypt
      → new_basic_auth hashing salt username password ≡ ok config
      → (validate hashing config ≡ ok tt)
        × (check hashing config (trim_space username) password ≡ true)
        × ((name word : Bytes)
            → (check hashing config name word ≡ true)
              ↔ ((name ≡ trim_space username) × (compare config.password_hash word ≡ true)))
  new_basic_auth-check salt username password {config} b h =
      let m = Made-of_new salt username password h in
      let stored : trim_space config.username ≡ trim_space username =
        ap trim_space m.named ∙ trim_space_idem username in
      let run = λ (name word : Bytes).
        check_of_valid config name word (ap validate_username stored ∙ m.valid)
          (b.sized salt password config.password_hash m.hashed)
          (b.costed salt password config.password_hash m.hashed) in
      let agreed = b.agrees salt password config.password_hash m.hashed in
      (
        (run username password).0,
        ground (
          arith,
          (run (trim_space username) password).1,
          stored,
          agreed,
          str_eq_refl (trim_space username),
        ),
        λ name word.
            ground (arith, (run name word).1, stored, str_eq_iff name (trim_space username)),
      )

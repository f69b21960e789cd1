-- ===== src/AccessPolicy/Tokens/Authorization.antt =====
-- Which requests the tokens of a policy authorize.
use mathlib.Core.List.{Memᴰ}
use sealtun.Prelude.{
  ℕ, ◌≤◌, ◌<◌, ◌≡◌, ◌≢◌, ◌⊎◌, inl, inr, refl, sym, ap, Bool, true, List, [], ◌∷◌, ◌++◌, some, Bytes,
  codes, str_eq, str_eq_iff, str_eq_refl, arith, length, any, Bool-cases, Option-cases,
  if◌then◌else◌, All, if_elim, ◌∙◌, none, false,
}
use sealtun.Assoc.{lookup, has}
use sealtun.Http.{Request, Platform, Values, get, del, lookup-del}
use sealtun.Text.{to_lower}
use sealtun.Text.Trim.{trim_space}
use sealtun.Text.Visible.{Visible, trim_space_of_Visible, trim_space_of_ends}
use sealtun.AccessPolicy.{Policy, TemporaryToken}
use sealtun.AccessPolicy.Tokens.{
  min_token_length, query_param, hash_token, token_hash_matches, token_matches_any, bearer_token,
  bearer_token_authorized, expires_after, accepts, temporary_authorized, token_authorized,
  strip_temporary_token_query,
}

length_pos : (s : Bytes) → s ≢ [] → 0 < length s
length_pos [] h = absurd (h refl)
length_pos (c ∷ s) h = omega arith

ne_of_long : (s : Bytes) → min_token_length ≤ length s → s ≢ []
ne_of_long [] h = absurd (omega arith)
ne_of_long (c ∷ s) h = cc

-- What passes a Boolean `any` is listed.
record Listed {A : Type 0} (p : A → Bool) (xs : List A) : Type 0 where
  item : A
  mem : Memᴰ item xs
  passes : p item ≡ true

Listed-of_any : {A : Type 0} (p : A → Bool) (xs : List A) → any p xs ≡ true → Listed p xs
Listed-of_any p [] h = cc
Listed-of_any p (x ∷ xs) h = elim (Bool-cases (p x)) [
  | inl e ↦ record { item = x; mem = Memᴰ.head refl; passes = e }
  | inr e ↦
      let r = Listed-of_any p xs (ground arith) in
      record { item = r.item; mem = Memᴰ.tail r.mem; passes = r.passes }
]

any_of_mem :
    {A : Type 0} (p : A → Bool) (x : A) (xs : List A) → Memᴰ x xs → p x ≡ true → any p xs ≡ true
any_of_mem p x [] m h = elim m [ ]
any_of_mem p x (y ∷ ys) (Memᴰ.head e) h = ground (arith, ap p e)
any_of_mem p x (y ∷ ys) (Memᴰ.tail m) h = ground (arith, any_of_mem p x ys m h)

-- Of the values of `before` all but those of one name are in `after`.
abbrev pub Drops : (name : Bytes) (before after : Values) → Type 0
Drops name before after =
    (k : Bytes) → lookup k after ≡ (if str_eq k name then none else lookup k before)

Drops-nothing : (name : Bytes) (m : Values) → lookup name m ≡ none → Drops name m m
Drops-nothing name m gone k = elim (Bool-cases (str_eq k name)) [
  | inl e ↦ rw e (ap (λ j. lookup j m) ((str_eq_iff k name).0 e) ∙ gone)
  | inr e ↦ rw e refl
]

has-none : (name : Bytes) (m : Values) → has name m ≡ false → lookup name m ≡ none
has-none name m h = elim (Option-cases (lookup name m)) [
  | inl e ↦ e
  | inr (v, e) ↦ absurd (ground (arith, e))
]

module _ (platform : Platform) where
  -- The token is long enough and the hash is listed.
  pub record ByBearer (policy : Policy) (token : Bytes) : Type 0 where
    pub long : min_token_length ≤ length token
    pub hash : Bytes
    pub listed : Memᴰ hash policy.bearer_token_hashes
    pub equal : trim_space hash ≡ hash_token platform token

  -- The temporary token is listed with a time of expiry that has not come.
  pub record ByTemporary (policy : Policy) (token : Bytes) (now : ℕ) : Type 0 where
    pub long : min_token_length ≤ length token
    pub entry : TemporaryToken
    pub listed : Memᴰ entry policy.temporary_tokens
    pub equal : trim_space entry.token_hash ≡ hash_token platform token
    pub expiry : ℕ
    pub expires : platform.parse_time entry.expires_at ≡ some expiry
    pub alive : now < expiry

  bearer_sound :
      (policy : Policy) (r : Request)
      → bearer_token_authorized platform (some policy) r ≡ true
      → ByBearer policy (trim_space (bearer_token platform r))
  unfolding bearer_token_authorized token_matches_any token_hash_matches
  bearer_sound policy r h =
      let token = trim_space (bearer_token platform r) in
      let l =
        Listed-of_any (token_hash_matches platform (hash_token platform token))
          policy.bearer_token_hashes (ground arith) in
      record {
        long = ground arith;
        hash = l.item;
        listed = l.mem;
        equal = sym ((str_eq_iff (hash_token platform token) (trim_space l.item)).0 l.passes);
      }

  temporary_sound :
      (policy : Policy) (query : Bytes) (now : ℕ)
      → temporary_authorized platform policy query now ≡ true
      → ByTemporary policy (trim_space query) now
  unfolding temporary_authorized accepts token_hash_matches expires_after
  temporary_sound policy query now h =
      let token = trim_space query in
      let l =
        Listed-of_any (accepts platform now (hash_token platform token)) policy.temporary_tokens
          (ground arith) in
      elim (Option-cases (platform.parse_time l.item.expires_at)) [
        | inl e ↦ absurd (ground (arith, l.passes))
        | inr (expiry, e) ↦ record {
          long = ground arith;
          entry = l.item;
          listed = l.mem;
          equal = sym (
              (str_eq_iff (hash_token platform token) (trim_space l.item.token_hash)).0
                (ground (arith, l.passes)));
          expiry = expiry;
          expires = e;
          alive = ground (arith, l.passes);
        }
      ]

  -- A request that `TokenAuthorized` lets through bears, in its Authorization header, a token of at
  -- least 8 bytes whose hash the policy lists; or it has, in its query, a token of at least 8 bytes
  -- whose hash the policy lists among the temporary ones, with a time of expiry that has not come.
  pub token_authorized_sound :
      (policy : Policy) (r : Request) (now : ℕ)
      → token_authorized platform (some policy) r now ≡ true
      → ByBearer policy (trim_space (bearer_token platform r))
        ⊎ ByTemporary policy (trim_space (get query_param (platform.parse_query r.raw_query))) now
  unfolding token_authorized
  token_authorized_sound policy r now h =
      elim (Bool-cases (bearer_token_authorized platform (some policy) r)) [
        | inl e ↦ inl (bearer_sound policy r e)
        | inr e ↦ inr (temporary_sound policy _ now (ground arith))
      ]

  bearer_token_of_header :
      (r : Request) (token : Bytes)
      → get (codes "Authorization") r.header ≡ codes "Bearer " ++ token
      → All Visible token
      → token ≢ []
      → bearer_token platform r ≡ token
  unfolding bearer_token
  bearer_token_of_header r token e v ne =
      rw (e, trim_space_of_ends b'B' (codes "earer ") token (omega arith) v ne)
        (ground (
          arith,
          str_eq_refl (to_lower (codes "Bearer ")),
          trim_space_of_Visible token v,
          length_pos token ne,
        ))

  -- A request with the header "Authorization: Bearer " and a token of visible characters, at least 8
  -- of them, is let through if the policy lists the token's hash.
  pub token_authorized_of_bearer :
      (policy : Policy) (r : Request) (now : ℕ) (token hash : Bytes)
      → get (codes "Authorization") r.header ≡ codes "Bearer " ++ token
      → All Visible token
      → min_token_length ≤ length token
      → Memᴰ hash policy.bearer_token_hashes
      → trim_space hash ≡ hash_token platform token
      → token_authorized platform (some policy) r now ≡ true
  unfolding token_authorized bearer_token_authorized token_matches_any token_hash_matches
  token_authorized_of_bearer policy r now token hash e v long m q = ground (
    arith,
    bearer_token_of_header r token e v (ne_of_long token long),
    ne_of_long token long,
    trim_space_of_Visible token v,
    str_eq_iff token [],
    any_of_mem (token_hash_matches platform (hash_token platform token)) hash
        policy.bearer_token_hashes m
        ((str_eq_iff (hash_token platform token) (trim_space hash)).1 (sym q)),
  )

  -- What is documented of `ParseQuery` and `Encode`: the values of a query without one parameter are those
  -- that are read from their text, and the empty query has none.
  abbrev pub Recodes : Type 0
  Recodes =
      ((raw j : Bytes)
        → lookup j (
            platform.parse_query
              (platform.encode_query (del query_param (platform.parse_query raw))))
          ≡ lookup j (del query_param (platform.parse_query raw)))
      × (platform.parse_query [] ≡ [])

  -- `StripTemporaryTokenQuery` takes the parameter of the temporary token, with all its values, out of the
  -- query, leaves every other parameter with all its values, and changes nothing else of the request, if
  -- reading an encoded query gives its values back and an empty query has none.
  pub strip_temporary_token_query-Drops :
      Recodes
      → (r : Request)
      → Drops query_param
          (platform.parse_query r.raw_query)
          (platform.parse_query (strip_temporary_token_query platform r).raw_query)
        × (strip_temporary_token_query platform r
            ≡ record r { raw_query = (strip_temporary_token_query platform r).raw_query })
  unfolding strip_temporary_token_query lookup
  strip_temporary_token_query-Drops (law, law_nil) r =
      let values = platform.parse_query r.raw_query in
      let Stripped : Request → Type 0 = λ q.
        Drops query_param values (platform.parse_query q.raw_query)
        × (q ≡ record r { raw_query = q.raw_query }) in
      if_elim Stripped (str_eq r.raw_query [])
        (λ empty. (
          Drops-nothing query_param values (
              ap (lookup query_param)
                (ap platform.parse_query ((str_eq_iff r.raw_query []).0 empty) ∙ law_nil)),
          refl,
        ))
        (λ full.
          if_elim Stripped (has query_param values)
            (λ there. ((λ k. law r.raw_query k ∙ lookup-del query_param k values), refl))
            (λ missing.
              (Drops-nothing query_param values (has-none query_param values missing), refl)))

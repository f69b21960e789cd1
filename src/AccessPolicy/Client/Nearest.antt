-- ===== src/AccessPolicy/Client/Nearest.antt =====
-- The address that a trusted proxy adds to the list of forwarded addresses.
use mathlib.Core.List.{reverse-append}
use sealtun.Prelude.{
  Bool, true, false, not, ◌≡◌, refl, sym, ap, ◌∙◌, List, [], ◌∷◌, ◌++◌, reverse, none, some, Bytes,
  codes, str_eq, ◌==◌, all, arith, if◌then◌else◌, if_elim, Bool-cases, inl, inr,
}
use sealtun.Http.{Request, get}
use sealtun.Text.{split, push_first}
use sealtun.Text.Trim.{trim_space}
use sealtun.AccessPolicy.Network.{Net}
use sealtun.AccessPolicy.Client.{
  peer_ip, trusted_proxy_peer, or_ip, first_ip, real_ip, forwarded_ip, client_ip,
}

abbrev no_comma : Bytes → Bool
no_comma s = all (λ c. not (c == b',')) s

split_cases : (s : Bytes) → (p : Bytes) × ((ps : List Bytes) × (split s b',' ≡ p ∷ ps))
unfolding split
split_cases [] = ([], ([], refl))
split_cases (c ∷ s) =
    let (p, (ps, e)) = split_cases s in
    if_elim (λ (r : List Bytes). (q : Bytes) × ((qs : List Bytes) × (r ≡ q ∷ qs))) (c == b',')
      (λ comma. ([], (split s b',', refl))) (λ other. (c ∷ p, (ps, ap (push_first c) e)))

split_plain : (s : Bytes) → no_comma s ≡ true → split s b',' ≡ s ∷ []
unfolding split
split_plain [] h = refl
split_plain (c ∷ s) h =
    if_elim (λ (r : List Bytes). r ≡ (c ∷ s) ∷ []) (c == b',') (λ comma. absurd (ground arith))
      (λ other. ap (push_first c) (split_plain s (ground arith)))

-- What stands behind a comma is a part of its own.
split-append :
    (s t : Bytes) → no_comma t ≡ true → split (s ++ b',' ∷ t) b',' ≡ split s b',' ++ t ∷ []
unfolding split
split-append [] t h = ap (λ ps. [] ∷ ps) (split_plain t h)
split-append (c ∷ s) t h =
    let (p, (ps, e)) = split_cases s in
    let later = split-append s t h in
    elim (Bool-cases (c == b',')) [
      | inl comma ↦ rw comma (ap (λ ps. [] ∷ ps) later)
      | inr other ↦ rw other (
          ap (push_first c) (later ∙ ap (λ l. l ++ t ∷ []) e)
          ∙ ap (λ l. push_first c l ++ t ∷ []) (sym e))
    ]

nonempty_end : (s t : Bytes) → str_eq (s ++ b',' ∷ t) [] ≡ false
unfolding str_eq
nonempty_end [] t = refl
nonempty_end (c ∷ s) t = refl

module _ (net : Net) where
  open net use {Ip, parse_ip}

  no_real_ip : (r : Request) → get (codes "X-Real-Ip") r.header ≡ [] → real_ip net r ≡ none
  unfolding real_ip trim_space str_eq
  no_real_ip r e = ap (λ v. if str_eq (trim_space v) [] then none else parse_ip (trim_space v)) e

  last_ip :
      (before nearest : Bytes) (ip : Ip)
      → no_comma nearest ≡ true
      → parse_ip (trim_space nearest) ≡ some ip
      → first_ip net (reverse (split (before ++ b',' ∷ nearest) b',')) ≡ some ip
  unfolding first_ip
  last_ip before nearest ip plain parsed =
      ap (λ ps. first_ip net (reverse ps)) (split-append before nearest plain)
      ∙ ap (first_ip net) (reverse-append (split before b',') (nearest ∷ []))
      ∙ ap (λ found. or_ip net found (first_ip net (reverse (split before b',')))) parsed

  nearest_forwarded :
      (r : Request) (before nearest : Bytes) (ip : Ip)
      → get (codes "X-Forwarded-For") r.header ≡ before ++ b',' ∷ nearest
      → no_comma nearest ≡ true
      → parse_ip (trim_space nearest) ≡ some ip
      → forwarded_ip net r ≡ some ip
  unfolding forwarded_ip
  nearest_forwarded r before nearest ip e plain parsed =
      ap (λ v. if str_eq v [] then none else first_ip net (reverse (split v b','))) e
      ∙ ap
          (λ empty.
            if empty then none else first_ip net (reverse (split (before ++ b',' ∷ nearest) b',')))
          (nonempty_end before nearest)
      ∙ last_ip before nearest ip plain parsed

  -- Behind a trusted proxy that sends no X-Real-Ip header, the client's address is the one behind the last
  -- comma of X-Forwarded-For, if it is an address: whatever stands before the comma has no effect.
  pub client_ip_nearest :
      (r : Request) (before nearest : Bytes) (ip : Ip)
      → trusted_proxy_peer net (peer_ip net r) ≡ true
      → get (codes "X-Real-Ip") r.header ≡ []
      → get (codes "X-Forwarded-For") r.header ≡ before ++ b',' ∷ nearest
      → no_comma nearest ≡ true
      → parse_ip (trim_space nearest) ≡ some ip
      → client_ip net r ≡ some ip
  unfolding client_ip
  client_ip_nearest r before nearest ip trusted no_real forwarded plain parsed =
      let other = nearest_forwarded r before nearest ip forwarded plain parsed in
      rw (trusted, no_real_ip r no_real, other) refl

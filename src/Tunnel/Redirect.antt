-- ===== src/Tunnel/Redirect.antt =====
-- pkg/tunnel/route_forward.go: the redirects of a service behind a stripped prefix.
use sealtun.Prelude.{
  ◌≡◌, ◌≢◌, sym, ap, ◌∙◌, true, false, not, ◌||◌, [], ◌∷◌, ◌++◌, Bytes, codes, str_eq, str_eq_iff,
  if◌then◌else◌, arith, append_assoc,
}
use sealtun.Http.{Values, get}
use sealtun.Assoc.{insert}
use sealtun.Text.{has_prefix}
use sealtun.Text.Affix.{has_prefix_iff}
use sealtun.Routes.{slash, normalize_path, strip_prefix}
use sealtun.Routes.Prefixes.{IsRooted, strip_prefix-append}

-- The location that is sent in place of the service's.
unfoldable pub redirect_location : (location prefix : Bytes) → Bytes
redirect_location location prefix =
    if str_eq prefix [] || str_eq prefix slash
    then location
    else if not (has_prefix location slash) || has_prefix location (codes "//")
    then location
    else if str_eq location prefix || has_prefix location (prefix ++ slash)
    then location
    else prefix ++ location

-- `rewriteRedirectLocation`, on the header of the response.
unfoldable pub rewrite_redirect_location : Values → Bytes → Values
rewrite_redirect_location header prefix =
    let location = get (codes "Location") header in
    let sent = redirect_location location prefix in
    if str_eq sent location then header else insert (codes "Location") (sent ∷ []) header

below_prefix :
    (prefix location : Bytes)
    → IsRooted location
    → has_prefix (prefix ++ location) (prefix ++ slash) ≡ true
below_prefix prefix location (r, e) =
    (has_prefix_iff (prefix ++ location) (prefix ++ slash)).1
      (r, ap (λ l. prefix ++ l) e ∙ sym (append_assoc prefix slash r))

rooted_test : (location : Bytes) → IsRooted location → has_prefix location slash ≡ true
rooted_test location h = (has_prefix_iff location slash).1 h

-- Behind a normalized prefix other than "/", a location that begins with one slash and is neither
-- the prefix nor below it is sent as a location from which stripping the prefix gives the service's own
-- again, and rewriting what is sent once more changes nothing.
pub redirect_location-strip_prefix :
    (prefix location : Bytes)
    → normalize_path prefix ≡ prefix
    → prefix ≢ []
    → prefix ≢ slash
    → IsRooted location
    → location ≢ []
    → has_prefix location (codes "//") ≡ false
    → location ≢ prefix
    → has_prefix location (prefix ++ slash) ≡ false
    → (strip_prefix prefix (redirect_location location prefix) ≡ location)
      × (redirect_location (redirect_location location prefix) prefix
          ≡ redirect_location location prefix)
unfolding redirect_location
redirect_location-strip_prefix prefix location n ne other r full double differs below =
    let sent : redirect_location location prefix ≡ prefix ++ location = ground (
      arith,
      str_eq_iff prefix [],
      str_eq_iff prefix slash,
      str_eq_iff location prefix,
      rooted_test location r,
    ) in
    let again : redirect_location (prefix ++ location) prefix ≡ prefix ++ location =
      ground (arith, below_prefix prefix location r) in
    (
      ap (strip_prefix prefix) sent
          ∙ strip_prefix-append prefix location n ne other
          ∙ ground (arith, str_eq_iff location [], full),
      ap (λ l. redirect_location l prefix) sent ∙ again ∙ sym sent,
    )

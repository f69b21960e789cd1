-- ===== src/Examples/Paths.antt =====
-- Runs of the protocol and route functions.
use sealtun.Prelude.{
  false, ◌≡◌, ◌≢◌, ◌↔◌, refl, true, List, [], ◌∷◌, none, some, pos, codes, ok, arith, All, str_eq,
  ◌++◌,
}
use sealtun.Text.Trim.{trim_space, IsTrimmed}
use sealtun.Text.{has_prefix, to_lower}
use sealtun.Text.Visible.{Visible-IsTrimmed}
use sealtun.Protocol.{validate_expose, resolve_alias, uses_raw_tcp, normalize}
use sealtun.Protocol.Aliases.{IsCanonical, Settled, resolve_alias-Settled}
use sealtun.Routes.{Route, normalize_path, prefix_matches, match_route, strip_prefix, equal, slash}
use sealtun.Routes.Matching.{IsLongest, Matches, match_route-IsLongest, match_route-eq-none_iff}
use sealtun.Routes.Prefixes.{
  IsRooted, Stripped, normalize_path-IsRooted, normalize_path_idem, strip_prefix-Stripped,
}
use sealtun.Tunnel.Redirect.{redirect_location, redirect_location-strip_prefix}
use sealtun.Routes.Comparison.{rule_count, equal-rule_count_iff}

abbrev table : List Route
table =
    record { path = codes "/"; port = pos 3000 }
    ∷ record { path = codes "/api/"; port = pos 8080 }
    ∷ []

match_api :
    match_route table (codes "/api/users") ≡ some (record { path = codes "/api"; port = pos 8080 })
unfolding match_route normalize_path prefix_matches str_eq trim_space has_prefix
match_api = refl

match_route-IsLongest_example :
    IsLongest table (codes "/api/users") (record { path = codes "/api"; port = pos 8080 })
match_route-IsLongest_example = match_route-IsLongest table (codes "/api/users") match_api

match_route-eq-none_iff_example :
    (match_route table (codes "api") ≡ none) ↔ All (λ s. ¬ Matches (codes "api") s) table
match_route-eq-none_iff_example = match_route-eq-none_iff table (codes "api")

normal_api : normalize_path (codes " api// ") ≡ codes "/api"
unfolding normalize_path str_eq trim_space has_prefix
normal_api = refl

api_nonempty : normalize_path (codes " api// ") ≢ []
api_nonempty = rw normal_api cc

normalize_path-IsRooted_example : IsRooted (normalize_path (codes " api// "))
normalize_path-IsRooted_example = normalize_path-IsRooted (codes " api// ") api_nonempty

api-IsTrimmed : IsTrimmed (normalize_path (codes " api// "))
api-IsTrimmed = rw normal_api (Visible-IsTrimmed (codes "/api") (omega arith))

normalize_path_idem_example :
    normalize_path (normalize_path (codes " api// ")) ≡ normalize_path (codes " api// ")
normalize_path_idem_example = normalize_path_idem (codes " api// ") api-IsTrimmed

api_normal : normalize_path (codes "/api") ≡ codes "/api"
unfolding normalize_path str_eq trim_space has_prefix
api_normal = refl

api_ne_nil : codes "/api" ≢ []
api_ne_nil = cc

api_matches : prefix_matches (codes "/api") (codes "/api/users") ≡ true
unfolding prefix_matches str_eq has_prefix
api_matches = refl

strip_prefix-Stripped_example :
    Stripped (codes "/api") (codes "/api/users") (strip_prefix (codes "/api") (codes "/api/users"))
strip_prefix-Stripped_example =
    strip_prefix-Stripped (codes "/api") (codes "/api/users") api_normal api_ne_nil api_matches

equal-rule_count_iff_example :
    (equal table table ≡ true) ↔ ((r : Route) → rule_count r table ≡ rule_count r table)
equal-rule_count_iff_example = equal-rule_count_iff table table

ssh_accepted : validate_expose (codes " SSH ") ≡ ok tt
unfolding validate_expose normalize str_eq trim_space to_lower
ssh_accepted = refl

resolve_alias-Settled_example :
    IsCanonical (resolve_alias (codes " SSH ")).0
    × Settled (resolve_alias (codes " SSH ")).0
    × (uses_raw_tcp (resolve_alias (codes " SSH ")).0 ≡ uses_raw_tcp (codes " SSH "))
resolve_alias-Settled_example = resolve_alias-Settled (codes " SSH ") ssh_accepted

login_single : has_prefix (codes "/login") (codes "//") ≡ false
unfolding has_prefix
login_single = refl

login_elsewhere : has_prefix (codes "/login") (codes "/api" ++ slash) ≡ false
unfolding has_prefix
login_elsewhere = refl

api_not_slash : codes "/api" ≢ slash
api_not_slash = cc

login_not_api : codes "/login" ≢ codes "/api"
login_not_api = cc

login_ne_nil : codes "/login" ≢ []
login_ne_nil = cc

redirect_location-strip_prefix_example :
    (strip_prefix (codes "/api") (redirect_location (codes "/login") (codes "/api"))
      ≡ codes "/login")
    × (redirect_location (redirect_location (codes "/login") (codes "/api")) (codes "/api")
        ≡ redirect_location (codes "/login") (codes "/api"))
redirect_location-strip_prefix_example =
    redirect_location-strip_prefix (codes "/api") (codes "/login") api_normal api_ne_nil
      api_not_slash (codes "login", refl) login_ne_nil login_single login_not_api login_elsewhere

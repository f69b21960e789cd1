-- ===== src/Examples/Headers.antt =====
-- Two requests with one Authorization header.
use sealtun.Prelude.{◌≡◌, List, [], ◌∷◌, ◌++◌, Bytes, codes, str_eq, refl}
use sealtun.Http.{Request}
use sealtun.PublicAuth.{BasicAuth, check}
use sealtun.Tunnel.BasicCache
use sealtun.Text.Trim.{trim_space}
use sealtun.Tunnel.BasicCache.{Cache, is_cached, check_credentials}
use sealtun.Tunnel.BasicCache.Handlers
use sealtun.Tunnel.BasicCache.Handlers.{
  Place, looking, checking, measuring, Handlers, advance, IsSound, access, stay, then_step,
  Steps-IsSound,
}
use sealtun.Examples.Stand.{zeros, small_world, small_hashing, bearer_request}

abbrev credentials : BasicAuth
credentials = record { username = codes "ann"; password_hash = zeros 58 ++ codes "pw" }

abbrev basic_header : Bytes
basic_header = codes "Basic ok"

abbrev two_requests : List (Bytes × Place)
two_requests = (basic_header, looking) ∷ (basic_header, looking) ∷ []

abbrev both_looking : Handlers
both_looking = record { cache = BasicCache.new; requests = two_requests }

-- One of the two requests is checked while the other one waits.
abbrev one_measuring : Handlers
one_measuring = record {
  cache = BasicCache.new;
  requests = (basic_header, looking) ∷ (basic_header, measuring) ∷ [];
}

abbrev one_checking : Handlers
one_checking = record {
  cache = BasicCache.new;
  requests = (basic_header, looking) ∷ (basic_header, checking) ∷ [];
}

abbrev Leads : Handlers → Handlers → Type 0
Leads = BasicCache.Handlers.Steps small_hashing small_world.parse_basic credentials

abbrev next_of : Place → Cache × Place
next_of = advance small_hashing small_world.parse_basic credentials basic_header BasicCache.new

looked : next_of looking ≡ (BasicCache.new, checking)
unfolding advance str_eq is_cached
looked = refl

checked_right : next_of checking ≡ (BasicCache.new, measuring)
unfolding advance check_credentials check str_eq trim_space sealtun.PublicAuth.validate
    sealtun.PublicAuth.validate_username sealtun.Text.contains sealtun.PublicAuth.has_control_rune
    sealtun.PublicAuth.validate_password_hash sealtun.PublicAuth.is_legacy_sha256_hash
checked_right = refl

both_looking-Path : Leads both_looking one_measuring
both_looking-Path =
    then_step {t = one_checking}
      (then_step stay (
        access ((basic_header, looking) ∷ []) [] basic_header looking checking BasicCache.new refl
          looked))
      (access ((basic_header, looking) ∷ []) [] basic_header checking measuring BasicCache.new refl
        checked_right)

both_looking-IsSound : IsSound small_hashing small_world.parse_basic credentials both_looking
both_looking-IsSound = record { accepted = tt; right = (tt, (tt, tt)) }

Steps-IsSound_example : IsSound small_hashing small_world.parse_basic credentials one_measuring
Steps-IsSound_example =
    Steps-IsSound small_hashing small_world.parse_basic credentials both_looking-Path
      both_looking-IsSound

abbrev basic_request : Request
basic_request = record bearer_request { header = (codes "Authorization", basic_header ∷ []) ∷ [] }

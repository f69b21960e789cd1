-- ===== src/Examples/Sessions.antt =====
-- Runs of the session files on a host whose files hold sessions as they are.
use sealtun.Prelude.{str_eq, refl, true, false, [], ◌∷◌, none, some, pos, codes}
use sealtun.Assoc.{lookup}
use sealtun.Session.{
  TunnelSession, Host, Store, encrypted, decrypt, saving, updating, mutating, write_all,
}
use sealtun.Session.Scrubbed.{IsCodec, IsScrubbed, write_all-IsScrubbed}

abbrev small_host : Host
small_host = record {
  Json = TunnelSession;
  Blob = TunnelSession;
  seal = λ s. s;
  unseal = some;
  to_json = λ s. s;
  of_json = some;
  now = codes "now";
  own_pid = 7;
  start_token = λ pid. codes "start";
}

abbrev live : TunnelSession
live = record {
  tunnel_id = codes "web-1";
  region = codes "r";
  namespace = codes "ns";
  kubeconfig = codes "kube";
  protocol = codes "https";
  host = codes "web.example.com";
  sealos_host = [];
  custom_domain = [];
  public_port = pos 0;
  local_port = codes "3000";
  target_url = [];
  routes = [];
  target_tls = none;
  secret = codes "secret";
  basic_auth = none;
  access_policy = none;
  resource_config = none;
  ttl = [];
  expires_at = [];
  mode = [];
  pid = 7;
  pid_start_token = [];
  connection_state = codes "connected";
  credentials_scrubbed = false;
  last_error = [];
  last_connected_at = [];
  updated_at = [];
  created_at = codes "then";
  resources = [];
}

abbrev wiped : TunnelSession
wiped = record live {
  kubeconfig = [];
  secret = [];
  pid = 0;
  connection_state = codes "stopped";
  credentials_scrubbed = true;
}

abbrev store : Store small_host
store = (codes "web-1", encrypted wiped) ∷ []

small_host-IsCodec : IsCodec small_host
small_host-IsCodec = record { opens = λ plain. refl; reads = λ s. refl }

store-IsScrubbed : IsScrubbed small_host (codes "web-1") store
unfolding lookup decrypt str_eq
store-IsScrubbed = record {
  file = encrypted wiped;
  plain = wiped;
  session = wiped;
  stored = refl;
  opened = refl;
  parsed = refl;
  own = refl;
  clean = record {
    marked = refl;
    secret = refl;
    basic_auth = refl;
    access_policy = refl;
    kubeconfig = refl;
  };
}

write_all-IsScrubbed_example : IsScrubbed small_host (codes "web-1") (
    write_all small_host store
      (saving live ∷ mutating (codes "web-1") (λ s. some (live, true)) ∷ updating live ∷ []))
write_all-IsScrubbed_example =
    write_all-IsScrubbed small_host (codes "web-1") store
      (saving live ∷ mutating (codes "web-1") (λ s. some (live, true)) ∷ updating live ∷ [])
      small_host-IsCodec store-IsScrubbed

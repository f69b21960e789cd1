-- ===== src/Tunnel/BasicCache/Handlers/Alone.antt =====
-- A request in `authorizedBasicAuth` that no other one disturbs.
use sealtun.Prelude.{Bool, [], ◌∷◌, Option, Bytes}
use sealtun.PublicAuth.{BasicAuth, Hashing}
use sealtun.Tunnel.BasicCache.{Cache}
use sealtun.Tunnel.BasicCache.Handlers.{Place, answered, Handlers, Steps}

module _ (hashing : Hashing) (parse_basic : Bytes → Option (Bytes × Bytes))
    (config : BasicAuth) where
  abbrev Leads : Handlers → Handlers → Type 0
  Leads = Steps hashing parse_basic config

  -- One request alone.
  abbrev pub alone : Bytes → Cache × Place → Handlers
  alone header (c, at) = record { cache = c; requests = (header, at) ∷ [] }

  abbrev Reaches : Bytes → Cache × Place → Cache × Bool → Type 0
  Reaches header p (c, b) = Leads (alone header p) (alone header (c, answered b))

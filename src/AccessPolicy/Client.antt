-- ===== src/AccessPolicy/Client.antt =====
-- The address of a client: that of the peer, or the one that a trusted proxy names.
pub mod Nearest
use sealtun.Prelude.{
  Bool, false, ◌||◌, List, [], ◌∷◌, reverse, Option, none, some, Bytes, codes, str_eq,
  if◌then◌else◌, arith, ◌≡◌, ap,
}
use sealtun.Http.{Request, get}
use sealtun.Text.{split}
use sealtun.Text.Trim.{trim_space}
use sealtun.AccessPolicy.Network.{Net}

module _ (net : Net) where
  open net use {Ip, parse_ip, is_loopback, is_private, is_link_local, host_of}

  abbrev host_or : Bytes → Option Bytes → Bytes
  host_or addr none = addr
  host_or addr (some host) = host

  unfoldable pub peer_ip : Request → Option Ip
  peer_ip r = parse_ip (trim_space (host_or r.remote_addr (host_of r.remote_addr)))

  unfoldable pub trusted_proxy_peer : Option Ip → Bool
  trusted_proxy_peer none = false
  trusted_proxy_peer (some ip) = is_loopback ip || is_private ip || is_link_local ip

  abbrev or_ip : Option Ip → Option Ip → Option Ip
  or_ip (some ip) other = some ip
  or_ip none other = other

  -- The first part, in the given order, that is an address.
  unfoldable first_ip : List Bytes → Option Ip
  first_ip [] = none
  first_ip (part ∷ parts) = or_ip (parse_ip (trim_space part)) (first_ip parts)

  unfoldable real_ip : Request → Option Ip
  real_ip r =
      let value = trim_space (get (codes "X-Real-Ip") r.header) in
      if str_eq value [] then none else parse_ip value

  -- The parts are tried from the last.
  unfoldable forwarded_ip : Request → Option Ip
  unfolding first_ip
  forwarded_ip r =
      let value = get (codes "X-Forwarded-For") r.header in
      if str_eq value [] then none else first_ip (reverse (split value b','))

  unfoldable pub client_ip : Request → Option Ip
  unfolding real_ip forwarded_ip
  client_ip r =
      let peer = peer_ip r in
      if trusted_proxy_peer peer then or_ip (real_ip r) (or_ip (forwarded_ip r) peer) else peer

-- ===== src/Session.antt =====
-- pkg/session/session.go: the session files. The directory of sessions is a map from tunnel IDs to
-- files, all of them regular; its lock makes each operation a step on that map. Writing
-- a file, its temporary file and its renaming are one write of the map. Of encryption.go, the choice
-- between encrypted and plain files is modelled; AES-GCM, base64 and JSON are parameters.
pub mod Scrubbed
use sealtun.Prelude.{
  ℕ, ◌≡◌, Bool, true, false, not, ◌&&◌, ◌||◌, List, [], ◌∷◌, ◌++◌, reverse, Option, none, some, ℤ,
  Bytes, codes, str_eq, Result, ok, err, ◌>>=◌, ◌>>◌, guard, or_err, leb, ◌==◌, if◌then◌else◌,
  length, all, drop, is_some,
}
use sealtun.Text.Label.{is_label}
use sealtun.Text.{has_prefix, trim_prefix}
use sealtun.Assoc.{lookup, insert, has}
use sealtun.AccessPolicy.{Policy}
use sealtun.Routes.{Route}

pub data Error : Type 0 where
  id_required invalid_id no_file undecryptable unparsable other_id mutation_failed id_changed :
      Error

pub record BasicAuthConfig : Type 0 where
  pub enabled : Bool
  pub username : Bytes
  pub password_hash : Bytes
  pub password_sha256 : Bytes

pub record ResourceValues : Type 0 where
  pub cpu : Bytes
  pub memory : Bytes

pub record ResourceConfig : Type 0 where
  pub requests : Option ResourceValues
  pub limits : Option ResourceValues

pub record TargetTlsConfig : Type 0 where
  pub insecure_skip_verify : Bool

-- A PID that is not positive is 0.
pub record TunnelSession : Type 0 where
  pub tunnel_id : Bytes
  pub region : Bytes
  pub namespace : Bytes
  pub kubeconfig : Bytes
  pub protocol : Bytes
  pub host : Bytes
  pub sealos_host : Bytes
  pub custom_domain : Bytes
  pub public_port : ℤ
  pub local_port : Bytes
  pub target_url : Bytes
  pub routes : List Route
  pub target_tls : Option TargetTlsConfig
  pub secret : Bytes
  pub basic_auth : Option BasicAuthConfig
  pub access_policy : Option Policy
  pub resource_config : Option ResourceConfig
  pub ttl : Bytes
  pub expires_at : Bytes
  pub mode : Bytes
  pub pid : ℕ
  pub pid_start_token : Bytes
  pub connection_state : Bytes
  pub credentials_scrubbed : Bool
  pub last_error : Bytes
  pub last_connected_at : Bytes
  pub updated_at : Bytes
  pub created_at : Bytes
  pub resources : List Bytes

unfoldable pub validate_tunnel_id : Bytes → Result Error (Unit {0})
validate_tunnel_id id = guard (not (str_eq id [])) id_required >> guard (is_label 55 id) invalid_id

-- What the package uses of other code, in one process: AES-GCM under the key of the sessions with
-- base64 around it, JSON, the clock, its PID and the start tokens of processes.
pub record Host : Type 1 where
  pub Json : Type 0
  pub Blob : Type 0
  pub seal : Json → Blob
  pub unseal : Blob → Option Json
  pub to_json : TunnelSession → Json
  pub of_json : Json → Option TunnelSession
  pub now : Bytes
  pub own_pid : ℕ
  pub start_token : ℕ → Bytes

module _ (host : Host) where
  -- A file has the prefix "STES1:" and a sealed text behind it, or is an old one in plain text.
  pub data File : Type 0 where
    encrypted : host.Blob → File
    plaintext : host.Json → File

  abbrev pub Store : Type 0
  Store = List (Bytes × File)

  unfoldable pub encrypt : host.Json → File
  encrypt plain = encrypted (host.seal plain)

  unfoldable pub decrypt : File → Option host.Json
  decrypt (encrypted blob) = host.unseal blob
  decrypt (plaintext plain) = some plain

  unfoldable pub sync_pid_start_token : TunnelSession → TunnelSession
  sync_pid_start_token s =
      if s.pid == 0
      then record s { pid_start_token = [] }
      else if s.pid == host.own_pid || str_eq s.pid_start_token []
      then record s { pid_start_token = host.start_token s.pid }
      else s

  unfoldable pub scrubbed : TunnelSession → TunnelSession
  scrubbed s = record s {
    secret = [];
    basic_auth = none;
    access_policy = none;
    kubeconfig = [];
    pid = 0;
    connection_state = codes "stopped";
    credentials_scrubbed = true;
    last_error =
        (if str_eq s.last_error [] then codes "local credentials scrubbed" else s.last_error);
  }

  against : TunnelSession → Option TunnelSession → TunnelSession
  unfolding scrubbed
  against next none = next
  against next (some existing) =
      if not (str_eq existing.tunnel_id next.tunnel_id)
      then next
      else if existing.credentials_scrubbed
      then scrubbed next
      else next

  parsed_against : TunnelSession → Option host.Json → Result Error TunnelSession
  unfolding against
  parsed_against next none = err undecryptable
  parsed_against next (some plain) = ok (against next (host.of_json plain))

  -- `preserveScrubbedCredentials` on the file that the session is written over, if there is one.
  unfoldable pub preserve : TunnelSession → Option File → Result Error TunnelSession
  unfolding parsed_against
  preserve next none = ok next
  preserve next (some file) = parsed_against next (decrypt file)

  stamped : TunnelSession → TunnelSession
  stamped s = record s {
    created_at = (if str_eq s.created_at [] then host.now else s.created_at);
    updated_at = host.now;
  }

  -- `saveLockedInDirWithKey`, and `Save` around it.
  unfoldable pub save : Store → TunnelSession → Result Error Store
  unfolding stamped
  save store session = do
    validate_tunnel_id session.tunnel_id
    next ← preserve (sync_pid_start_token (stamped session)) (lookup session.tunnel_id store)
    ok (insert session.tunnel_id (encrypt (host.to_json next)) store)

  unfoldable pub update : Store → TunnelSession → Result Error Store
  update store session = do
    validate_tunnel_id session.tunnel_id
    guard (has session.tunnel_id store) no_file
    save store session

  -- `getLockedFromConfigDir`
  unfoldable pub get : Store → Bytes → Result Error TunnelSession
  get store id = do
    file ← or_err (lookup id store) no_file
    plain ← or_err (decrypt file) undecryptable
    s ← or_err (host.of_json plain) unparsable
    guard (str_eq s.tunnel_id id) other_id
    validate_tunnel_id s.tunnel_id
    ok s

  -- `mutate` gives the changed session and whether it changed, or fails.
  unfoldable pub update_atomic :
      Store → Bytes → (TunnelSession → Option (TunnelSession × Bool)) → Result Error Store
  update_atomic store id mutate = do
    validate_tunnel_id id
    current ← get store id
    (next, changed) ← or_err (mutate current) mutation_failed
    guard (str_eq next.tunnel_id id) id_changed
    if changed then save store next else ok store

  -- The operations that write sessions; a failed one leaves the files as they are.
  pub data Write : Type 0 where
    saving : TunnelSession → Write
    updating : TunnelSession → Write
    mutating : Bytes → (TunnelSession → Option (TunnelSession × Bool)) → Write

  unfoldable pub written : Store → Write → Result Error Store
  written store (saving s) = save store s
  written store (updating s) = update store s
  written store (mutating id mutate) = update_atomic store id mutate

  abbrev pub settled : Store → Result Error Store → Store
  settled store (ok store') = store'
  settled store (err e) = store

  unfoldable pub write_all : Store → List Write → Store
  unfolding written
  write_all store [] = store
  write_all store (w ∷ ws) = write_all (settled store (written store w)) ws

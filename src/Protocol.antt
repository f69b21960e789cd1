-- ===== src/Protocol.antt =====
-- pkg/protocol/protocol.go: the protocol names, their aliases and the checks on them.
pub mod Aliases
use sealtun.Prelude.{
  ℕ, Bool, true, false, ◌||◌, Bytes, codes, str_eq, Result, ok, err, if◌then◌else◌,
}
use sealtun.Text.{to_lower}
use sealtun.Text.Trim.{trim_space}

abbrev pub https : Bytes
https = codes "https"

abbrev pub ssh : Bytes
ssh = codes "ssh"

abbrev pub tcp : Bytes
tcp = codes "tcp"

abbrev pub http : Bytes
http = codes "http"

pub data Error : Type 0 where
  required unsupported : Error

unfoldable pub normalize : Bytes → Bytes
normalize value = to_lower (trim_space value)

unfoldable pub validate_expose : Bytes → Result Error (Unit {0})
validate_expose raw =
    let value = normalize raw in
    if str_eq value https || str_eq value ssh || str_eq value tcp || str_eq value http
    then ok tt
    else if str_eq value (codes "")
    then err required
    else err unsupported

-- The canonical protocol and the alias that was used, "" where none was.
unfoldable pub resolve_alias : Bytes → Bytes × Bytes
resolve_alias value =
    if str_eq (normalize value) ssh
    then (tcp, ssh)
    else if str_eq (normalize value) http
    then (https, http)
    else (normalize value, codes "")

unfoldable pub validate_server : Bytes → Result Error (Unit {0})
validate_server raw =
    let value = normalize raw in
    if str_eq value https || str_eq value ssh || str_eq value tcp
    then ok tt
    else if str_eq value (codes "")
    then err required
    else err unsupported

unfoldable pub uses_raw_tcp : Bytes → Bool
uses_raw_tcp value = str_eq (normalize value) ssh || str_eq (normalize value) tcp

unfoldable pub is_http : Bytes → Bool
is_http value = str_eq (normalize value) https

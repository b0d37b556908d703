-- ===== src/Docker/Remote.antt =====
-- server/internal/docker/remote.go and client.go: the connections to Docker daemons. TLS, X.509, the
-- SSH helper and the constructor of the SDK's client are parameters.
pub mod Verified
use easy_deploy.Prelude.{
  Bool, true, false, not, ◌&&◌, Option, none, some, List, [], ◌∷◌, Text, codes, is_empty,
  if◌then◌else◌,
}
use easy_deploy.Prelude.Prefix.{starts_with}

pub record TlsMaterial : Type 0 where
  pub ca : Text
  pub cert : Text
  pub key : Text

-- `tls.Config`: the client's certificate with its key, the authorities that the server's certificate
-- is checked against, and the least version of TLS.
pub record TlsConfig : Type 0 where
  pub certificate : Text × Text
  pub root_cas : Text
  pub min_version : Text

-- How a daemon is reached.
pub data Transport : Type 0 where
  -- the environment's or the default socket
  local : Transport
  -- the host as it is given: without TLS, whatever its scheme
  plain : Transport
  mutual_tls : TlsConfig → Transport
  -- over the local `ssh`, with these flags
  ssh : List Text → Transport

-- `Client`, as far as the connection goes, with the map of volume helpers empty.
pub record Connection : Type 0 where
  pub host : Text
  pub transport : Transport

-- `tls.X509KeyPair` and `AppendCertsFromPEM`, whether they accept; the host of
-- `GetConnectionHelperWithSSHOpts`; whether `NewClientWithOpts` accepts.
pub record Sdk : Type 0 where
  pub key_pair : Text → Text → Bool
  pub certs_from_pem : Text → Bool
  pub helper_host : Text → List Text → Option Text
  pub new_client : Connection → Bool

abbrev pub ssh_flags : List Text
ssh_flags =
    codes "-o"
    ∷ codes "ConnectTimeout=10"
    ∷ codes "-o"
    ∷ codes "ServerAliveInterval=20"
    ∷ codes "-o"
    ∷ codes "ControlMaster=auto"
    ∷ codes "-o"
    ∷ codes "ControlPath=/tmp/ed-ssh-%C"
    ∷ codes "-o"
    ∷ codes "ControlPersist=5m"
    ∷ codes "-o"
    ∷ codes "StrictHostKeyChecking=accept-new"
    ∷ codes "-o"
    ∷ codes "BatchMode=yes"
    ∷ []

abbrev pub tls_config : TlsMaterial → TlsConfig
tls_config m = record { certificate = (m.cert, m.key); root_cas = m.ca; min_version = codes "1.2" }

module _ (sdk : Sdk) where
  abbrev pub opened : Connection → Option Connection
  opened c = if sdk.new_client c then some c else none

  -- `New`: the local daemon, or the one of DOCKER_HOST.
  unfoldable pub new_local : Text → Option Connection
  new_local host =
      opened (record { host = host; transport = if is_empty host then local else plain })

  abbrev helped : Option Text → Option Connection
  helped none = none
  helped (some host) = opened (record { host = host; transport = ssh ssh_flags })

  unfoldable pub new_ssh_client : Text → Option Connection
  new_ssh_client host = helped (sdk.helper_host host ssh_flags)

  -- With a certificate, its authority and its key must be good.
  unfoldable pub with_tls : Text → TlsMaterial → Option Connection
  with_tls host m =
      if is_empty m.ca
      then none
      else if not (sdk.key_pair m.cert m.key)
      then none
      else if not (sdk.certs_from_pem m.ca)
      then none
      else opened (record { host = host; transport = mutual_tls (tls_config m) })

  abbrev pub over_tcp : Text → Option TlsMaterial → Option Connection
  over_tcp host none = opened (record { host = host; transport = plain })
  over_tcp host (some m) =
      if is_empty m.cert
      then opened (record { host = host; transport = plain })
      else with_tls host m

  -- `none` is an error.
  unfoldable pub new_remote : Text → Option TlsMaterial → Option Connection
  unfolding new_ssh_client with_tls
  new_remote host material =
      if is_empty host
      then none
      else if starts_with (codes "ssh://") host
      then new_ssh_client host
      else over_tcp host material

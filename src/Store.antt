-- ===== src/Store.antt =====
-- server/internal/store: the tables that PostgreSQL keeps, as lists of rows in the order in which
-- they were inserted, and what every statement has in common.
pub mod Registries
pub mod Tunnels
pub mod Users
pub mod Requests
pub mod Grants
pub mod Volumes
pub mod Routes
pub mod Endpoints
pub mod Services
use easy_deploy.Prelude.{
  ℕ, ◌^◌, Bool, ◌&&◌, ltb, leb, List, [], ◌∷◌, Option, Text, codes, if◌then◌else◌,
}
use easy_deploy.Prelude.Int.{ℤ, pos_part, neg_part}
use easy_deploy.Effect.{Result, ok, err, Exec}

-- `store.Role` is a string; the code compares it with these two.
abbrev pub role_admin : Text
role_admin = codes "admin"

abbrev pub role_member : Text
role_member = codes "member"

pub record User : Type 0 where
  pub id : ℤ
  pub username : Text
  pub password_hash : Text
  pub role : Text
  pub cpu_quota_milli : ℤ
  pub mem_quota_mb : ℤ
  pub disk_quota_mb : ℤ

pub data RequestStatus : Type 0 where
  pending approved rejected : RequestStatus

pub record ResourceRequest : Type 0 where
  pub id : ℤ
  pub user_id : ℤ
  pub username : Text
  pub endpoint_id : ℤ
  pub cpu_milli : ℤ
  pub mem_mb : ℤ
  pub disk_mb : ℤ
  pub note : Text
  pub status : RequestStatus
  pub reviewed_by : Text
  pub review_note : Text

-- a row of `user_endpoints`
pub record Grant : Type 0 where
  pub user_id : ℤ
  pub endpoint_id : ℤ
  pub cpu_quota_milli : ℤ
  pub mem_quota_mb : ℤ
  pub disk_quota_mb : ℤ

pub record VolumeSpec : Type 0 where
  pub endpoint_id : ℤ
  pub name : Text
  pub owner : Text
  pub size_mb : ℤ

pub record Route : Type 0 where
  pub id : ℤ
  pub subdomain : Text
  pub container_id : Text
  pub target_host : Text
  pub target_port : ℤ
  pub endpoint_id : ℤ

pub record Endpoint : Type 0 where
  pub id : ℤ
  pub name : Text
  pub host : Text
  pub tls_ca_enc : Text
  pub tls_cert_enc : Text
  pub tls_key_enc : Text

pub record Service : Type 0 where
  pub id : ℤ
  pub name : Text
  pub owner : Text
  pub image : Text
  pub subdomain : Text
  pub container_port : ℤ
  pub network : Text
  pub env : Text
  pub cpu_milli : ℤ
  pub mem_mb : ℤ
  pub replicas : ℤ
  pub min_replicas : ℤ
  pub max_replicas : ℤ
  pub autoscale : Bool
  pub target_cpu_pct : ℤ
  pub git_repo : Text
  pub git_branch : Text
  pub git_dockerfile : Text
  pub webhook_token : Text
  pub last_image : Text
  pub advanced : Text
  pub endpoint_id : ℤ

pub record Registry : Type 0 where
  pub id : ℤ
  pub name : Text
  pub url : Text
  pub username : Text
  pub password_enc : Text
  pub owner : Text

pub record Tunnel : Type 0 where
  pub id : ℤ
  pub kind : Text
  pub name : Text
  pub ssh_host : Text
  pub ssh_port : ℤ
  pub ssh_user : Text
  pub remote_port : ℤ
  pub local_port : ℤ
  pub enabled : Bool

pub record Db : Type 0 where
  pub users : List User
  pub requests : List ResourceRequest
  pub grants : List Grant
  pub volumes : List VolumeSpec
  pub routes : List Route
  pub endpoints : List Endpoint
  pub services : List Service
  pub registries : List Registry
  pub tunnels : List Tunnel
  -- the next value of each table's sequence
  pub next_user : ℕ
  pub next_request : ℕ
  pub next_route : ℕ
  pub next_endpoint : ℕ
  pub next_service : ℕ
  pub next_registry : ℕ
  pub next_tunnel : ℕ
  -- for the statements to come: does the database fail to answer?
  pub outages : List Bool

pub data StoreError : Type 0 where
  -- `ErrNotFound`
  not_found : StoreError
  -- a constraint or the type of a column refused the statement
  conflict : StoreError
  -- the database did not answer
  unavailable : StoreError

abbrev pub Query : Type 0 → Type 0
Query A = Exec Db StoreError A

-- One statement. One that fails changes no table.
unfoldable pub statement : {A : Type 0} → Query A → Query A
statement run db = elim db.outages [
  | [] ↦ run db
  | down ∷ later ↦
      if down
      then (err unavailable, record db { outages = later })
      else run (record db { outages = later })
]

abbrev pub found : {A : Type 0} → Option A → Result StoreError A
found Option.none = err not_found
found (Option.some a) = ok a

-- The database with every statement to come answered.
abbrev pub answering : Db → Db
answering db = record db { outages = [] }

-- The range of an `INTEGER` column.
abbrev pub fits_int4 : ℤ → Bool
fits_int4 n = ltb (pos_part n) (2 ^ 31) && leb (neg_part n) (2 ^ 31)

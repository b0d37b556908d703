-- ===== src/Endpoint.antt =====
-- server/internal/endpoint/endpoint.go: remote environments and the cache of their Docker clients.
pub mod Caching
use easy_deploy.Prelude.{
  ℕ, Bool, true, false, not, ◌&&◌, ◌||◌, Option, none, some, List, [], ◌∷◌, Text, codes, is_empty,
  if◌then◌else◌,
}
use easy_deploy.Prelude.Int.{ℤ, pos, int_eq}
use easy_deploy.Prelude.Rows.{first}
use easy_deploy.Effect.{Result, ok, err, Exec, pure, raise, attempt, ◌>>=◌, ◌>>◌}
use easy_deploy.Store.{Db, StoreError, Endpoint, Query}
use easy_deploy.Store.Endpoints.{create_endpoint, get_endpoint, update_endpoint, delete_endpoint}

pub data EndpointError : Type 0 where
  from_store : StoreError → EndpointError
  from_docker : EndpointError
  invalid : EndpointError

-- The manager's state, over the type of Docker clients.
pub record Hosts (C : Type 0) : Type 0 where
  pub db : Db
  pub clients : List (ℤ × C)

abbrev pub Task : Type 0 → Type 0 → Type 0
Task C A = Exec (Hosts C) EndpointError A

abbrev keep_db :
    {C A : Type 0} → Hosts C → Result StoreError A × Db → Result EndpointError A × Hosts C
keep_db w (ok a, db) = (ok a, record w { db = db })
keep_db w (err e, db) = (err (from_store e), record w { db = db })

abbrev pub stored : {C A : Type 0} → Query A → Task C A
stored q w = keep_db w (q w.db)

module _ {C : Type 0} where
  -- `m.clients[id]`
  unfoldable pub client_at : ℤ → List (ℤ × C) → Option C
  client_at id [] = none
  client_at id ((i, c) ∷ rest) = if int_eq i id then some c else client_at id rest

  unfoldable pub drop_client : ℤ → List (ℤ × C) → List (ℤ × C)
  drop_client id [] = []
  drop_client id ((i, c) ∷ rest) =
      if int_eq i id then drop_client id rest else (i, c) ∷ drop_client id rest

  -- `m.clients[id] = c`
  unfoldable pub put_client : ℤ → C → List (ℤ × C) → List (ℤ × C)
  unfolding drop_client
  put_client id c m = (id, c) ∷ drop_client id m

  -- `delete(m.clients, id)`
  abbrev pub forget : ℤ → Task C Unit
  forget id w = (ok tt, record w { clients = drop_client id w.clients })

  abbrev cached : Option C → Task C C → Task C C
  cached none build = build
  cached (some c) build = pure c

-- `connect` is `docker.NewRemote`, given the host and the TLS material; `encrypt` and `decrypt` are
-- the secret box's, whose errors are dropped; `local` is the client of the local host.
module _ {C : Type 0} (connect : Text → Option (Text × Text × Text) → Option C)
    (encrypt decrypt : Text → Text) (local : C) where
  -- The client that a row stands for.
  unfoldable pub built : Endpoint → Option C
  built e = connect e.host (
      if is_empty e.tls_cert_enc
      then none
      else some (decrypt e.tls_ca_enc, decrypt e.tls_cert_enc, decrypt e.tls_key_enc))

  abbrev connected : Option C → Task C C
  connected none w = (err from_docker, w)
  connected (some c) w = (ok c, w)

  -- `ClientFor` without the lock: it reads the row and connects.
  unfoldable pub build_client : ℤ → Task C C
  unfolding built
  build_client id = do e ← stored (get_endpoint id); connected (built e)

  -- With the lock again it remembers the client.
  unfoldable pub remember : ℤ → C → Task C C
  unfolding put_client
  remember id c w = (ok c, record w { clients = put_client id c w.clients })

  unfoldable pub client_for : ℤ → Task C C
  unfolding client_at build_client remember
  client_for id w =
      if int_eq id (pos 0)
      then pure local w
      else cached (client_at id w.clients) (do c ← build_client id; remember id c) w

  unfoldable pub create : Text → Text → Text → Text → Text → Task C Endpoint
  create name host ca cert key =
      if is_empty name || is_empty host
      then raise invalid
      else stored (
          create_endpoint (record {
            id = pos 0;
            name = name;
            host = host;
            tls_ca_enc = encrypt ca;
            tls_cert_enc = encrypt cert;
            tls_key_enc = encrypt key;
          }))

  -- Without a new certificate the stored TLS material stays.
  abbrev pub settings : ℤ → Text → Text → Text → Text → Text → Endpoint → Endpoint
  settings id name host ca cert key cur = record {
    id = id;
    name = name;
    host = host;
    tls_ca_enc = if is_empty cert then cur.tls_ca_enc else encrypt ca;
    tls_cert_enc = if is_empty cert then cur.tls_cert_enc else encrypt cert;
    tls_key_enc = if is_empty cert then cur.tls_key_enc else encrypt key;
  }

  -- the last statements of `Update`
  unfoldable pub change : ℤ → Endpoint → Task C Endpoint
  unfolding drop_client
  change id new = do stored (update_endpoint new); forget id; pure new

  unfoldable pub update : ℤ → Text → Text → Text → Text → Text → Task C Endpoint
  unfolding change
  update id name host ca cert key =
      if is_empty name || is_empty host
      then raise invalid
      else do cur ← stored (get_endpoint id); change id (settings id name host ca cert key cur)

  unfoldable pub remove : ℤ → Task C Unit
  unfolding drop_client
  remove id = do forget id; stored (delete_endpoint id)

  abbrev shown : Result EndpointError C → (C → Option Text) → Bool × Text
  shown (err e) version = (false, [])
  shown (ok c) version = elim (version c) [ none ↦ (false, []) | some v ↦ (true, v) ]

  -- Reachability and the server's version; `version` is the ping, in time.
  unfoldable pub status : (C → Option Text) → ℤ → Task C (Bool × Text)
  status version id = do r ← attempt (client_for id); pure (shown r version)

-- ===== src/Endpoint/Caching.antt =====
-- When the cached client of an environment is the one that its row stands for.

use easy_deploy.Prelude.{
  ◌≡◌, refl, ap, ◌∙◌, arith, Bool, false, ◌||◌, Option, none, some, List, [], ◌∷◌, ◌++◌, Text,
  is_empty, inl, inr, Bool-cases, if◌then◌else◌,
}
use easy_deploy.Prelude.Int.{ℤ, pos, int_eq, int_eq_iff}
use easy_deploy.Prelude.Rows
use easy_deploy.Prelude.Rows.{first, delete, first-update_self}
use mathlib.Core.Option
use easy_deploy.Effect.{Result, ok, err, ◌>>=◌}
use easy_deploy.Store.{Db, Endpoint, statement}
use easy_deploy.Store.Endpoints.{get_endpoint, update_endpoint, delete_endpoint, create_endpoint}
use easy_deploy.Endpoint.{
  Hosts, EndpointError, Task, stored, client_at, drop_client, put_client, built, client_for,
  build_client, remember, create, settings, change, update, remove,
}

client_at-drop_client :
    {C : Type 0} (id other : ℤ) (m : List (ℤ × C))
    → client_at other (drop_client id m) ≡ (if int_eq id other then none else client_at other m)
unfolding client_at drop_client
client_at-drop_client id other [] = ground arith
client_at-drop_client id other ((i, c) ∷ m) = ground (
  arith,
  client_at-drop_client id other m,
  int_eq_iff i id,
  int_eq_iff i other,
  int_eq_iff id other,
)

abbrev pub with_id : ℤ → Endpoint → Bool
with_id id e = int_eq e.id id

abbrev pub with_settings : Endpoint → Endpoint → Endpoint
with_settings new e = record e {
  name = new.name;
  host = new.host;
  tls_ca_enc = new.tls_ca_enc;
  tls_cert_enc = new.tls_cert_enc;
  tls_key_enc = new.tls_key_enc;
}

first-update_settings :
    (id other : ℤ) (f : Endpoint → Endpoint)
    → ((e : Endpoint) → (f e).id ≡ e.id)
    → (es : List Endpoint) → int_eq id other ≡ false
    → first (with_id other) (Rows.update (with_id id) f es) ≡ first (with_id other) es
unfolding first Rows.update
first-update_settings id other f keep [] h = refl
first-update_settings id other f keep (e ∷ es) h = ground (
  arith,
  keep e,
  first-update_settings id other f keep es h,
  int_eq_iff e.id id,
  int_eq_iff e.id other,
  int_eq_iff id other,
)

first-delete_other :
    (id other : ℤ) (es : List Endpoint)
    → int_eq id other ≡ false
    → first (with_id other) (delete (with_id id) es) ≡ first (with_id other) es
unfolding first delete
first-delete_other id other [] h = refl
first-delete_other id other (e ∷ es) h = ground (
  arith,
  first-delete_other id other es,
  int_eq_iff e.id id,
  int_eq_iff e.id other,
  int_eq_iff id other,
)

module _ {C : Type 0} (connect : Text → Option (Text × Text × Text) → Option C)
    (encrypt decrypt : Text → Text) (local : C) where
  abbrev built_of : Option Endpoint → Option C
  built_of none = none
  built_of (some e) = built connect encrypt decrypt local e

  -- The client that the database stands for.
  abbrev pub current : ℤ → Db → Option C
  current id db = built_of (first (with_id id) db.endpoints)

  built_of-append :
      (id : ℤ) (e : Endpoint) (c : C) (es : List Endpoint)
      → built_of (first (with_id id) es) ≡ some c
      → built_of (first (with_id id) (es ++ e ∷ [])) ≡ some c
  unfolding first
  built_of-append id e c [] h = cc
  built_of-append id e c (g ∷ es) h = ground (arith, built_of-append id e c es)

  -- What is cached for an environment is the client that its row stands for.
  abbrev pub IsFresh : ℤ → Hosts C → Type 0
  IsFresh id w = (c : C) → client_at id w.clients ≡ some c → current id w.db ≡ some c

  client_for-IsFresh :
      (id other : ℤ) (w : Hosts C)
      → IsFresh other w
      → IsFresh other (client_for connect encrypt decrypt local id w).1
  unfolding client_for build_client remember get_endpoint statement client_at put_client
  client_for-IsFresh id other w fresh c there =
      ground (arith, fresh c, client_at-drop_client id other w.clients, int_eq_iff id other)

  create-IsFresh :
      (name host ca cert key : Text) (other : ℤ) (w : Hosts C)
      → IsFresh other w
      → IsFresh other (create connect encrypt decrypt local name host ca cert key w).1
  unfolding create create_endpoint statement
  create-IsFresh name host ca cert key other w fresh c there =
      let new : Endpoint = record {
        id = pos w.db.next_endpoint;
        name = name;
        host = host;
        tls_ca_enc = encrypt ca;
        tls_cert_enc = encrypt cert;
        tls_key_enc = encrypt key;
      } in
      ground (arith, fresh c, built_of-append other new c w.db.endpoints)

  change-IsFresh :
      (id : ℤ) (new : Endpoint) (other : ℤ) (w : Hosts C)
      → new.id ≡ id
      → IsFresh other w
      → IsFresh other (change connect encrypt decrypt local id new w).1
  unfolding change update_endpoint statement
  change-IsFresh id new other w same fresh c there = ground (
    arith,
    fresh c,
    client_at-drop_client id other w.clients,
    first-update_settings new.id other (with_settings new) (λ e. refl) w.db.endpoints,
  )

  bind-IsFresh :
      {A B : Type 0} (p : Result EndpointError A × Hosts C) (f : A → Task C B) (other : ℤ)
      (w : Hosts C)
      → IsFresh other p.1
      → ((a : A) (v : Hosts C) → IsFresh other v → IsFresh other (f a v).1)
      → IsFresh other (((λ _. p) >>= f) w).1
  bind-IsFresh (ok a, v) f other w fresh step = step a v fresh
  bind-IsFresh (err e, v) f other w fresh step = fresh

  read-IsFresh :
      (id other : ℤ) (w : Hosts C) → IsFresh other w → IsFresh other (stored (get_endpoint id) w).1
  unfolding get_endpoint statement
  read-IsFresh id other w fresh c there = ground (arith, fresh c)

  update-IsFresh :
      (id : ℤ) (name host ca cert key : Text) (other : ℤ) (w : Hosts C)
      → IsFresh other w
      → IsFresh other (update connect encrypt decrypt local id name host ca cert key w).1
  unfolding update
  update-IsFresh id name host ca cert key other w fresh =
      elim (Bool-cases (is_empty name || is_empty host)) [
        | inl bad ↦ rw bad fresh
        | inr good ↦ rw good (
            bind-IsFresh (stored (get_endpoint id) w)
              (λ cur.
                change connect encrypt decrypt local id
                  (settings connect encrypt decrypt local id name host ca cert key cur))
              other w (read-IsFresh id other w fresh)
              (λ cur v held.
                change-IsFresh id
                  (settings connect encrypt decrypt local id name host ca cert key cur) other v refl
                  held))
      ]

  remove-IsFresh :
      (id other : ℤ) (w : Hosts C)
      → IsFresh other w
      → IsFresh other (remove connect encrypt decrypt local id w).1
  unfolding remove delete_endpoint statement
  remove-IsFresh id other w fresh c there = ground (
    arith,
    fresh c,
    client_at-drop_client id other w.clients,
    first-delete_other id other w.db.endpoints,
  )

  -- Each operation of the manager, called one after the other, keeps the cache right: what is cached
  -- for an environment stays the client that its row stands for, whatever the database answers.
  pub operations-IsFresh :
      (other : ℤ) (w : Hosts C)
      → IsFresh other w
      → ((id : ℤ) → IsFresh other (client_for connect encrypt decrypt local id w).1)
        × ((name host ca cert key : Text)
            → IsFresh other (create connect encrypt decrypt local name host ca cert key w).1)
        × ((id : ℤ) (name host ca cert key : Text)
            → IsFresh other (update connect encrypt decrypt local id name host ca cert key w).1)
        × ((id : ℤ) → IsFresh other (remove connect encrypt decrypt local id w).1)
  operations-IsFresh other w fresh = (
    λ id. client_for-IsFresh id other w fresh,
    λ name host ca cert key. create-IsFresh name host ca cert key other w fresh,
    λ id name host ca cert key. update-IsFresh id name host ca cert key other w fresh,
    λ id. remove-IsFresh id other w fresh,
  )

  -- The lock is not held while a client is built: where a client is built for a row, the row is then
  -- changed, and the client then remembered, the database stands for the new settings, and whoever
  -- asks for the environment next gets the client of the old ones. The environment is not the local
  -- host, and the database answers.
  pub remember-stale :
      (id : ℤ) (c : C) (row new : Endpoint) (w : Hosts C)
      → int_eq id (pos 0) ≡ false
      → w.db.outages ≡ []
      → first (with_id id) w.db.endpoints ≡ some row
      → built connect encrypt decrypt local row ≡ some c
      → new.id ≡ id
      → let between = (build_client connect encrypt decrypt local id w).1 in
        let changed = (change connect encrypt decrypt local id new between).1 in
        let after = (remember connect encrypt decrypt local id c changed).1 in
        ((build_client connect encrypt decrypt local id w).0 ≡ ok c)
        × (current id after.db ≡ built connect encrypt decrypt local (with_settings new row))
        × ((client_for connect encrypt decrypt local id after).0 ≡ ok c)
  unfolding build_client change remember client_for get_endpoint update_endpoint statement
      put_client client_at
  remember-stale id c row new w remote up there here same =
      rw (up, there, here)
        (
          refl,
          rw same (
              ap built_of (
                first-update_self (with_id id) (with_settings new) (λ e. refl) w.db.endpoints
                ∙ ap (Option.map (with_settings new)) there)),
          rw remote (ground (arith, int_eq_iff id id)),
        )

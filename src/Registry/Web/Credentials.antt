-- ===== src/Registry/Web/Credentials.antt =====
-- The credentials that a registry was created with, at its catalogue.
use easy_deploy.Prelude.{
  ◌≡◌, refl, sym, ap, subst, ◌+◌, arith, false, Option, none, some, List, [], ◌∷◌, ◌++◌, Text,
  length,
}
use easy_deploy.Prelude.Int.{pos, int_eq, int_eq_refl}
use easy_deploy.Prelude.Rows.{exists, first-order_by_last}
use easy_deploy.Effect.{Result, ok, err}
use easy_deploy.Store.{Db, Registry, answering, statement}
use easy_deploy.Store.Registries.{list_registries, insert_registry}
use easy_deploy.Secret as Secret
use easy_deploy.Secret.Sealing.{Reads, decrypt-encrypt}
use easy_deploy.Registry.{Box, create, normalize_host}
use easy_deploy.Registry.Web.{HttpRequest, creds_for}

abbrev to_option : Result Secret.SecretError Text → Option Text
to_option (ok s) = some s
to_option (err e) = none

-- The box that main.go gives the service: `random` are the nonces that it draws.
abbrev pub box_of : Secret.Ciphers → Secret.Box → (Text → Text) → (Text → Text → Text → Text) → Box
box_of c b random encode = record {
  encrypt = λ plaintext. to_option (Secret.encrypt c b (some (random plaintext)) plaintext);
  decrypt = λ stored. to_option (Secret.decrypt c b stored);
  encode = encode;
}

module _ (c : Secret.Ciphers) (reads : Reads c) (b : Secret.Box) (random : Text → Text)
    (encode : Text → Text → Text → Text)
    (size : (t : Text) → length (random t) ≡ c.nonce_size) where
  abbrev pub box : Box
  box = box_of c b random encode

  ok_of_some : (r : Result Secret.SecretError Text) (s : Text) → to_option r ≡ some s → r ≡ ok s
  ok_of_some (ok t) s h = cc
  ok_of_some (err e) s h = cc

  decrypted_back :
      (password enc : Text) → box.encrypt password ≡ some enc → box.decrypt enc ≡ some password
  decrypted_back password enc h = ap to_option (
      decrypt-encrypt c reads b (random password) password (size password) enc (ok_of_some _ enc h))

  abbrev saved : Text → Text → Text → Text → Text → Db → Registry
  saved name url username enc owner db = record {
    id = pos db.next_registry;
    name = name;
    url = normalize_host url;
    username = username;
    password_enc = enc;
    owner = owner;
  }

  abbrev with_row : Registry → Db → Db
  with_row r db = record (answering db) {
    registries = db.registries ++ r ∷ [];
    next_registry = db.next_registry + 1;
  }

  creds_for_saved :
      (password : Text) (r : Registry) (db : Db) (calls : List HttpRequest)
      → exists (λ (o : Registry). int_eq o.id r.id) db.registries ≡ false
      → box.decrypt r.password_enc ≡ some password
      → creds_for box r.id (record { db = with_row r db; sent = calls })
        ≡ (ok (r, password), record { db = with_row r db; sent = calls })
  unfolding creds_for list_registries statement
  creds_for_saved password r db calls fresh back =
      rw
        (first-order_by_last (λ (o : Registry). int_eq o.id r.id) (λ (o : Registry). o.name) r
          db.registries fresh (int_eq_refl r.id))
        (rw back refl)

  created :
      (name url username password owner : Text) (db after : Db) (r : Registry) (o : Option Text)
      → box.encrypt password ≡ o
      → create box name url username password owner (answering db) ≡ (ok r, after)
      → (enc : Text) × (o ≡ some enc)
        × (r ≡ saved name url username enc owner db)
        × (after ≡ with_row r db)
  unfolding create insert_registry statement
  created name url username password owner db after r none q h = absurd (ground arith)
  created name url username password owner db after r (some enc) q h =
      (enc, refl, ground arith, ground arith)

  -- A registry whose creation ends well is found under its id, with the password that it was created
  -- with, as long as the box has the same key. The database answers and had no row with that id, and
  -- the nonces have the right size.
  pub creds_for-create :
      (name url username password owner : Text) (db after : Db) (r : Registry)
      → exists (λ (o : Registry). int_eq o.id (pos db.next_registry)) db.registries ≡ false
      → create box name url username password owner (answering db) ≡ (ok r, after)
      → (r.username ≡ username)
        × (r.owner ≡ owner)
        × ((sent : List HttpRequest)
            → creds_for box r.id (record { db = after; sent = sent })
              ≡ (ok (r, password), record { db = after; sent = sent }))
  creds_for-create name url username password owner db after r fresh h =
      let (enc, q, row, left) =
        created name url username password owner db after r (box.encrypt password) refl h in
      let same : r.id ≡ pos db.next_registry = ap (λ (x : Registry). x.id) row in
      let back : box.decrypt r.password_enc ≡ some password =
        rw row (decrypted_back password enc q) in
      (
        ap (λ (x : Registry). x.username) row,
        ap (λ (x : Registry). x.owner) row,
        λ sent.
            subst
              (λ (d : Db).
                creds_for box r.id (record { db = d; sent = sent })
                ≡ (ok (r, password), record { db = d; sent = sent }))
              (sym left) (creds_for_saved password r db sent (rw same fresh) back),
      )

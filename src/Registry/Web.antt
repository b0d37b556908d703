-- ===== src/Registry/Web.antt =====
-- server/internal/registry/registry.go: the calls of a registry's HTTP interface. The transport and the
-- decoding of JSON are parameters; the requests sent are written down, the latest first.
pub mod Credentials
use easy_deploy.Prelude.{
  ℕ, Bool, true, false, not, ◌==◌, Option, none, some, List, [], ◌∷◌, ◌++◌, Text, codes, is_empty,
  if◌then◌else◌,
}
use easy_deploy.Prelude.Int.{ℤ, int_eq}
use easy_deploy.Prelude.Rows.{first}
use easy_deploy.Effect.{Result, ok, err, Exec, pure, raise, ◌>>=◌, ◌>>◌}
use easy_deploy.Store.{Db, StoreError, Query, Registry}
use easy_deploy.Store.Registries.{list_registries}
use easy_deploy.Registry.{Box, normalize_host}

pub record HttpRequest : Type 0 where
  pub url : Text
  -- the user and the password of basic authentication
  pub auth : Option (Text × Text)

pub record Response : Type 0 where
  pub status : ℕ
  pub body : Text

pub data WebError : Type 0 where
  from_store : StoreError → WebError
  from_box : WebError
  no_registry : WebError
  bad_url : WebError
  unreachable : WebError
  bad_status : ℕ → WebError
  bad_json : WebError

-- Whether `http.NewRequest` takes a URL; what `Do` answers, in time; the list in a field of a body.
pub record Web : Type 0 where
  pub well_formed : Text → Bool
  pub fetch : HttpRequest → Option Response
  pub list_in : Text → Text → Option (List Text)

pub record Wire : Type 0 where
  pub db : Db
  pub sent : List HttpRequest

abbrev pub Task : Type 0 → Type 0
Task A = Exec Wire WebError A

abbrev keep_db : {A : Type 0} → Wire → Result StoreError A × Db → Result WebError A × Wire
keep_db w (ok a, db) = (ok a, record w { db = db })
keep_db w (err e, db) = (err (from_store e), record w { db = db })

abbrev pub stored : {A : Type 0} → Query A → Task A
stored q w = keep_db w (q w.db)

abbrev pub decrypted : Registry → Option Text → Task (Registry × Text)
decrypted r none = raise from_box
decrypted r (some password) = pure (r, password)

abbrev pub opened : Box → Option Registry → Task (Registry × Text)
opened box none = raise no_registry
opened box (some r) = decrypted r (box.decrypt r.password_enc)

-- The registry with an id, among all owners', and its password.
unfoldable pub creds_for : Box → ℤ → Task (Registry × Text)
creds_for box id = do
  regs ← stored (list_registries [])
  opened box (first (λ (r : Registry). int_eq r.id id) regs)

module _ (web : Web) where
  abbrev pub request_to : Text → Text → Text → Text → Text → HttpRequest
  request_to scheme host path username password = record {
    url = scheme ++ (codes "://" ++ (host ++ path));
    auth = if is_empty username then none else some (username, password);
  }

  abbrev send : HttpRequest → Wire → Option Response × Wire
  send req w = (web.fetch req, record w { sent = req ∷ w.sent })

  abbrev answered_or : Option Response × Wire → Task Response → Result WebError Response × Wire
  answered_or (some resp, w) next = (ok resp, w)
  answered_or (none, w) next = next w

  -- One request for each scheme, until one is answered.
  unfoldable pub try_schemes : List Text → Text → Text → Text → Text → Task Response
  try_schemes [] host path username password w = (err unreachable, w)
  try_schemes (scheme ∷ schemes) host path username password w =
      let req = request_to scheme host path username password in
      let later = try_schemes schemes host path username password in
      if web.well_formed req.url then answered_or (send req w) later else (err bad_url, w)

  unfoldable pub exchange : Text → Text → Text → Text → Task Response
  unfolding try_schemes
  exchange host path username password =
      try_schemes (codes "https" ∷ codes "http" ∷ []) host path username password

  abbrev when_ok : {A : Type 0} → Response → Task A → Task A
  when_ok resp next = if resp.status == 200 then next else raise (bad_status resp.status)

  abbrev list_or : Option (List Text) → Task (List Text)
  list_or none = raise bad_json
  list_or (some names) = pure names

  unfoldable pub test_login : Text → Text → Text → Task Unit
  unfolding exchange
  test_login url username password = do
    resp ← exchange (normalize_host url) (codes "/v2/") username password
    when_ok resp (pure tt)

  unfoldable pub catalog : Box → ℤ → Task (List Text)
  unfolding creds_for exchange
  catalog box id = do
    found ← creds_for box id
    resp ← exchange found.0.url (codes "/v2/_catalog?n=100") found.0.username found.1
    when_ok resp (list_or (web.list_in (codes "repositories") resp.body))

  unfoldable pub tags : Box → ℤ → Text → Task (List Text)
  unfolding creds_for exchange
  tags box id repo = do
    found ← creds_for box id
    resp ←
        exchange found.0.url (codes "/v2/" ++ (repo ++ codes "/tags/list")) found.0.username found.1
    when_ok resp (list_or (web.list_in (codes "tags") resp.body))

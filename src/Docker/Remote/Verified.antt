-- ===== src/Docker/Remote/Verified.antt =====
-- Which environments are reached over verified TLS: server/internal/endpoint/endpoint.go's ClientFor with
-- the connections of docker/remote.go and the box of secret/secret.go.
use easy_deploy.Prelude.{
  ◌≡◌, refl, sym, ap, ◌∙◌, arith, true, false, Option, none, some, [], ◌∷◌, Text, codes, is_empty,
  length,
}
use easy_deploy.Prelude.Int.{ℤ}
use easy_deploy.Prelude.Prefix.{starts_with}
use easy_deploy.Effect.{Result, ok, err}
use easy_deploy.Store.{Endpoint}
use easy_deploy.Secret.{Ciphers, Box, SecretError, encrypt, decrypt}
use easy_deploy.Secret.Sealing.{Reads, decrypt-encrypt}
use easy_deploy.Endpoint.{built, settings}
use easy_deploy.Docker.Remote.{
  Sdk, Connection, TlsMaterial, mutual_tls, plain, tls_config, new_remote, with_tls, opened,
}

-- `s, _ := …`: what is left of a call whose error is dropped.
abbrev pub or_blank : Result SecretError Text → Text
or_blank (ok s) = s
or_blank (err e) = []

abbrev material : Option (Text × Text × Text) → Option TlsMaterial
material none = none
material (some (ca, cert, key)) = some (record { ca = ca; cert = cert; key = key })

module _ (sdk : Sdk) (c : Ciphers) (b : Box) where
  abbrev pub connect : Text → Option (Text × Text × Text) → Option Connection
  connect host tls = new_remote sdk host (material tls)

  abbrev pub dec : Text → Text
  dec stored = or_blank (decrypt c b stored)

  -- `random` are the nonces that the box draws, one for each of the texts.
  abbrev pub enc : (Text → Text) → Text → Text
  enc random plaintext = or_blank (encrypt c b (some (random plaintext)) plaintext)

  -- The client that a row of the environments stands for.
  abbrev pub client_of : (Text → Text) → Connection → Endpoint → Option Connection
  client_of random here e = built connect (enc random) dec here e

  module _ (reads : Reads c) (random : Text → Text)
      (size : (t : Text) → length (random t) ≡ c.nonce_size) where
    dec-enc : (t : Text) → dec (enc random t) ≡ t
    unfolding encrypt decrypt
    dec-enc [] = refl
    dec-enc (d ∷ t) =
        ap or_blank (decrypt-encrypt c reads b (random (d ∷ t)) (d ∷ t) (size (d ∷ t)) _ refl)

    dec-ne : (s t : Text) → dec s ≡ t → is_empty t ≡ false → is_empty s ≡ false
    unfolding decrypt
    dec-ne [] t h some_t = cc
    dec-ne (d ∷ s) t h some_t = refl

    module _ (here : Connection) (id : ℤ) (name host ca cert key : Text) (cur : Endpoint) where
      -- The row that a creation or an update with these settings writes.
      abbrev pub row : Endpoint
      row = settings connect (enc random) dec here id name host ca cert key cur

      client_of-row :
          is_empty cert ≡ false
          → is_empty host ≡ false
          → starts_with (codes "ssh://") host ≡ false
          → client_of random here row
            ≡ with_tls sdk host (record { ca = ca; cert = cert; key = key })
      unfolding built new_remote
      client_of-row some_cert some_host no_ssh = rw some_cert (
          rw (dec-ne (enc random cert) cert (dec-enc cert) some_cert) (
            rw (dec-enc ca, dec-enc cert, dec-enc key)
              (rw (some_host, no_ssh) (rw some_cert refl))))

      with_tls-IsVerified :
          (m : TlsMaterial) (client : Connection)
          → with_tls sdk host m ≡ some client
          → (is_empty m.ca ≡ false)
            × (sdk.certs_from_pem m.ca ≡ true)
            × (client ≡ record { host = host; transport = mutual_tls (tls_config m) })
      unfolding with_tls
      with_tls-IsVerified m client h = ground arith

      -- An environment that was stored with a client certificate, and is not reached over SSH, has
      -- clients of one kind only: they show that certificate, and check the daemon's against the
      -- authority that was stored, which is not empty and can be read. The box has the key that the
      -- settings were sealed with, and draws nonces of the right size.
      pub client_of-IsVerified :
          (client : Connection)
          → is_empty cert ≡ false
          → is_empty host ≡ false
          → starts_with (codes "ssh://") host ≡ false
          → client_of random here row ≡ some client
          → (is_empty ca ≡ false)
            × (sdk.certs_from_pem ca ≡ true)
            × (client ≡ record {
              host = host;
              transport =
                  mutual_tls (record {
                    certificate = (cert, key);
                    root_cas = ca;
                    min_version = codes "1.2";
                  });
            })
      client_of-IsVerified client some_cert some_host no_ssh h =
          with_tls-IsVerified (record { ca = ca; cert = cert; key = key }) client
            (sym (client_of-row some_cert some_host no_ssh) ∙ h)

  -- But where the certificate of an environment cannot be decrypted, for instance after a change of
  -- the master key, and the environment is not reached over SSH, its client is one without TLS: the
  -- error is dropped.
  pub client_of-downgrades :
      (random : Text → Text) (here : Connection) (e : Endpoint) (why : SecretError)
      → is_empty e.tls_cert_enc ≡ false
      → decrypt c b e.tls_cert_enc ≡ err why
      → is_empty e.host ≡ false
      → starts_with (codes "ssh://") e.host ≡ false
      → client_of random here e ≡ opened sdk (record { host = e.host; transport = plain })
  unfolding built new_remote
  client_of-downgrades random here e why stored lost some_host no_ssh =
      simp (stored, lost, some_host, no_ssh)

-- ===== src/Placement/Secrets.antt =====
-- What becomes of a cluster's client secret.
use idp_mgmt_operator.Base.{String, none, [], ◌∷◌, ◌≡◌, refl, Bool-cases, inl, inr}
use idp_mgmt_operator.Api.Action.{Result, ok, err, panic, is_not_found, or_not_found}
use idp_mgmt_operator.Api.Meta.{ObjectKey, new_meta, key_of}
use idp_mgmt_operator.Api.Identity.{AuthRealm}
use idp_mgmt_operator.Api.Objects.{Secret}
use idp_mgmt_operator.Api.Client.{Env}
use idp_mgmt_operator.Helpers.Names.{client_secret_name}
use idp_mgmt_operator.Placement.Create.{object_key, create_client_secret}

abbrev pub secret_key : AuthRealm → String → ObjectKey
secret_key auth_realm cluster_name = record {
  name = client_secret_name (object_key auth_realm);
  namespace = cluster_name;
}

module _ {W : Type 0} (env : Env W) where
  keeps-found :
      (random : ObjectKey → String) (cluster_name : String) (auth_realm : AuthRealm) (w : W)
      (secret : Secret)
      → env.secrets.get (secret_key auth_realm cluster_name) w ≡ ok secret
      → create_client_secret env random cluster_name auth_realm w ≡ (ok secret, w)
  unfolding create_client_secret
  keeps-found random cluster_name auth_realm w secret h = rw h

  abbrev new_secret : (ObjectKey → String) → ObjectKey → Secret
  new_secret random key = record {
    meta = new_meta key.name key.namespace;
    type = "";
    contents = ("clientSecret", random key) ∷ [];
  }

  -- What is got after a secret has been made sure of, by what was found before.
  got-after :
      (random : ObjectKey → String) (cluster_name : String) (auth_realm : AuthRealm) (w : W)
      (found : Result Secret) {secret : Secret} {w' : W}
      → ((s s' : Secret) (v v' : W)
          → or_not_found (env.secrets.get (key_of s.meta) v) ≡ ok none
          → env.secrets.create s v ≡ (ok s', v')
          → env.secrets.get (key_of s.meta) v' ≡ ok s')
      → env.secrets.get (secret_key auth_realm cluster_name) w ≡ found
      → create_client_secret env random cluster_name auth_realm w ≡ (ok secret, w')
      → env.secrets.get (secret_key auth_realm cluster_name) w' ≡ ok secret
  unfolding create_client_secret
  got-after random cluster_name auth_realm w (ok s) {secret} {w'} reads e h =
      let held : ◌≡◌ {A = Result Secret × W} (ok s, w) (ok secret, w') = rw e at h in
      let same : w ≡ w' = cc in
      let found : s ≡ secret = cc in let e' = rw same at e in rw found at e'
  got-after random cluster_name auth_realm w (err x) {secret} {w'} reads e h =
      elim (Bool-cases (is_not_found x)) [
        | inl missing ↦
            let written = rw (e, missing) at h in
            reads (new_secret random (secret_key auth_realm cluster_name)) secret w w'
              (rw (e, missing) refl) written
        | inr broken ↦
            let held : ◌≡◌ {A = Result Secret × W} (err x, w) (ok secret, w') =
              rw (e, broken) at h in
            absurd (cc)
      ]
  got-after random cluster_name auth_realm w panic {secret} {w'} reads e h =
      let held : ◌≡◌ {A = Result Secret × W} (panic, w) (ok secret, w') = rw e at h in absurd (cc)

  -- If the API server gives back what it has created, where nothing had that key before, then a
  -- client secret that has once been made sure of is kept: to make sure of it again, with whatever
  -- random text, gives the same secret and writes nothing.
  pub secret_is_stable :
      (random other_random : ObjectKey → String) (cluster_name : String) (auth_realm : AuthRealm)
      (w w' : W) (secret : Secret)
      → ((s s' : Secret) (v v' : W)
          → or_not_found (env.secrets.get (key_of s.meta) v) ≡ ok none
          → env.secrets.create s v ≡ (ok s', v')
          → env.secrets.get (key_of s.meta) v' ≡ ok s')
      → create_client_secret env random cluster_name auth_realm w ≡ (ok secret, w')
      → create_client_secret env other_random cluster_name auth_realm w' ≡ (ok secret, w')
  secret_is_stable random other_random cluster_name auth_realm w w' secret reads h =
      keeps-found other_random cluster_name auth_realm w' secret
        (got-after random cluster_name auth_realm w _ reads refl h)

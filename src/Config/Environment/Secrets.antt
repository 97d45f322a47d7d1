-- ===== src/Config/Environment/Secrets.antt =====
-- `store_secrets`, `load_secrets` and `delete_secrets` of core/app_config.py, over the two stores of
-- core/vault.py: a value for each user (here a team) and key, and whether a call reaches the server.
-- `json` is a parameter.
use stage.Prelude.{
  ℕ, Bool, true, false, Result, ok, err, [], ◌∷◌, ◌++◌, Option, none, some, ◌&&◌, ◌==◌, ◌≡◌, ◌⊎◌,
  if◌then◌else◌, Text, text_eq, codes, str,
}
use stage.Config.Environment.{Dict}

-- SecretStore: what is kept under a user and a key.
abbrev pub Store : Type 0
Store = ℕ → Text → Option Text

unfoldable pub set : Store → ℕ → Text → Option Text → Store
unfolding text_eq
set store user key value u k = if u == user && text_eq k key then value else store u k

unfoldable pub key : ℕ → Text
unfolding str
key deployment_id = codes "deployment_env" ++ 58 ∷ str deployment_id

-- VaultSecretStore and DevSecretStore, and the exception of a server that is not reached.
pub data Backend : Type 0 where
  vault redis : Backend

pub data StoreError : Type 0 where
  unavailable : StoreError

-- `set`, which lets the exception through.
unfoldable pub set_value : Bool → Store → ℕ → Text → Text → Result StoreError Store
unfolding set
set_value true store user key value = ok (set store user key (some value))
set_value false store user key value = err unavailable

-- `delete` and `get`: the Vault store logs or drops the exception, and returns.
unfoldable pub delete_value : Backend → Bool → Store → ℕ → Text → Result StoreError Store
unfolding set
delete_value backend true store user key = ok (set store user key none)
delete_value vault false store user key = ok store
delete_value redis false store user key = err unavailable

unfoldable pub get_value : Backend → Bool → Store → ℕ → Text → Result StoreError (Option Text)
get_value backend true store user key = ok (store user key)
get_value vault false store user key = ok none
get_value redis false store user key = err unavailable

-- `json.dumps` of the secrets, and `json.loads` with `isinstance(data, dict)`: `none` for a text that
-- is no JSON or no object.
module _ (dumps : Dict → Text) (loads : Text → Option Dict) (backend : Backend) where
  -- An empty dictionary is deleted in place of being stored.
  unfoldable pub store_secrets : Bool → Store → ℕ → ℕ → Dict → Result StoreError Store
  unfolding set_value delete_value key
  store_secrets reached store team_id deployment_id [] =
      delete_value backend reached store team_id (key deployment_id)
  store_secrets reached store team_id deployment_id (e ∷ secrets) =
      set_value reached store team_id (key deployment_id) (dumps (e ∷ secrets))

  abbrev or_empty : Option Dict → Dict
  or_empty none = []
  or_empty (some secrets) = secrets

  abbrev read : Option Text → Dict
  read none = []
  read (some []) = []
  read (some (c ∷ raw)) = or_empty (loads (c ∷ raw))

  abbrev read_answer : Result StoreError (Option Text) → Result StoreError Dict
  read_answer (ok raw) = ok (read raw)
  read_answer (err e) = err e

  unfoldable pub load_secrets : Bool → Store → ℕ → ℕ → Result StoreError Dict
  unfolding get_value key
  load_secrets reached store team_id deployment_id =
      read_answer (get_value backend reached store team_id (key deployment_id))

  unfoldable pub delete_secrets : Bool → Store → ℕ → ℕ → Result StoreError Store
  unfolding delete_value key
  delete_secrets reached store team_id deployment_id =
      delete_value backend reached store team_id (key deployment_id)

  -- What an answer of `store_secrets` says. A call that returns has stored the secrets, or it is one that
  -- was to delete them from Vault and did not reach it.
  abbrev pub IsStored : Bool → Store → ℕ → ℕ → Dict → ℕ → ℕ → Result StoreError Store → Type 0
  IsStored reached store team_id deployment_id secrets team deployment (ok store') =
      ((load_secrets true store' team_id deployment_id ≡ ok secrets)
        ⊎ ((secrets ≡ []) × (backend ≡ vault) × (reached ≡ false) × (store' ≡ store)))
      × (load_secrets true store' team deployment ≡ load_secrets true store team deployment)
  IsStored reached store team_id deployment_id secrets team deployment (err e) = reached ≡ false

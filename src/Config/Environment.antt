-- ===== src/Config/Environment.antt =====
-- core/app_config.py: the environment variables and secrets of a deployment, and the secret store of
-- core/vault.py as a map.
pub mod Accepted
pub mod Secrets
use stage.Prelude.{
  ℕ, List, [], ◌∷◌, ◌++◌, Option, none, some, Bool, true, false, not, ◌&&◌, ◌||◌, ◌==◌, leb, any,
  all, select, Result, ok, err, ◌>>=◌, ◌>>◌, ensure, if◌then◌else◌, Text, text_eq, codes, length,
  map, is_lower, is_upper, is_digit, str,
}

-- A dictionary: its keys in order, each once.
abbrev pub Dict : Type 0
Dict = List (Text × Text)

-- One item of the object that is given: `none` for a name that is no string, or for a value that is
-- None; any other value is its `str`.
pub record Item : Type 0 where
  pub name : Option Text
  pub value : Option Text

-- ConfigError, by the check that raises it.
pub data ConfigError : Type 0 where
  too_many bad_name reserved_name no_value too_long null_byte : ConfigError
  clash : List Text → ConfigError

unfoldable pub starts_name : ℕ → Bool
unfolding is_lower is_upper
starts_name c = is_lower c || is_upper c || c == 95

unfoldable pub is_identifier : Text → Bool
unfolding starts_name is_digit all
is_identifier [] = false
is_identifier (c ∷ s) = starts_name c && all (λ d. starts_name d || is_digit d) s

-- The text before a last newline, and the text itself where it does not end in one.
unfoldable pub before_newline : Text → Text
before_newline [] = []
before_newline (c ∷ []) = if c == 10 then [] else c ∷ []
before_newline (c ∷ d ∷ s) = c ∷ before_newline (d ∷ s)

-- ^[A-Za-z_][A-Za-z0-9_]*$ with `match`: `$` also holds before a newline that ends the text.
unfoldable pub is_name : Text → Bool
unfolding is_identifier before_newline
is_name s = is_identifier s || is_identifier (before_newline s)

abbrev pub reserved : List Text
reserved =
    codes "PORT"
    ∷ codes "HOSTNAME"
    ∷ codes "KUBERNETES_SERVICE_HOST"
    ∷ codes "KUBERNETES_SERVICE_PORT"
    ∷ []

abbrev pub max_vars : ℕ
max_vars = 100

abbrev pub max_value : ℕ
max_value = 4096

unfoldable pub is_in : Text → List Text → Bool
unfolding text_eq any
is_in name names = any (text_eq name) names

unfoldable pub has_null : Text → Bool
unfolding any
has_null text = any (λ c. c == 0) text

unfoldable pub check_value : Text → Option Text → Result ConfigError (Text × Text)
unfolding has_null
check_value name none = err no_value
check_value name (some text) = do
  ensure (leb (length text) max_value) too_long
  ensure (not (has_null text)) null_byte
  ok (name, text)

unfoldable pub check_item : Item → Result ConfigError (Text × Text)
unfolding is_name is_in check_value
check_item item = elim item.name [
  | none ↦ err bad_name
  | some name ↦ do
    ensure (is_name name) bad_name
    ensure (not (is_in name reserved)) reserved_name
    check_value name item.value
]

unfoldable pub check_items : List Item → Result ConfigError Dict
unfolding check_item
check_items [] = ok []
check_items (item ∷ items) = do entry ← check_item item; rest ← check_items items; ok (entry ∷ rest)

unfoldable pub validate_env : List Item → Result ConfigError Dict
unfolding check_items
validate_env items = do ensure (leb (length items) max_vars) too_many; check_items items

abbrev pub names : Dict → List Text
names entries = map (λ e. e.0) entries

-- The names that both have.
unfoldable pub clashes : Dict → Dict → List Text
unfolding select is_in
clashes env secrets = select (λ name. is_in name (names secrets)) (names env)

abbrev pub refuse_clash : List Text → Result ConfigError (Unit {0})
refuse_clash [] = ok tt
refuse_clash (name ∷ rest) = err (clash (name ∷ rest))

unfoldable pub assert_disjoint : Dict → Dict → Result ConfigError (Unit {0})
unfolding clashes
assert_disjoint env secrets = refuse_clash (clashes env secrets)

-- The two as a deployment takes them.
unfoldable pub accept : List Item → List Item → Result ConfigError (Dict × Dict)
unfolding validate_env assert_disjoint
accept env_items secret_items = do
  env ← validate_env env_items
  secrets ← validate_env secret_items
  assert_disjoint env secrets
  ok (env, secrets)

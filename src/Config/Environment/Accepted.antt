-- ===== src/Config/Environment/Accepted.antt =====
-- Exactly which configurations are accepted.
use stage.Prelude.{
  ◌≤◌, List, [], ◌∷◌, ◌++◌, Option, none, some, true, false, ◌≡◌, refl, ◌↔◌, arith, Result, ok,
  ensure, leb, any, Text, text_eq, text_eq_iff, All-Elem, length, map, All, Elem, sym, ap, bind_ok,
  ◌∙◌, ensure_ok, select,
}
use stage.Prelude.{is_lower, is_upper, is_digit, all}
use stage.Config.Environment.{
  Dict, Item, ConfigError, starts_name, is_identifier, before_newline, is_name, reserved, max_vars,
  max_value, is_in, has_null, check_value, check_item, check_items, validate_env, names, clashes,
  refuse_clash, assert_disjoint, accept,
}

abbrev pub IsUsable : Text × Text → Type 0
IsUsable (name, value) =
    (is_name name ≡ true)
    × (is_in name reserved ≡ false)
    × (length value ≤ max_value)
    × (has_null value ≡ false)

abbrev pub given : Text × Text → Item
given (name, value) = record { name = some name; value = some value }

check_item_sound :
    (n v : Option Text) (e : Text × Text)
    → check_item (record { name = n; value = v }) ≡ ok e
    → (n ≡ some e.0) × (v ≡ some e.1) × IsUsable e
unfolding check_item check_value
check_item_sound none v e h = ground arith
check_item_sound (some n) none e h = ground arith
check_item_sound (some n) (some v) e h = ground arith

check_item_complete : (e : Text × Text) → IsUsable e → check_item (given e) ≡ ok e
unfolding check_item check_value
check_item_complete (n, v) h = ground arith

item_of :
    (item : Item) (e : Text × Text) → item.name ≡ some e.0 → item.value ≡ some e.1 → item ≡ given e
item_of item e n v = ground arith

check_items_sound :
    (items : List Item) (env : Dict)
    → check_items items ≡ ok env
    → (items ≡ map given env) × All IsUsable env
unfolding check_items
check_items_sound [] env h = ground arith
check_items_sound (item ∷ items) env h =
    let (e, one, more) = bind_ok (check_item item) _ env h in
    let (rest, others, last) = bind_ok (check_items items) _ env more in
    let (n, v, usable) = check_item_sound item.name item.value e one in
    let (same, all_usable) = check_items_sound items rest others in
    ground (arith, item_of item e n v, same, last)

check_items_complete : (env : Dict) → All IsUsable env → check_items (map given env) ≡ ok env
unfolding check_items
check_items_complete [] h = refl
check_items_complete (e ∷ env) h =
    rw (check_item_complete e h.0) (rw (check_items_complete env h.1) refl)

-- What a dictionary of environment variables or of secrets may be.
abbrev pub IsAccepted : List Item → Dict → Type 0
IsAccepted items env = (length items ≤ max_vars) × (items ≡ map given env) × All IsUsable env

validate_env_sound :
    (items : List Item) (env : Dict) → validate_env items ≡ ok env → IsAccepted items env
unfolding validate_env
validate_env_sound items env h =
    let (u, small, checked) =
      bind_ok (ensure (leb (length items) max_vars) ConfigError.too_many) _ env h in
    let (same, usable) = check_items_sound items env checked in
    (
      ground (arith, ensure_ok (leb (length items) max_vars) ConfigError.too_many small),
      same,
      usable,
    )

validate_env_complete :
    (items : List Item) (env : Dict) → IsAccepted items env → validate_env items ≡ ok env
unfolding validate_env
validate_env_complete items env (small, same, usable) =
    ground (arith, check_items_complete env usable, ap check_items same)

-- No name is both.
abbrev pub AreDisjoint : Dict → Dict → Type 0
AreDisjoint env secrets = All (λ name. is_in name (names secrets) ≡ false) (names env)

clash_none :
    (secrets : Dict) (ns : List Text)
    → (select (λ name. is_in name (names secrets)) ns ≡ [])
      ↔ All (λ name. is_in name (names secrets) ≡ false) ns
unfolding select
clash_none secrets [] = (λ h. tt, λ h. refl)
clash_none secrets (n ∷ ns) = (
  λ h. ground (arith, (clash_none secrets ns).0),
  λ h. ground (arith, (clash_none secrets ns).1 h.1, h.0),
)

refuse_clash_ok : (ns : List Text) → refuse_clash ns ≡ ok tt → ns ≡ []
refuse_clash_ok [] h = refl
refuse_clash_ok (n ∷ ns) h = absurd (ground arith)

same_pair :
    (e s env secrets : Dict)
    → (let answer : Result ConfigError (Dict × Dict) = ok (e, s) in answer) ≡ ok (env, secrets)
    → (e ≡ env) × (s ≡ secrets)
same_pair e s env secrets h = ground arith

clashes_cong : (e s env secrets : Dict) → e ≡ env → s ≡ secrets → clashes e s ≡ clashes env secrets
clashes_cong e s env secrets p q = rw p (rw q refl)

-- The configuration of a deployment is accepted exactly if there are at most 100 variables and at most
-- 100 secrets, every name is one that the pattern matches and that the platform does not set, every
-- value is there, has at most 4096 characters and no null byte, and no name is both a variable and a
-- secret; and then what is accepted is what was given.
pub accept_iff :
    (env_items secret_items : List Item) (env secrets : Dict)
    → (accept env_items secret_items ≡ ok (env, secrets))
      ↔ (IsAccepted env_items env × IsAccepted secret_items secrets × AreDisjoint env secrets)
unfolding accept assert_disjoint clashes
accept_iff env_items secret_items env secrets = (
  λ h.
      let (e, first, more) = bind_ok (validate_env env_items) _ (env, secrets) h in
      let (s, second, rest) = bind_ok (validate_env secret_items) _ (env, secrets) more in
      let (u, apart, last) = bind_ok (assert_disjoint e s) _ (env, secrets) rest in
      let (p, q) = same_pair e s env secrets last in
      (
        validate_env_sound env_items env (first ∙ ap ok p),
        validate_env_sound secret_items secrets (second ∙ ap ok q),
        (clash_none secrets (names env)).0
            (sym (clashes_cong e s env secrets p q) ∙ refuse_clash_ok (clashes e s) apart),
      ),
  λ (a, b, d). rw (validate_env_complete env_items env a) (
      rw (validate_env_complete secret_items secrets b)
        (rw ((clash_none secrets (names env)).1 d) refl)),
)

is_in-Elem : (name : Text) (ns : List Text) → is_in name ns ≡ true → Elem name ns
unfolding is_in any
is_in-Elem name [] h = absurd (ground arith)
is_in-Elem name (n ∷ ns) h = ground (arith, (text_eq_iff name n).0, is_in-Elem name ns)

abbrev Passes : Text → Type 0
Passes name = (is_name (name ++ 10 ∷ []) ≡ true) × (is_in (name ++ 10 ∷ []) reserved ≡ false)

reserved_pass : All Passes reserved
unfolding is_name is_in is_identifier starts_name before_newline text_eq any all is_lower is_upper
    is_digit
reserved_pass = ((refl, refl), ((refl, refl), ((refl, refl), ((refl, refl), tt))))

-- A reserved name with a newline behind it is a name for the pattern and is not the reserved one, so it
-- is accepted with any value that fits.
pub newline_name_accepted :
    (name value : Text)
    → is_in name reserved ≡ true
    → length value ≤ max_value
    → has_null value ≡ false
    → validate_env (given (name ++ 10 ∷ [], value) ∷ []) ≡ ok ((name ++ 10 ∷ [], value) ∷ [])
newline_name_accepted name value known fits clean =
    let (matches, unreserved) =
      All-Elem Passes reserved reserved_pass (is_in-Elem name reserved known) in
    validate_env_complete (given (name ++ 10 ∷ [], value) ∷ []) ((name ++ 10 ∷ [], value) ∷ [])
      (omega arith, refl, ((matches, unreserved, fits, clean), tt))

-- ===== src/Spec.antt =====
-- schemas/spec.py with the caps of core/validation.py: the validation of an InfraSpec document.
pub mod Deployable
pub mod Presets
use stage.Prelude.{
  ℕ, ◌+◌, String, List, [], ◌∷◌, ◌++◌, Option, none, some, Bool, true, false, not, ◌&&◌, ◌||◌, ◌==◌,
  leb, str_eq, select, Result, ok, err, ◌>>=◌, ◌>>◌, ensure, rescue, if◌then◌else◌, all, Text,
  length,
}
use stage.Prelude.{is_lower, is_digit, text_eq, ℤ, pos, negsuc}

pub data Role : Type 0 where
  k8s_master k8s_worker docker_host : Role

-- A node as the document has it. Its role is one of the three names, or the document is refused.
pub record NodeSpec : Type 0 where
  pub name : Text
  pub vcpu : ℤ
  pub memory_mb : ℤ
  pub disk_gb : ℤ
  pub role : Role

pub data Mode : Type 0 where
  namespace vm : Mode

pub record ConfigSpec : Type 0 where
  pub kubernetes_version : String
  pub container_runtime : String
  pub cni_plugin : String
  pub docker_version : String

abbrev pub default_config : ConfigSpec
default_config = record {
  kubernetes_version = "1.28";
  container_runtime = "containerd";
  cni_plugin = "calico";
  docker_version = "24.0";
}

pub record InfraSpec : Type 0 where
  pub version : ℤ
  pub project : Text
  pub cidr : Text
  pub domain : Text
  pub nodes : List NodeSpec
  pub config : ConfigSpec
  pub mode : Mode
  pub observability : String

-- What `ipaddress.ip_network(value, strict=True)` gives, or `none` where it raises.
pub record Network : Type 0 where
  pub version : ℕ
  pub is_private : Bool
  pub prefixlen : ℕ

-- The settings behind MAX_NODES_PER_PROJECT, MAX_TOTAL_VCPU and MAX_TOTAL_MEMORY_MB.
pub record Caps : Type 0 where
  pub max_nodes : ℕ
  pub max_total_vcpu : ℕ
  pub max_total_memory_mb : ℕ

pub data SpecError : Type 0 where
  bad_name bad_vcpu bad_memory bad_disk : SpecError
  bad_cidr not_private bad_prefix bad_domain : SpecError
  bad_config bad_version bad_project bad_observability : SpecError
  node_count duplicate_names total_vcpu total_memory one_master : SpecError

-- ^[a-z0-9-]{lo,hi}$
unfoldable pub name_char : ℕ → Bool
unfolding is_lower is_digit
name_char c = is_lower c || is_digit c || c == 45

unfoldable pub is_name : ℕ → ℕ → Text → Bool
unfolding name_char all
is_name lo hi s = all name_char s && (leb lo (length s) && leb (length s) hi)

-- ^[a-z0-9.-]{1,253}$
unfoldable pub is_domain : Text → Bool
unfolding name_char all
is_domain s = all (λ c. name_char c || c == 46) s && (leb 1 (length s) && leb (length s) 253)

-- `lo <= value <= hi`
abbrev pub between : ℕ → ℕ → ℤ → Bool
between lo hi (pos n) = leb lo n && leb n hi
between lo hi (negsuc n) = false

abbrev pub size_of : ℤ → ℕ
size_of (pos n) = n
size_of (negsuc n) = 0

-- The errors of one node's fields.
abbrev pub refuse : Bool → SpecError → List SpecError
refuse true e = []
refuse false e = e ∷ []

unfoldable pub node_errors : NodeSpec → List SpecError
unfolding is_name
node_errors n =
    refuse (is_name 1 20 n.name) bad_name
    ++ (refuse (between 1 8 n.vcpu) bad_vcpu
        ++ (refuse (between 1024 16384 n.memory_mb) bad_memory
            ++ refuse (between 20 200 n.disk_gb) bad_disk))

unfoldable pub nodes_errors : List NodeSpec → List SpecError
unfolding node_errors
nodes_errors [] = []
nodes_errors (n ∷ ns) = node_errors n ++ nodes_errors ns

-- cidr_is_rfc1918
unfoldable pub cidr_errors : Option Network → List SpecError
cidr_errors none = bad_cidr ∷ []
cidr_errors (some net) =
    if not (net.version == 4 && net.is_private)
    then not_private ∷ []
    else refuse (leb 16 net.prefixlen && leb net.prefixlen 28) bad_prefix

unfoldable pub one_of : String → List String → Bool
one_of s [] = false
one_of s (x ∷ xs) = str_eq s x || one_of s xs

unfoldable pub config_errors : ConfigSpec → List SpecError
unfolding one_of
config_errors c =
    refuse
      (one_of c.kubernetes_version ("1.27" ∷ "1.28" ∷ "1.29" ∷ [])
        && (one_of c.container_runtime ("containerd" ∷ "crio" ∷ [])
            && (one_of c.cni_plugin ("calico" ∷ "flannel" ∷ [])
                && one_of c.docker_version ("24.0" ∷ "25.0" ∷ "26.1" ∷ []))))
      bad_config

unfoldable pub is_version_1 : ℤ → Bool
is_version_1 (pos n) = n == 1
is_version_1 (negsuc n) = false

-- The errors that the fields and their validators report.
unfoldable pub field_errors : (Text → Option Network) → InfraSpec → List SpecError
unfolding nodes_errors cidr_errors config_errors is_version_1 is_name is_domain one_of
field_errors ip_network spec =
    refuse (is_version_1 spec.version) bad_version
    ++ (refuse (is_name 3 30 spec.project) bad_project
        ++ (cidr_errors (ip_network spec.cidr)
            ++ (refuse (is_domain spec.domain) bad_domain
                ++ (nodes_errors spec.nodes
                    ++ (config_errors spec.config
                        ++ refuse (one_of spec.observability ("light" ∷ "full" ∷ []))
                            bad_observability)))))

unfoldable pub has_name : Text → List NodeSpec → Bool
unfolding text_eq
has_name name [] = false
has_name name (n ∷ ns) = text_eq n.name name || has_name name ns

-- `len(set(names)) == len(names)`
unfoldable pub unique_names : List NodeSpec → Bool
unfolding has_name
unique_names [] = true
unique_names (n ∷ ns) = not (has_name n.name ns) && unique_names ns

unfoldable pub total : (NodeSpec → ℤ) → List NodeSpec → ℕ
total f [] = 0
total f (n ∷ ns) = size_of (f n) + total f ns

abbrev is_master : Role → Bool
is_master k8s_master = true
is_master _ = false

abbrev is_worker : Role → Bool
is_worker k8s_worker = true
is_worker _ = false

abbrev is_docker : Role → Bool
is_docker docker_host = true
is_docker _ = false

unfoldable pub masters : List NodeSpec → ℕ
unfolding select
masters nodes = length (select (λ (n : NodeSpec). is_master n.role) nodes)

unfoldable pub workers : List NodeSpec → ℕ
unfolding select
workers nodes = length (select (λ (n : NodeSpec). is_worker n.role) nodes)

unfoldable pub docker_only : List NodeSpec → Bool
unfolding all
docker_only nodes = all (λ (n : NodeSpec). is_docker n.role) nodes

-- The validator of the whole model, its checks in order.
unfoldable pub enforce_limits : Caps → List NodeSpec → Result SpecError (Unit {0})
unfolding unique_names total masters workers docker_only
enforce_limits caps nodes = do
  ensure (leb 1 (length nodes) && leb (length nodes) caps.max_nodes) node_count
  ensure (unique_names nodes) duplicate_names
  ensure (leb (total (λ n. n.vcpu) nodes) caps.max_total_vcpu) total_vcpu
  ensure (leb (total (λ n. n.memory_mb) nodes) caps.max_total_memory_mb) total_memory
  ensure (workers nodes == 0 || masters nodes == 1) one_master
  ensure (not (workers nodes == 0 && not (docker_only nodes)) || masters nodes == 1) one_master

checked : Caps → InfraSpec → List SpecError → Result (List SpecError) InfraSpec
unfolding enforce_limits
checked caps spec [] = do rescue (λ e. e ∷ []) (enforce_limits caps spec.nodes); ok spec
checked caps spec (e ∷ es) = err (e ∷ es)

-- InfraSpec.model_validate: the model's validator runs on fields that have no errors.
unfoldable pub validate :
    (Text → Option Network) → Caps → InfraSpec → Result (List SpecError) InfraSpec
unfolding checked field_errors
validate ip_network caps spec = checked caps spec (field_errors ip_network spec)

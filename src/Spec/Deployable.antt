-- ===== src/Spec/Deployable.antt =====
-- Which documents `validate` accepts, said without its checks: the shapes that the platform can deploy.
use stage.Prelude.{
  ℕ, ◌≤◌, List, [], ◌∷◌, ◌++◌, Option, Bool, true, false, select, ok, ◌≡◌, refl, arith, All, ◌⊎◌,
  ◌↔◌, inl, inr, Bool-cases, ◌≢◌, Text, length,
}
use stage.Prelude.{text_eq_iff}
use stage.Prelude.{ℤ, pos, negsuc}
use stage.Spec.{
  docker_host, NodeSpec, InfraSpec, Network, Caps, SpecError, bad_version, bad_project, bad_domain,
  is_name, is_domain, between, refuse, node_errors, nodes_errors, cidr_errors, is_version_1,
  field_errors, has_name, unique_names, total, masters, workers, docker_only, enforce_limits,
  checked, validate,
}

-- A value of a document that is a natural number in a range.
abbrev pub IsBetween : ℕ → ℕ → ℤ → Type 0
IsBetween lo hi v = (n : ℕ) × (v ≡ pos n) × (lo ≤ n) × (n ≤ hi)

-- No name of the list is among those before it.
abbrev pub AreNamedApart : List NodeSpec → Type 0
AreNamedApart [] = Unit
AreNamedApart (n ∷ ns) = All (λ (m : NodeSpec). m.name ≢ n.name) ns × AreNamedApart ns

-- Either every node is a docker host, or exactly one is the master.
abbrev pub HasTopology : List NodeSpec → Type 0
HasTopology nodes = All (λ (n : NodeSpec). n.role ≡ docker_host) nodes ⊎ (masters nodes ≡ 1)

pub record IsDeployable (caps : Caps) (nodes : List NodeSpec) : Type 0 where
  pub some_node : 1 ≤ length nodes
  pub node_cap : length nodes ≤ caps.max_nodes
  pub names : AreNamedApart nodes
  pub vcpu_cap : total (λ n. n.vcpu) nodes ≤ caps.max_total_vcpu
  pub memory_cap : total (λ n. n.memory_mb) nodes ≤ caps.max_total_memory_mb
  pub topology : HasTopology nodes

has_name-All :
    (name : Text) (nodes : List NodeSpec)
    → (has_name name nodes ≡ false → All (λ (m : NodeSpec). m.name ≢ name) nodes)
      × (All (λ (m : NodeSpec). m.name ≢ name) nodes → has_name name nodes ≡ false)
unfolding has_name
has_name-All name [] = (λ h. tt, λ h. refl)
has_name-All name (n ∷ ns) = (
  λ h. (λ e. ground (arith, text_eq_iff n.name name), (has_name-All name ns).0 (ground arith)),
  λ h. ground (arith, text_eq_iff n.name name, (has_name-All name ns).1 h.1),
)

unique_names_iff :
    (nodes : List NodeSpec)
    → (unique_names nodes ≡ true → AreNamedApart nodes)
      × (AreNamedApart nodes → unique_names nodes ≡ true)
unfolding unique_names
unique_names_iff [] = (λ h. tt, λ h. refl)
unique_names_iff (n ∷ ns) = (
  λ h. ((has_name-All n.name ns).0 (ground arith), (unique_names_iff ns).0 (ground arith)),
  λ h. ground (arith, (has_name-All n.name ns).1 h.0, (unique_names_iff ns).1 h.1),
)

docker_only_iff :
    (nodes : List NodeSpec)
    → (docker_only nodes ≡ true → All (λ (n : NodeSpec). n.role ≡ docker_host) nodes)
      × (All (λ (n : NodeSpec). n.role ≡ docker_host) nodes → docker_only nodes ≡ true)
unfolding docker_only
docker_only_iff [] = (λ h. tt, λ h. refl)
docker_only_iff (n ∷ ns) = (
  λ h. (ground arith, (docker_only_iff ns).0 (ground arith)),
  λ h. ground (arith, (docker_only_iff ns).1 h.1),
)

docker_only-workers : (nodes : List NodeSpec) → docker_only nodes ≡ true → workers nodes ≡ 0
unfolding docker_only workers select
docker_only-workers [] h = refl
docker_only-workers (n ∷ ns) h = ground (arith, docker_only-workers ns)

module _ (caps : Caps) (nodes : List NodeSpec) where
  enforce_limits_sound : enforce_limits caps nodes ≡ ok tt → IsDeployable caps nodes
  unfolding enforce_limits
  enforce_limits_sound h = record {
    some_node = ground arith;
    node_cap = ground arith;
    names = (unique_names_iff nodes).0 (ground arith);
    vcpu_cap = ground arith;
    memory_cap = ground arith;
    topology = elim (Bool-cases (docker_only nodes)) [
      | inl docker ↦ inl ((docker_only_iff nodes).0 docker)
      | inr other ↦ inr (ground arith)
    ];
  }

  enforce_limits_complete : IsDeployable caps nodes → enforce_limits caps nodes ≡ ok tt
  unfolding enforce_limits
  enforce_limits_complete d =
      let named = (unique_names_iff nodes).1 d.names in
      elim (d.topology) [
        | inl docker ↦
            let only = (docker_only_iff nodes).1 docker in
            ground (arith, docker_only-workers nodes only)
        | inr one ↦ ground arith
      ]

  -- The checks of the whole document pass exactly for a deployable list of nodes: between one and the
  -- cap in number, with different names, within the caps in total, and either all docker hosts or with
  -- exactly one master.
  pub enforce_limits_iff : (enforce_limits caps nodes ≡ ok tt) ↔ IsDeployable caps nodes
  enforce_limits_iff = (enforce_limits_sound, enforce_limits_complete)

-- The fields of one node, within the limits of core/validation.py.
pub record IsSized (n : NodeSpec) : Type 0 where
  pub name : is_name 1 20 n.name ≡ true
  pub vcpu : IsBetween 1 8 n.vcpu
  pub memory_mb : IsBetween 1024 16384 n.memory_mb
  pub disk_gb : IsBetween 20 200 n.disk_gb

nil_of_append : (xs ys : List SpecError) → xs ++ ys ≡ [] → (xs ≡ []) × (ys ≡ [])
nil_of_append [] ys h = (refl, h)
nil_of_append (x ∷ xs) ys h = cc

last_of_four : (a b c d e : List SpecError) → a ++ (b ++ (c ++ (d ++ e))) ≡ [] → e ≡ []
last_of_four a b c d e h =
    (nil_of_append d e
      (nil_of_append c (d ++ e)
        (nil_of_append b (c ++ (d ++ e)) (nil_of_append a (b ++ (c ++ (d ++ e))) h).1).1).1).1

IsBetween_of : (lo hi : ℕ) (v : ℤ) → between lo hi v ≡ true → IsBetween lo hi v
IsBetween_of lo hi (pos n) h = (n, refl, ground arith, ground arith)
IsBetween_of lo hi (negsuc n) h = cc

accepted : (b : Bool) (e : SpecError) → refuse b e ≡ [] → b ≡ true
accepted true e h = refl
accepted false e h = cc

node_errors-IsSized : (n : NodeSpec) → node_errors n ≡ [] → IsSized n
unfolding node_errors
node_errors-IsSized n h =
    let (name, rest) = nil_of_append _ _ h in
    let (vcpu, rest') = nil_of_append _ _ rest in
    let (memory, disk) = nil_of_append _ _ rest' in
    record {
      name = accepted _ _ name;
      vcpu = IsBetween_of 1 8 n.vcpu (accepted _ _ vcpu);
      memory_mb = IsBetween_of 1024 16384 n.memory_mb (accepted _ _ memory);
      disk_gb = IsBetween_of 20 200 n.disk_gb (accepted _ _ disk);
    }

nodes_errors-IsSized : (nodes : List NodeSpec) → nodes_errors nodes ≡ [] → All IsSized nodes
unfolding nodes_errors
nodes_errors-IsSized [] h = tt
nodes_errors-IsSized (n ∷ ns) h =
    let (here, there) = nil_of_append (node_errors n) (nodes_errors ns) h in
    (node_errors-IsSized n here, nodes_errors-IsSized ns there)

module _ (ip_network : Text → Option Network) (caps : Caps) (spec spec' : InfraSpec)
    (valid : validate ip_network caps spec ≡ ok spec') where
  checked_parts :
      (es : List SpecError)
      → checked caps spec es ≡ ok spec'
      → (es ≡ []) × (enforce_limits caps spec.nodes ≡ ok tt) × (spec' ≡ spec)
  unfolding checked
  checked_parts [] h = (refl, ground arith, ground arith)
  checked_parts (e ∷ es) h = cc

  -- A document that validates is passed on unchanged, its nodes are deployable together, and each has a
  -- safe name, 1 to 8 vCPUs, 1024 to 16384 MB of memory and 20 to 200 GB of disk.
  pub validate_sound : (spec' ≡ spec) × IsDeployable caps spec.nodes × All IsSized spec.nodes
  unfolding validate
  validate_sound =
      let (clean, limits, same) = checked_parts (field_errors ip_network spec) valid in
      let (nodes, _) = nil_of_append (nodes_errors spec.nodes) _ (
        last_of_four (refuse (is_version_1 spec.version) bad_version)
          (refuse (is_name 3 30 spec.project) bad_project) (cidr_errors (ip_network spec.cidr))
          (refuse (is_domain spec.domain) bad_domain) _ (unfold field_errors in clean)) in
      (same, (enforce_limits_iff caps spec.nodes).0 limits, nodes_errors-IsSized spec.nodes nodes)

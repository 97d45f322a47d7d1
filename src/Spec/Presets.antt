-- ===== src/Spec/Presets.antt =====
-- core/presets.py: the environment sizes, and the document that each expands to.
use stage.Prelude.{pos}
use stage.Prelude.{ℕ, zero, suc, ◌+◌, ◌-◌, List, [], ◌∷◌, ◌++◌, Option, none, some, find, Text}
use stage.Prelude.{codes, str, text_eq}
use stage.Spec.{
  Role, k8s_master, k8s_worker, NodeSpec, InfraSpec, vm, default_config, nodes_errors,
  config_errors, enforce_limits, validate, is_domain,
}

pub record Preset : Type 0 where
  pub name : Text
  pub node_count : ℕ
  pub vcpu : ℕ
  pub memory_mb : ℕ
  pub disk_gb : ℕ

abbrev node : Preset → Text → Role → NodeSpec
node p name role = record {
  name = name;
  vcpu = pos p.vcpu;
  memory_mb = pos p.memory_mb;
  disk_gb = pos p.disk_gb;
  role = role;
}

-- `for index in range(index, index + count)`
unfoldable pub worker_nodes : Preset → ℕ → ℕ → List NodeSpec
unfolding str
worker_nodes p zero index = []
worker_nodes p (suc count) index =
    node p (codes "worker-" ++ str index) k8s_worker ∷ worker_nodes p count (index + 1)

-- Preset.nodes
unfoldable pub nodes : Preset → List NodeSpec
unfolding worker_nodes
nodes p = node p (codes "master") k8s_master ∷ worker_nodes p (p.node_count - 1) 1

abbrev pub small : Preset
small = record { name = codes "small"; node_count = 1; vcpu = 2; memory_mb = 4096; disk_gb = 30 }

abbrev pub medium : Preset
medium = record { name = codes "medium"; node_count = 2; vcpu = 4; memory_mb = 8192; disk_gb = 40 }

abbrev pub large : Preset
large = record { name = codes "large"; node_count = 3; vcpu = 4; memory_mb = 8192; disk_gb = 50 }

abbrev pub presets : List Preset
presets = small ∷ medium ∷ large ∷ []

-- The network of a document: its CIDR and its domain.
abbrev or_default : Option (Text × Text) → Text × Text
or_default none = (codes "192.168.56.0/24", codes "devops.local")
or_default (some network) = network

expand : Text → Option (Text × Text) → Preset → InfraSpec
unfolding nodes
expand project_name network p = record {
  version = pos 1;
  project = project_name;
  cidr = (or_default network).0;
  domain = (or_default network).1;
  nodes = nodes p;
  config = default_config;
  mode = vm;
  observability = "light";
}

-- The document of a preset, with the defaults of InfraSpec; `none` stands for the ValueError.
unfoldable pub expand_preset : Text → Text → Option (Text × Text) → Option InfraSpec
unfolding find text_eq expand
expand_preset preset project_name network =
    elim (find (λ (p : Preset). text_eq p.name preset) presets) [
      | none ↦ none
      | some p ↦ some (expand project_name network p)
    ]

concrete : Unit {0}
unfolding nodes validate nodes_errors config_errors enforce_limits is_domain
concrete = tt

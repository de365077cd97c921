-- ===== src/Component/Config/Merge.antt =====
-- `mergeConfig` of lib/lib/base_component.js: the configuration that the classes of a component and
-- its mixins add up to.
use node_logstash.Js.Value.{Fields, end}
use node_logstash.Js.Object.{set_all}
use node_logstash.Component.Config.{Config, PortField, no_port, minus_one, port_named, Hook}
use node_logstash.Prelude.{Bool, false, ◌||◌, Option, none, some, List, [], ◌∷◌, ◌++◌, Text}

-- What is merged: `none` and `no_port` are missing, and so are empty lists and objects, which add
-- nothing.
pub record PartialConfig : Type 0 where
  pub host_field : Option Text
  pub port_field : PortField
  pub allow_empty_host : Bool
  pub required_params : List Text
  pub optional_params : List Text
  pub default_values : Fields
  pub arrays : List Text
  pub hashes : List Text
  pub start_hook : Option Hook
  pub config_hook : Option Hook

-- What a component is made of.
pub record Component : Type 0 where
  pub config : Config
  pub start_hooks : List Hook
  pub config_hooks : List Hook

unfoldable pub base_component : Component
base_component = record {
  config = record {
    host_field = none;
    port_field = no_port;
    allow_empty_host = false;
    required_params = [];
    optional_params = [];
    default_values = end;
    arrays = [];
    hashes = [];
  };
  start_hooks = [];
  config_hooks = [];
}

-- An empty name is falsy.
abbrev or_host : Option Text → Option Text → Option Text
or_host none old = old
or_host (some []) old = old
or_host (some (c ∷ s)) old = some (c ∷ s)

abbrev or_port : PortField → PortField → PortField
or_port no_port old = old
or_port (port_named []) old = old
or_port (port_named (c ∷ s)) old = port_named (c ∷ s)
or_port minus_one old = minus_one

abbrev pub hooks_of : Option Hook → List Hook
hooks_of none = []
hooks_of (some h) = h ∷ []

unfoldable pub merge_config : PartialConfig → Component → Component
unfolding set_all
merge_config p c = record {
  config = record {
    host_field = or_host p.host_field c.config.host_field;
    port_field = or_port p.port_field c.config.port_field;
    allow_empty_host = p.allow_empty_host || c.config.allow_empty_host;
    required_params = c.config.required_params ++ p.required_params;
    optional_params = c.config.optional_params ++ p.optional_params;
    default_values = set_all p.default_values c.config.default_values;
    arrays = c.config.arrays ++ p.arrays;
    hashes = c.config.hashes ++ p.hashes;
  };
  start_hooks = c.start_hooks ++ hooks_of p.start_hook;
  config_hooks = c.config_hooks ++ hooks_of p.config_hook;
}

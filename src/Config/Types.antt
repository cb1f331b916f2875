-- ===== src/Config/Types.antt =====
-- config.rs: the parts of a configuration. A directory is a path, empty where it has not been set.
use ferrumdns.Base.{ℕ, Option, List, Text}
use ferrumdns.Yaml.{Value}

pub record LogConfig : Type 0 where
  pub level : Text
  pub file : Option Text

pub record PluginConfig : Type 0 where
  pub tag : Option Text
  pub ty : Text
  pub args : Value
  pub base_dir : Text

pub record ListenerConfig : Type 0 where
  pub protocol : Text
  pub addr : Text
  pub cert : Option Text
  pub key : Option Text
  pub url_path : Option Text
  pub idle_timeout : Option ℕ
  pub workers : Option ℕ

-- The timeout is in seconds.
pub record ServerConfig : Type 0 where
  pub exec : Text
  pub timeout : ℕ
  pub listeners : List ListenerConfig

pub record ApiConfig : Type 0 where
  pub http : Option Text

pub record Config : Type 0 where
  pub log : LogConfig
  pub include : List Text
  pub plugins : List PluginConfig
  pub servers : List ServerConfig
  pub api : ApiConfig
  pub base_dir : Text

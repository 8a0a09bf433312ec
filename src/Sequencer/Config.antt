-- ===== src/Sequencer/Config.antt =====
-- crates/sequencer/src/config.rs. The crates `dotenvy` and `config` are parameters: what they read
-- and build.
use tiny_sp1_rollup.Base.{ℕ, Bool, String, Option, Outcome, ok, ◌>>=◌, ok_or}
use tiny_sp1_rollup.Base.Bytes.{Bytes}

pub record ServerConfig : Type 0 where
  -- a `u16`
  pub port : ℕ
  pub host : String

pub record L1Config : Type 0 where
  pub enabled : Bool
  pub rpc_url : String
  -- an address, of 20 bytes
  pub bridge_address : Bytes
  pub private_key : String

pub record DbConfig : Type 0 where
  pub state_tree_path : String
  pub queues_path : String

pub record AppConfig : Type 0 where
  pub server : ServerConfig
  pub l1 : L1Config
  pub database : DbConfig

-- What stands outside when the configuration is loaded: the build from `config/default` and the
-- variables, those of an `.env` file among them, and its values as an `AppConfig`.
pub record Sources : Type 1 where
  pub Config : Type 0
  pub build : Option Config
  pub try_deserialize : Config → Option AppConfig

-- `AppConfig::load`; the result of `dotenv` is dropped.
unfoldable pub load : Sources → Outcome String AppConfig
load sources = do
  s ← ok_or sources.build "failed to build config"
  config ← ok_or (sources.try_deserialize s) "failed to deserialize config"
  ok config

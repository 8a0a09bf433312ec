-- ===== src/Sequencer/Launch.antt =====
-- `main` of crates/sequencer/src/main.rs from the configuration to the start of the workers, and
-- `open_db` of crates/sequencer/src/persistence.rs. Printing and the server are left out.
use tiny_sp1_rollup.Base.{
  ◌≡◌, ◌≢◌, refl, ◌∙◌, ap, sym, Bool, true, List, [], ◌∷◌, String, Option, some, Outcome, ok, err,
  none, ok_or, ◌>>=◌, ◌>>◌, bind_inv, ok-injective,
}
use tiny_sp1_rollup.Stf.Digest.{Hash, default}
use tiny_sp1_rollup.Contract.{Contract}
use tiny_sp1_rollup.Sequencer.Config.{AppConfig, Sources, load}
use tiny_sp1_rollup.Sequencer.Queue.{ColumnFamily, pending_blocks, failed_blocks, meta, context}
use tiny_sp1_rollup.Sequencer.Worker.{Outside, System, initial_root, start_up}

-- `Options` and the names of the descriptors, as `open_cf_descriptors` takes them.
pub record OpenOptions : Type 0 where
  pub create_if_missing : Bool
  pub create_missing_column_families : Bool
  pub descriptors : List String

-- The name of a column family.
abbrev pub cf_name : ColumnFamily → String
cf_name pending_blocks = "pending_blocks"
cf_name failed_blocks = "failed_blocks"
cf_name meta = "meta"

-- What the start takes from the machine: the configuration, the SP1 client's setup, the tree at a
-- path and its head root, the parse of a URL, and RocksDB's opening of a path. The flag
-- `l1.enabled` of the configuration that loads is that of `o`.
pub record Machine (o : Outside) : Type 1 where
  pub sources : Sources
  pub setup : Outcome String (Unit {0})
  pub new_tree : String → o.db.Tree
  pub get_headroot : o.db.Tree → Outcome String (Option Hash)
  pub set_headroot : o.db.Tree → Hash → o.db.Tree
  pub parse_url : String → Outcome String (Unit {0})
  pub open_cf_descriptors : OpenOptions → String → Outcome String o.rocks.Db
  pub enabled-eq :
      (config : AppConfig) → load sources ≡ ok config → config.l1.enabled ≡ o.l1_enabled

abbrev pub db_options : OpenOptions
db_options = record {
  create_if_missing = true;
  create_missing_column_families = true;
  descriptors = "default" ∷ cf_name meta ∷ cf_name pending_blocks ∷ cf_name failed_blocks ∷ [];
}

module _ (o : Outside) (machine : Machine o) where
  unfoldable pub open_db : String → Outcome String o.rocks.Db
  open_db path =
      context "open_db open_cf_descriptors err" (machine.open_cf_descriptors db_options path)

  -- `if tree.get_headroot()?.is_none() { tree.set_headroot(Some(&empty_root)) }`
  unfoldable pub with_headroot : o.db.Tree → Option Hash → o.db.Tree
  with_headroot tree none = machine.set_headroot tree default
  with_headroot tree (some root) = tree

  -- `main`, up to the start of the workers, with the contract at the bridge's address.
  unfoldable pub launch : Contract → Outcome String (System o)
  unfolding open_db with_headroot
  launch contract = do
    config ← context "main load_config err" (load machine.sources)
    context "main setup_prover err" machine.setup
    let tree = machine.new_tree config.database.state_tree_path
    headroot ← machine.get_headroot tree
    let tree = with_headroot tree headroot
    headroot ← machine.get_headroot tree
    initial_root ← ok_or headroot "main get_headroot err"
    machine.parse_url config.l1.rpc_url
    queue ← open_db config.database.queues_path
    start_up o tree (some initial_root) queue contract

  -- Without a URL for L1 the sequencer does not start. If the configuration loads and its `rpc_url`
  -- does not parse, then the start fails, also if the configuration disables L1.
  pub unparsed_url_refused :
      (config : AppConfig) (e : String)
      → load machine.sources ≡ ok config
      → machine.parse_url config.l1.rpc_url ≡ err e
      → (contract : Contract) (s : System o) → launch contract ≢ ok s
  unfolding launch
  unparsed_url_refused config e loaded unparsed contract s done =
      let (c, l, d₁) = bind_inv _ (context "main load_config err" (load machine.sources)) done in
      let same : c ≡ config = ok-injective (sym l ∙ rw loaded refl) in
      let (_, _, d₂) = bind_inv _ (context "main setup_prover err" machine.setup) d₁ in
      let tree = machine.new_tree c.database.state_tree_path in
      let (found, _, d₃) = bind_inv _ (machine.get_headroot tree) d₂ in
      let (again, _, d₄) = bind_inv _ (machine.get_headroot (with_headroot tree found)) d₃ in
      let (_, _, d₅) = bind_inv _ (ok_or again "main get_headroot err") d₄ in
      let (_, parsed, _) = bind_inv _ (machine.parse_url c.l1.rpc_url) d₅ in
      let parsed' : machine.parse_url config.l1.rpc_url ≡ ok tt =
        ap (λ (x : AppConfig). machine.parse_url x.l1.rpc_url) (sym same) ∙ parsed in
      cc (parsed', unparsed)

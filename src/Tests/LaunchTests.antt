-- ===== src/Tests/LaunchTests.antt =====
-- The theorems on the start of the sequencer, with a URL and with the empty one of the file
-- crates/sequencer/config/default.toml.
use tiny_sp1_rollup.Base.{
  ◌≡◌, ◌≢◌, refl, ap, sym, [], ◌∷◌, Option, Bool, true, false, String, none, some, Outcome, ok, err,
  ok-injective,
}
use tiny_sp1_rollup.Sequencer.Config.{AppConfig, Sources, load}
use tiny_sp1_rollup.Sequencer.Queue.{get_block_counter}
use tiny_sp1_rollup.Tests.Store.{sample_db}
use tiny_sp1_rollup.Sequencer.Queue.Counter.{put_of}
use tiny_sp1_rollup.Sequencer.Launch.{Machine, launch, open_db, with_headroot, unparsed_url_refused}
use tiny_sp1_rollup.Stf.Digest.{Hash, default}
use tiny_sp1_rollup.Sequencer.Worker.{Outside, System, sleeping, start_up}
use tiny_sp1_rollup.Tests.QueueTests.{sample_rocks, empty}
use tiny_sp1_rollup.Tests.SequencerTests.{no_roots}
use tiny_sp1_rollup.Tests.WorkerTests.{outside, waiting, started}

abbrev config_of : Bool → String → AppConfig
config_of enabled url = record {
  server = record { port = 3000; host = "0.0.0.0" };
  l1 = record { enabled = enabled; rpc_url = url; bridge_address = []; private_key = "" };
  database = record { state_tree_path = "db/state_tree_db"; queues_path = "db/queues_db" };
}

abbrev sources_of : Bool → String → Sources
sources_of enabled url = record {
  Config = String;
  build = some url;
  try_deserialize = λ u. some (config_of enabled u);
}

flag_loaded :
    (enabled : Bool) (url : String) (config : AppConfig)
    → load (sources_of enabled url) ≡ ok config
    → config.l1.enabled ≡ enabled
unfolding load
flag_loaded enabled url config e =
    let same : config_of enabled url ≡ config = ok-injective e in
    ap (λ (c : AppConfig). c.l1.enabled) (sym same)

abbrev outside_with : Bool → Outside
outside_with enabled = record outside { l1_enabled = enabled }

-- The head root that was set last, in front of the roots of the tree.
headroot_of : sample_db.Tree → Outcome String (Option Hash)
unfolding sample_db
headroot_of [] = ok none
headroot_of ((root, leaves) ∷ tree) = ok (some root)

set_headroot : sample_db.Tree → Hash → sample_db.Tree
unfolding sample_db
set_headroot tree root = (root, []) ∷ tree

abbrev machine_of :
    (enabled : Bool) → String → Outcome String (Unit {0}) → Machine (outside_with enabled)
machine_of enabled url parsed = record {
  sources = sources_of enabled url;
  setup = ok tt;
  new_tree = λ path. no_roots;
  get_headroot = headroot_of;
  set_headroot = set_headroot;
  parse_url = λ u. parsed;
  open_cf_descriptors = λ options path. ok empty;
  enabled-eq = flag_loaded enabled url;
}

abbrev with_url : Machine outside
with_url = machine_of true "http://localhost:8545" (ok tt)

abbrev without_url : Machine (outside_with false)
without_url = machine_of false "" (err "relative URL without a base")

abbrev started_without : System (outside_with false)
started_without = record {
  mempool = [];
  proven = default;
  optimistic = default;
  tree = no_roots;
  headroot = some default;
  poisoned = false;
  block_counter = 0;
  queue = empty;
  contract = waiting;
  pc = sleeping;
}

-- On an empty tree the head root is set first.
starts :
    launch outside with_url waiting ≡ ok (record started { tree = set_headroot no_roots default })
unfolding launch open_db with_headroot start_up get_block_counter load headroot_of set_headroot
    sample_db sample_rocks no_roots empty put_of
starts = refl

config_loaded : load without_url.sources ≡ ok (config_of false "")
unfolding load
config_loaded = refl

unparsed_url_refused_example : launch (outside_with false) without_url waiting ≢ ok started_without
unparsed_url_refused_example =
    unparsed_url_refused (outside_with false) without_url (config_of false "")
      "relative URL without a base" config_loaded refl waiting started_without

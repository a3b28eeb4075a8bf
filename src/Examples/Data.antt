-- ===== src/Examples/Data.antt =====
-- Sample values: numbers that are naturals, two hosts in one network, two jobs, their rows and a
-- small database.
use ci.Common.{
  ℕ, ◌^◌, Bool, true, false, List, [], ◌∷◌, Option, none, some, Text, codes, ltb, leb, ◌==◌,
  decimal,
}
use ci.Json
use ci.Json.{Value, Fields, end, object}
use ci.Expr.Values.{World, parse_usize}
use ci.Workflow.Target.{Target}
use ci.Workflow.Jobs.{stay, firecracker, VmSpec}
use ci.Paths.Changes.{known}
use ci.Plan.Jobs.{JobPlan, Plan}
use ci.Runners.{Runner, RunnerSet, Pool, online, offline}
use ci.Store.Status.{RunStatus, JobStatus, pending}
use ci.Store.Rows.{Run, JobRow, Db}
use ci.Dispatch.Advance.{Env, Sched}

abbrev pub naturals : Json.Numerics
naturals = record {
  F64 = ℕ;
  Number = ℕ;
  parse_f64 = parse_usize;
  is_integral = λ n. true;
  is_exact = λ n. ltb n (2 ^ 53);
  number_of_i64 = λ n. n;
  number_of_f64 = λ n. some n;
  as_f64 = λ n. some n;
  f_zero = 0;
  f_one = 1;
  feq = λ a b. a == b;
  fgt = λ a b. ltb b a;
  fge = λ a b. leb b a;
  flt = λ a b. ltb a b;
  fle = λ a b. leb a b;
  number_text = decimal;
}

abbrev pub world : World
world = record { numerics = naturals; json_text = λ v. []; parse_json = λ t. none }

abbrev pub big : Runner
big = record { id = codes "hd-1"; name = codes "big"; status = online; last_seen_at = none }

abbrev pub twin : Runner
twin = record { id = codes "hd-2"; name = codes "Big"; status = online; last_seen_at = none }

abbrev pub small : Runner
small = record { id = codes "hd-3"; name = codes "small"; status = offline; last_seen_at = none }

abbrev pub farm : RunnerSet
farm = record {
  network_id = codes "net-1";
  network_name = codes "farm";
  is_default = true;
  served = true;
  runners = big ∷ twin ∷ small ∷ [];
}

abbrev pub pool : Pool
pool = record {
  networks = farm ∷ [];
  unjoined = [];
  last_error = none;
  default_network_id = codes "net-1";
  default_node_id = codes "hd-1";
}

abbrev pub target_of : Option Text → Target
target_of node = record { network = some (codes "farm"); node = node; vm = none; local = false }

abbrev pub vm : VmSpec
vm = record {
  driver = firecracker;
  image = none;
  build = none;
  size_class = none;
  disk_size_gb = none;
  working_directory = none;
  env_vars = [];
  setup_hooks = [];
  cache_key_files = [];
  reuse = true;
  ttl_seconds = none;
}

abbrev pub plan_of : Text → List Text → JobPlan ℕ
plan_of key needs = record {
  key = key;
  base_id = key;
  display = key;
  target = target_of none;
  fallback = stay;
  vm = vm;
  needs = needs;
  condition = none;
  matrix = [];
  env = [];
  outputs = [];
  continue_on_error = false;
  timeout = 3600;
  steps = [];
  max_parallel = none;
  fail_fast = true;
}

abbrev pub build : JobPlan ℕ
build = plan_of (codes "build") []

abbrev pub ship : JobPlan ℕ
ship = plan_of (codes "ship") (codes "build" ∷ [])

abbrev pub run : Run
run = record {
  id = codes "r1";
  workflow_id = codes "w";
  repo_url = codes "u";
  git_ref = codes "refs/heads/main";
  sha = codes "abc";
  before_sha = codes "abb";
  changes = known (codes "a.rs" ∷ []);
  status = RunStatus.queued;
  error = none;
  started_at = none;
  finished_at = none;
}

abbrev pub plan : Plan ℕ
plan = record {
  workflow_path = codes "ci.yml";
  workflow_name = none;
  env = [];
  jobs = build ∷ ship ∷ [];
}

abbrev pub build_row : JobRow ℕ
build_row = record {
  id = codes "r1.build";
  run_id = codes "r1";
  job_key = codes "build";
  base_id = codes "build";
  network = some (codes "farm");
  runner_hd_id = none;
  fingerprint = none;
  sandbox_id = none;
  status = pending;
  attempt = 1;
  outputs = [];
  plan = some build;
  error = none;
  queued_at = none;
  started_at = none;
  finished_at = none;
}

-- The job that needs the other one, and the other one when it has passed.
abbrev pub ship_row : JobRow ℕ
ship_row = record build_row {
  id = codes "r1.ship";
  job_key = codes "ship";
  base_id = codes "ship";
  plan = some ship;
}

abbrev pub built_row : JobRow ℕ
built_row = record build_row {
  status = JobStatus.success;
  runner_hd_id = some (codes "hd-1");
  started_at = some 5;
  finished_at = some 9;
}

abbrev pub empty_db : Db ℕ
empty_db = record { runs = []; jobs = [] }

abbrev pub db : Db ℕ
db = record { runs = run ∷ []; jobs = built_row ∷ ship_row ∷ [] }

abbrev pub env_with : Bool → Env ℕ
env_with answer = record {
  pool = pool;
  broker = λ subject message. answer;
  prefix = codes "ci";
  message = λ f. codes "failed";
  now = 20;
}

abbrev pub sched : Sched ℕ
sched = record { db = db; queue = []; events = [] }

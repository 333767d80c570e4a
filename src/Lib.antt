-- ===== src/Lib.antt =====
-- A model of the Python orchestrator of the parallel reduction benchmark (prbench), with proofs.
--
-- The program reads a YAML configuration (prbench/config.py, prbench/models.py), looks each
-- requested algorithm up in a catalog (prbench/catalog.py), and plans a campaign on the machine
-- it finds (prbench/sweep.py with prbench/topology.py): which CPUs compute, which GPU sets are
-- used, which CPU drives each GPU, which parameter combinations run, and in which blocks. `cmd_run`
-- (prbench/cli.py) then runs the tasks one after the other: `ExperimentRunner` (prbench/runner.py)
-- talks to a native worker (prbench/protocol.py), validates its results (prbench/validation.py), measures
-- energy (prbench/energy.py), and appends rows to the files of the run (prbench/results.py).
--
-- The files:
-- - Prelude and its children: Booleans, lists, equality tests, membership, sorting, integers,
--   floating-point comparison, results with Python's exception kinds, loops that extend a list,
--   permutations, and the text operations that the code uses.
-- - Models: the records and enums of prbench/models.py.
-- - Catalog: `AlgorithmCatalog` of prbench/catalog.py.
-- - Topology: `choose_one_thread_per_core` and `resolve_cpu_pool` of prbench/topology.py. Cores and
--   Pool hold the theorems on each, with Candidates. Classes is `enrich_cpu_core_classes`. CpuList is
--   `_parse_cpu_list`, CpuList.Print the text that the kernel prints, CpuList.Ids the ids and
--   CpuList.RoundTrip the theorem.
-- - Sweep: `SweepPlanner` of prbench/sweep.py. GpuSets is `_resolve_gpu_sets`, Params is
--   `_expand_params`, Control is `_assign_gpu_control_cpus`, and Plan is `_plan_group` and `plan`.
--   The children of each hold its theorems.
-- - Config: the checks of `ConfigurationLoader` (prbench/config.py) on the requested algorithms. Valid says
--   which values are valid, Values holds the lemmas, and Accepted and Supported the theorems.
-- - Capacity: prbench/capacity.py, the memory that a task's inputs take on each GPU and the replicas
--   that a timing loop rotates through. Rotation, Split and Rows hold the theorems.
-- - Measurement: the check on repetitions of prbench/models.py, and the choice of repetitions and the
--   check on GPU budgets of prbench/runner.py. The quotient that a choice starts from is a parameter.
-- - Validation: `ResultValidator.validate` of prbench/validation.py with its tolerances, as far as the
--   verdict.
-- - Runner.Session: what `ExperimentRunner` shares with the world, as a state that its steps pass on.
--   Runner.Session.Keeps holds the rules by which facts about the state are carried through the steps.
-- - Runner.Worker: `_run_worker`, stage by stage. Steps and Stages carry facts through its stages, Order
--   is about the commands that it sends, Rows about the rows that it writes, with Tallies.
-- - Runner.Budgets, Runner.Task: the memory budgets and `run_task`. Runner.Thermal: `ThermalGuard`.
-- - Store: the counts, the problem rows and the groups of `ResultsStore` (prbench/results.py). Store.Summary is
--   `write_summary` as far as its rows count rows, and Grouped and Counted hold the theorems.
-- - Preflight: `_evaluate_preflight` of prbench/cli.py. Devices has the checks on devices, processes and
--   idleness, Memory those on memory, storage and GPU sets, Design is `_design_warnings`, and Evaluate
--   puts them together. Clear, Keys, Fits, Idle, Passed, Design.Covered,
--   Design.Entries and Design.Balanced hold the lemmas, Ready and Design.Quiet the theorems.
-- - Campaign: the loop of `cmd_run` of prbench/cli.py over the tasks, with its exit code. Campaign.Command is
--   `cmd_run` from the plan on, and Campaign.Prepared its theorem, with Campaign.Cached on the datasets.
-- - Energy: `delta_j` and `_integrate_samples` of prbench/energy.py. Energy.Meters is the NVML meter and the
--   composite meter from their start to their stop, Energy.Record is `_energy_record` of
--   prbench/runner.py, and Energy.Measured holds their theorems.
-- - Runner.Gate: `_validate_runtime_idleness`. Runner.Command: `_worker_command`.
-- - Protocol: `read_event` of prbench/protocol.py.
-- - Datasets: the bound on integer sums and the chunked generation of prbench/datasets.py.
--   Datasets.Cache is the cache of a dataset's files.
-- - Samples: a small machine and campaign. Examples: the definitions and theorems on them.
--
-- How the program is modelled:
-- - A method that can raise returns a `Result` with the kind of the exception; the message is left
--   out. A loop is structural recursion on the list that it runs over, with its local variables as
--   arguments. Two loops run on fuel. The wait of `ThermalGuard` has one unit per round, and as many
--   rounds as there are up to one past the deadline are enough. The loop over the chunks of a dataset has one
--   unit per value, which is enough as a chunk has at least one. `bit_and` works on 11 bits, which
--   suffice since the code tests numbers up to 1024 only.
-- - The runner's steps pass on a `World`: the worker's events and the outcomes of the other calls that
--   may raise (starting and ending the process, the thermal guard, the idleness gate, a telemetry
--   snapshot, a meter, a write to the worker) are lists that the steps consume, so every interleaving
--   of answers and failures is an input. What is written and sent is kept newest first. Writing a row
--   does not fail, and the worker's payload has none of the keys that say which task a row is about.
-- - Energies are exact numbers of the counters' units, where the code divides into floats of joules, and
--   an integral is doubled to stay an integer. The clock of the samples does not go back.
-- - CPU, core, socket and GPU ids are Python ints, here ℤ. Sizes and counts that the configuration's
--   field constraints keep non-negative are ℕ. A float is a dyadic number, an infinity or NaN.
-- - A set is a list in which membership is all that is asked. A dict from ids is the list it is built
--   from, and its lookup finds the last entry with the id.
-- - Numbers in `gpu_sets` are already integers: the model leaves out texts of digits and nested values.
-- - SHA-256 digests, `random.Random(seed).shuffle` and `int` of a text are parameters (`Builtins`).
--   Of the shuffle it is assumed that it permutes its list. `int(free * safety_fraction)` is a
--   parameter of Capacity, assumed to be at most `free`.
-- - What `_evaluate_preflight` appends to its two lists is one list of notes; the messages are left out but
--   for what they name. The answers of psutil, NVML, git and the file system are one record, and
--   `int(n * fraction)` and the JSON text of a dataset are parameters. Of the texts it is assumed that
--   they tell the datasets of the tasks apart. Parameters are compared as Python compares them:
--   True is 1, and a float without a fraction is its integer.
-- - In `cmd_run` the dataset factory is a parameter, of which it is assumed that an artifact that it returns for a
--   dataset of the tasks is in the cache; `get_or_create` of Datasets.Cache fills it for integer types. The session of a task has the outcomes of
--   the gate, the meters and the factory as inputs, which Runner.Gate, Energy.Meters and
--   Datasets.Cache model by themselves.
-- - The meters' energies are doubled picojoules, which a millijoule of a counter and a milliwatt in a
--   nanosecond are whole numbers of. A quotient of floats is kept as its two numbers. The GPU ids of a
--   task differ.
-- - An argument of the worker is the value whose text it is.
-- - The text of CUDA_VISIBLE_DEVICES and of a list of CPUs is ASCII.
-- - What numpy, psutil, NVML, the selector and the native probe answer is input. Of `rng.integers` it is
--   assumed that it returns as many values as asked for, from the range asked for.
-- - `math.ceil(a / b)` is the ceiling of the quotient rounded to 53 binary digits, for integers below
--   2 ^ 1024, beyond which Python raises; the rounding has no effect up to 2 ^ 53.
-- - Validation's division, product, difference, root and machine epsilon are parameters (`Arithmetic`), with
--   the facts of IEEE 754 that are used as hypotheses (`IsLawful`); the tolerances built from them are not.
--
-- Not modelled: discovery of the machine, the build, the native workers, the generation of
-- datasets of floating-point types, telemetry, the manifest, the thread that samples power, and the
-- statistics in the summary's files. These are I/O around sysfs, NVML, compilers and git, code in another
-- language, or floating-point arithmetic of third-party libraries.
pub mod Preflight
pub mod Prelude
pub mod Models
pub mod Catalog
pub mod Topology
pub mod Sweep
pub mod Config
pub mod Capacity
pub mod Measurement
pub mod Validation
pub mod Runner
pub mod Store
pub mod Campaign
pub mod Energy
pub mod Protocol
pub mod Datasets
mod Samples
mod Examples

-- ===== src/Runner/Command/Passes.antt =====
-- What the command line of prbench/runner.py tells the worker.
use parallel_reduction_bench.Prelude.{
  Option, some-injective, ◌≡◌, refl, sym, Bool, true, false, not, Bool-cases, Option-cases, ◌⊎◌,
  inl, inr, none, some, String, String_eq, List, [], ◌∷◌, ◌++◌, map, filter, length, length-map,
  is_empty, unique, contains, All, sort, ◌==◌, if◌then◌else◌, arith,
}
use parallel_reduction_bench.Prelude.Int.{ℤ, leb_ℤ, pos, negsuc, ◌*ℤ◌}
use parallel_reduction_bench.Prelude.Float.{finite, le_float, lt_float}
use parallel_reduction_bench.Prelude.Result.{ok}
use parallel_reduction_bench.Prelude.Text.{dashed_flag}
use parallel_reduction_bench.Models.{Scalar, MeasurementConfig, SystemTopologyModel}
use parallel_reduction_bench.Config.{is_block_size, bit_and, validate_parameter_value}
use parallel_reduction_bench.Config.Valid.{constrained_names}
use parallel_reduction_bench.Energy.Record.{is_truthy}
use parallel_reduction_bench.Sweep.Params.{get}
use parallel_reduction_bench.Sweep.Plan.{TaskSpec}
use parallel_reduction_bench.Runner.Command.{
  Argument, numbers, value, defaults, value_of, parameter_flags, parameter_options, gpu_nodes,
  WorkerCommand, task_options, interleaves, worker_command,
}

-- the flag of a parameter: its name with dashes
abbrev flag_of : String → String
flag_of name = dashed_flag name

-- The value is the task's or, if it has none, the default.
abbrev IsValue : TaskSpec → String → Scalar → Type 0
IsValue task name v =
    (get task.algorithm_params name ≡ some v)
    ⊎ (get task.algorithm_params name ≡ none) × (get defaults name ≡ some v)

-- the parameters that the loader of the configuration checks, without the one that is a switch
abbrev numeric_names : List String
numeric_names = filter (λ name. not (name == "use_cuda_graphs")) constrained_names

abbrev IsPassed : TaskSpec → WorkerCommand → String → Type 0
IsPassed task command name =
    (v : Scalar) × IsValue task name v × (get command.options (flag_of name) ≡ some (value v))

-- The loader would accept the default, or the worker reads it as none given: a chunk of no elements, and
-- a share of the CPU below 0.
abbrev IsDefault : String × Scalar → Type 0
IsDefault (name, v) =
    (validate_parameter_value name v ≡ ok tt)
    ⊎ (name ≡ "pipeline_chunk_elements") × (v ≡ Scalar.int (pos 0))
    ⊎ (name ≡ "cpu_fraction") × (v ≡ Scalar.float (finite (negsuc 0) 0))

pub record Passes (m : MeasurementConfig) (topology : SystemTopologyModel) (has_numactl : Bool)
    (task : TaskSpec) (command : WorkerCommand) : Type 0 where
  pub flags : unique (map (λ option. option.0) command.options) ≡ true
  pub passed : All (IsPassed task command) numeric_names
  pub graphs : (v : Scalar) × IsValue task "use_cuda_graphs" v × (command.cuda_graphs ≡ is_truthy v)
  pub accepted : All IsDefault defaults
  pub gpus : get command.options "--gpus" ≡ some (numbers task.gpu_ids)
  pub nodes :
      (found : List ℤ) × (get command.options "--gpu-numa-nodes" ≡ some (numbers found))
      × (length found ≡ length task.gpu_ids)
  pub interleave :
      (nodes : List ℤ)
      → command.interleave ≡ some nodes
      → (task.algorithm.storage_policy ≡ "host_resident")
        × (task.memory_policy ≡ "interleave")
        × (has_numactl ≡ true)
        × (is_empty topology.numa_nodes ≡ false)
        × (nodes ≡ sort leb_ℤ topology.numa_nodes)

-- `params[name]` of a name with a default
abbrev value_or : Scalar → Option Scalar → Scalar
value_or default none = default
value_or default (some v) = v

value_of-default :
    (task : TaskSpec) (name : String) (default : Scalar)
    → get defaults name ≡ some default
    → value_of task name ≡ ok (value_or default (get task.algorithm_params name))
value_of-default task name default e = elim (Option-cases (get task.algorithm_params name)) [
  | inl missing ↦ rw (missing, e) refl
  | inr (v, given) ↦ rw given refl
]

value_or-IsValue :
    (task : TaskSpec) (name : String) (default : Scalar)
    → get defaults name ≡ some default
    → IsValue task name (value_or default (get task.algorithm_params name))
value_or-IsValue task name default e = elim (Option-cases (get task.algorithm_params name)) [
  | inl missing ↦ rw missing (inr (refl, e))
  | inr (v, given) ↦ rw given (inl refl)
]

abbrev default_or_null : Option Scalar → Scalar
default_or_null none = Scalar.null
default_or_null (some v) = v

abbrev option_of : TaskSpec → String × String → String × Argument
option_of task (flag, name) =
    (flag, value (value_or (default_or_null (get defaults name)) (get task.algorithm_params name)))

-- Every flag has a default, so no lookup raises.
parameter_options-eq :
    (task : TaskSpec) (flags : List (String × String))
    → All (λ f. get defaults f.1 ≡ some (default_or_null (get defaults f.1))) flags
    → parameter_options task flags ≡ ok (map (option_of task) flags)
unfolding parameter_options
parameter_options-eq task [] h = refl
parameter_options-eq task ((flag, name) ∷ flags) (e, h) =
    rw
      (
        value_of-default task name (default_or_null (get defaults name)) e,
        parameter_options-eq task flags h,
      )
      refl

accepted_defaults : All IsDefault defaults
unfolding validate_parameter_value contains le_float lt_float ◌*ℤ◌ is_block_size bit_and
accepted_defaults = (
  inl refl,
  (
    inl refl,
    (
      inl refl,
      (
        inl refl,
        (
          inl refl,
          (
            inl refl,
            (
              inl refl,
              (
                inl refl,
                (
                  inl refl,
                  (inr (inl (refl, refl)), (inl refl, (inl refl, (inr (inr (refl, refl)), tt)))),
                ),
              ),
            ),
          ),
        ),
      ),
    ),
  ),
)

module _ (m : MeasurementConfig) (topology : SystemTopologyModel) (worker_path data_path : String)
    (has_numactl : Bool) where
  -- the command that is made
  abbrev command : TaskSpec → WorkerCommand
  command task = record {
    interleave =
        if interleaves m topology worker_path data_path has_numactl task
        then some (sort leb_ℤ topology.numa_nodes)
        else none;
    worker_path = worker_path;
    options =
        task_options m topology worker_path data_path has_numactl task
        ++ map (option_of task) parameter_flags;
    cuda_graphs =
        is_truthy (value_or (Scalar.bool false) (get task.algorithm_params "use_cuda_graphs"));
  }

  worker_command-eq :
      (task : TaskSpec)
      → worker_command m topology worker_path data_path has_numactl task ≡ ok (command task)
  unfolding worker_command get
  worker_command-eq task =
      rw
        (
          parameter_options-eq task parameter_flags (
            refl,
            (
              refl,
              (refl, (refl, (refl, (refl, (refl, (refl, (refl, (refl, (refl, (refl, tt)))))))))),
            ),
          ),
          value_of-default task "use_cuda_graphs" (Scalar.bool false) refl,
        )
        refl

  -- A parameter with a default, whose flag is its own.
  passes :
      (task : TaskSpec) (name : String) (default : Scalar)
      → get defaults name ≡ some default
      → get (command task).options (flag_of name)
        ≡ some (value (value_or default (get task.algorithm_params name)))
      → IsPassed task (command task) name
  passes task name default e found = (
    value_or default (get task.algorithm_params name),
    value_or-IsValue task name default e,
    found,
  )

  interleave-reasons :
      (task : TaskSpec) (nodes : List ℤ)
      → (command task).interleave ≡ some nodes
      → (task.algorithm.storage_policy ≡ "host_resident")
        × (task.memory_policy ≡ "interleave")
        × (has_numactl ≡ true)
        × (is_empty topology.numa_nodes ≡ false)
        × (nodes ≡ sort leb_ℤ topology.numa_nodes)
  interleave-reasons task nodes h =
      let test = interleaves m topology worker_path data_path has_numactl task in
      elim (Bool-cases test) [
        | inr off ↦ absurd (cc (rw off at h))
        | inl on ↦
            let host : task.algorithm.storage_policy == "host_resident" ≡ true = ground arith in
            let policy : task.memory_policy == "interleave" ≡ true = ground arith in
            (
              (String_eq.test_iff _ "host_resident").0 host,
              (String_eq.test_iff _ "interleave").0 policy,
              ground arith,
              ground arith,
              sym (some-injective (rw on at h)),
            )
      ]

  -- Whatever the task, the command line is made, no lookup raises, and it gives each flag once. Each parameter
  -- that the loader of the configuration checks, except the switch for CUDA graphs, is passed under the flag
  -- that has its name with dashes, with the task's value or, if the task has none, the default; the CUDA
  -- graphs are asked for just if that value of the switch counts as true. The loader would accept each
  -- default, except 0 for the elements of a pipeline's chunk and -1 for the share of the CPU. The GPUs are
  -- listed, and each has an entry in the list of nodes. The worker runs under numactl only for data on the host whose
  -- policy is to interleave, where numactl and NUMA nodes exist, and then over all nodes in order.
  pub worker_command-Passes :
      (task : TaskSpec)
      → (made : WorkerCommand) × (worker_command m topology worker_path data_path has_numactl task
          ≡ ok made)
        × Passes m topology has_numactl task made
  unfolding get unique contains filter dashed_flag
  worker_command-Passes task = (
    command task,
    worker_command-eq task,
    record {
      flags = refl;
      passed = (
        passes task "cpu_fraction" _ refl refl,
        (
          passes task "guided_factor" _ refl refl,
          (
            passes task "target_chunk_ms" _ refl refl,
            (
              passes task "ema_alpha" _ refl refl,
              (
                passes task "block_size" _ refl refl,
                (
                  passes task "chunk_size" _ refl refl,
                  (
                    passes task "min_chunk_size" _ refl refl,
                    (
                      passes task "max_chunk_size" _ refl refl,
                      (
                        passes task "pipeline_chunk_elements" _ refl refl,
                        (
                          passes task "pipeline_streams" _ refl refl,
                          (
                            passes task "pipeline_chunks" _ refl refl,
                            (passes task "reuse_count" _ refl refl, tt),
                          ),
                        ),
                      ),
                    ),
                  ),
                ),
              ),
            ),
          ),
        ),
      );
      graphs = (
        value_or (Scalar.bool false) (get task.algorithm_params "use_cuda_graphs"),
        value_or-IsValue task "use_cuda_graphs" (Scalar.bool false) refl,
        refl,
      );
      accepted = accepted_defaults;
      gpus = refl;
      nodes = (gpu_nodes topology task.gpu_ids, refl, length-map task.gpu_ids _);
      interleave = interleave-reasons task;
    },
  )

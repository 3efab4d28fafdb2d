-- ===== src/MapReduce/Schedule.antt =====
-- schedule.go and the handlers of worker.go and master.go that keep counts: the tasks of a phase, and
-- the bookkeeping of workers. What a worker's RPC does besides is in Tasks.
use mit.Prelude.{
  ℕ, zero, suc, ◌+◌, ◌-◌, ◌≡◌, ◌≢◌, ◌↔◌, ◌<◌, ◌≤◌, Bool, Option, none, some, List, [], ◌∷◌, ◌++◌,
  arith, length, get_elem?, get_elem?_lt, get_elem?_le, if◌then◌else◌, ltb, ◌>>=◌,
}
use mit.MapReduce.Types.{Text, JobPhase, map_phase, reduce_phase, DoTaskArgs}

-- The switch at the head of schedule: ntasks and n_other.
unfoldable pub task_counts : JobPhase → ℕ → ℕ → ℕ × ℕ
task_counts map_phase n_files n_reduce = (n_files, n_reduce)
task_counts reduce_phase n_files n_reduce = (n_reduce, n_files)

-- The loop that builds the arguments of the tasks from `i` on, with the count of those left.
-- mapFiles[i] panics out of range, in either phase.
unfoldable pub task_args : Text → List Text → JobPhase → ℕ → ℕ → ℕ → Option (List DoTaskArgs)
task_args job files phase n_other zero i = some []
task_args job files phase n_other (suc left) i = do
  file ← get_elem? files i
  rest ← task_args job files phase n_other left (suc i)
  some (
      record {
        job_name = job;
        file = file;
        phase = phase;
        task_number = i;
        num_other_phase = n_other;
      }
      ∷ rest)

-- The tasks that schedule hands out.
unfoldable pub schedule : Text → List Text → ℕ → JobPhase → Option (List DoTaskArgs)
unfolding task_args task_counts
schedule job files n_reduce phase =
    let (n_tasks, n_other) = task_counts phase (length files) n_reduce in
    task_args job files phase n_other n_tasks 0

-- The goroutine of one task, over what the calls of the workers that it took from the channel
-- returned: the worker that did the task goes back on the channel, one whose call fails does not.
unfoldable pub run_task : List (Text × Bool) → Option Text
run_task [] = none
run_task ((worker, ok) ∷ rest) = let later = run_task rest in if ok then some worker else later

pub record Worker : Type 0 where
  pub n_rpc : ℕ
  pub n_tasks : ℕ
  pub concurrent : ℕ

-- The first section of DoTask: log.Fatal if another task runs.
unfoldable pub begin_task : Worker → Option Worker
begin_task wk =
    if ltb 1 (wk.concurrent + 1)
    then none
    else some (record wk { n_tasks = wk.n_tasks + 1; concurrent = wk.concurrent + 1 })

-- Its last section.
unfoldable pub end_task : Worker → Worker
end_task wk = record wk { concurrent = wk.concurrent - 1 }

-- Worker.Shutdown, with the count that it replies
unfoldable pub shutdown : Worker → Worker × ℕ
shutdown wk = (record wk { n_rpc = 1 }, wk.n_tasks)

-- Master.Register on the workers
unfoldable pub register_worker : Text → List Text → List Text
register_worker w workers = workers ++ w ∷ []

-- killWorkers: the counts of the workers whose Shutdown call returned, in order.
unfoldable pub kill_workers : List (Option ℕ) → List ℕ
kill_workers [] = []
kill_workers (none ∷ rs) = kill_workers rs
kill_workers (some n ∷ rs) = n ∷ kill_workers rs

module _ (job : Text) (files : List Text) (phase : JobPhase) (n_other : ℕ) where
  task_args_total :
      (left i : ℕ) → i + left ≤ length files → task_args job files phase n_other left i ≢ none
  unfolding task_args
  task_args_total zero i h = λ e. cc
  task_args_total (suc left) i h =
      let (f, q) = get_elem?_lt files i (omega arith) in
      ground (arith, task_args_total left (suc i))

  task_args_panics :
      (left i : ℕ)
      → 0 < left
      → length files < i + left
      → task_args job files phase n_other left i ≡ none
  unfolding task_args
  task_args_panics zero i p h = absurd (omega arith)
  task_args_panics (suc zero) i p h = ground (arith, get_elem?_le files i)
  task_args_panics (suc (suc left)) i p h = ground (arith, task_args_panics (suc left) (suc i))

-- schedule panics exactly in the reduce phase with more reduce tasks than input files.
pub schedule_panics_iff :
    (job : Text) (files : List Text) (n_reduce : ℕ) (phase : JobPhase)
    → (schedule job files n_reduce phase ≡ none)
      ↔ ((phase ≡ reduce_phase) × (length files < n_reduce))
unfolding schedule
schedule_panics_iff job files n_reduce map_phase = (
  λ e. absurd (task_args_total job files map_phase n_reduce (length files) 0 (omega arith) e),
  λ h. cc,
)
schedule_panics_iff job files n_reduce reduce_phase = (
  λ e. ground (arith, task_args_total job files reduce_phase (length files) n_reduce 0),
  λ h. ground (arith, task_args_panics job files reduce_phase (length files) n_reduce 0),
)

-- ===== src/MapReduce/Master.antt =====
-- master.go: Sequential and run.
pub mod Names
pub mod Sequential
use mit.Prelude.{ℕ, zero, suc, ◌+◌, Option, none, some, List, [], ◌∷◌, length, Dict, ◌>>=◌}
use mit.MapReduce.Types.{
  JobPhase, map_phase, reduce_phase, Text, KeyValue, FileSystem, Json, merge_name,
}
use mit.MapReduce.Tasks.{do_map, do_reduce, merge}

module _ (json : Json) (job : Text) where
  -- The loop of Sequential over the input files, from task `i` on.
  unfoldable pub map_tasks :
      ℕ → (Text → Text → List KeyValue) → List Text → ℕ → FileSystem → Option FileSystem
  unfolding do_map
  map_tasks n_reduce map_f [] i fs = some fs
  map_tasks n_reduce map_f (f ∷ files) i fs =
      do_map json job i f n_reduce map_f fs >>= λ fs'. map_tasks n_reduce map_f files (suc i) fs'

  module _ (order : Dict Text (List Text) → Dict Text (List Text)) where
    -- Its loop over the reduce tasks, with the count of those left.
    unfoldable pub reduce_tasks :
        ℕ → (Text → List Text → Text) → ℕ → ℕ → FileSystem → Option FileSystem
    unfolding do_reduce
    reduce_tasks n_files reduce_f zero i fs = some fs
    reduce_tasks n_files reduce_f (suc left) i fs =
        do_reduce order json job i (merge_name job i) n_files reduce_f fs >>= λ fs'.
        reduce_tasks n_files reduce_f left (suc i) fs'

    -- The function that Sequential gives to run for the two phases.
    unfoldable pub sequential_phase :
        List Text
        → ℕ
        → (Text → Text → List KeyValue)
        → (Text → List Text → Text)
        → JobPhase
        → FileSystem
        → Option FileSystem
    unfolding map_tasks reduce_tasks
    sequential_phase files n_reduce map_f reduce_f map_phase fs =
        map_tasks n_reduce map_f files 0 fs
    sequential_phase files n_reduce map_f reduce_f reduce_phase fs =
        reduce_tasks (length files) reduce_f n_reduce 0 fs

  -- run: both phases, what `finish` leaves as stats, and the merge. `sort` is sort.Strings on the keys.
  unfoldable pub run :
      (Dict Text Text → Dict Text Text)
      → ℕ
      → (JobPhase → FileSystem → Option FileSystem)
      → List ℕ
      → FileSystem
      → Option (FileSystem × List ℕ)
  unfolding merge
  run sort n_reduce schedule stats fs = do
    fs₁ ← schedule map_phase fs
    fs₂ ← schedule reduce_phase fs₁
    fs₃ ← merge sort json job n_reduce fs₂
    some (fs₃, stats)

  -- Sequential
  unfoldable pub sequential :
      (Dict Text (List Text) → Dict Text (List Text))
      → (Dict Text Text → Dict Text Text)
      → List Text
      → ℕ
      → (Text → Text → List KeyValue)
      → (Text → List Text → Text)
      → FileSystem
      → Option (FileSystem × List ℕ)
  unfolding sequential_phase run
  sequential order sort files n_reduce map_f reduce_f fs =
      run sort n_reduce (sequential_phase order files n_reduce map_f reduce_f)
        ((length files + n_reduce) ∷ []) fs

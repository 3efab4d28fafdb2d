-- ===== src/Tests/Shuffle.antt =====
-- The theorems on map and reduce tasks at a concrete job.
use mit.Prelude.{ℕ, ◌≢◌, none, ◌↔◌, ◌<◌, ◌%◌, ◌≡◌, refl, some, List, [], ◌∷◌, arith, Dict, lookup}
use mit.MapReduce.Schedule.{schedule, schedule_panics_iff}
use mit.MapReduce.Types.{reduce_phase, Text, ascii, text_key, KeyValue, reduce_name, FileSystem}
use mit.MapReduce.Tasks.{ihash, values_of, collect}
use mit.MapReduce.Tasks.Shuffle.{values_for}
use mit.MapReduce.Master.{map_tasks}
use mit.MapReduce.Master.Sequential.{IsOther, sequential_gathers}
use mit.Tests.Encoders.{json}

-- Each text is one word of its file.
abbrev word : Text → Text → List KeyValue
word file contents = record { key = contents; value = file } ∷ []

abbrev outs : List (List KeyValue)
outs = word (ascii "f") (ascii "word") ∷ word (ascii "g") (ascii "word") ∷ []

-- Two reduce tasks on one input file.
schedule_panics_iff_example :
    (schedule (ascii "job") (ascii "f" ∷ []) 2 reduce_phase ≡ none)
    ↔ ((reduce_phase ≡ reduce_phase) × (1 < 2))
schedule_panics_iff_example = schedule_panics_iff (ascii "job") (ascii "f" ∷ []) 2 reduce_phase

-- Two input files of one word each.
abbrev two_files : FileSystem
two_files = (ascii "f", ascii "word") ∷ (ascii "g", ascii "word") ∷ []

one_letter-IsOther : (b : ℕ) → b ≢ 109 → IsOther (ascii "job") 0 (b ∷ [])
unfolding reduce_name
one_letter-IsOther b d = λ j s le e. ground arith

sequential_gathers_example :
    (fs' : FileSystem) × (groups : Dict Text (List Text)) × (map_tasks json
        (ascii "job")
        3
        word
        (ascii "f" ∷ ascii "g" ∷ [])
        0
        two_files
      ≡ some fs')
    × (collect json (ascii "job") (ihash (ascii "word") % 3) 2 0 [] fs' ≡ some groups)
    × (values_of (ascii "word") groups ≡ ascii "f" ∷ ascii "g" ∷ [])
unfolding values_for lookup
sequential_gathers_example =
    sequential_gathers json (ascii "job") (ascii "word") 3 word (ascii "f" ∷ ascii "g" ∷ []) outs
      two_files (omega arith)
      (
        (ascii "word", refl, refl),
        one_letter-IsOther 102 (λ e. omega arith),
        ((refl, refl), tt),
        (
          (ascii "word", refl, refl),
          one_letter-IsOther 103 (λ e. omega arith),
          ((refl, refl), tt),
          tt,
        ),
      )

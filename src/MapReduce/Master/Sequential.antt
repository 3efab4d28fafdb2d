-- ===== src/MapReduce/Master/Sequential.antt =====
-- What the map tasks of Sequential leave for the reduce tasks.
use mit.Prelude.{
  ℕ, zero, suc, ◌%◌, ◌≡◌, ◌≢◌, refl, sym, ap, ◌∙◌, ◌≤◌, ◌<◌, some, List, [], ◌∷◌, arith, length,
  Dict, lookup, lookup-insert, ◌>>=◌, >>=-eq-some,
}
use mit.MapReduce.Types.{Text, text_key, text_eq_iff, KeyValue, FileSystem, Json, reduce_name}
use mit.MapReduce.Tasks.{ihash, partition, write_partitions, do_map, values_of, collect}
use mit.MapReduce.Tasks.Shuffle.{IsUtf8, Written, all_values, do_map_writes, collect_gathers}
use mit.MapReduce.Master.{map_tasks}
use mit.MapReduce.Master.Names.{reduce_name_task}

-- No file of a map task from `m` on has this name.
abbrev pub IsOther : Text → ℕ → Text → Type 0
IsOther job m name = (j s : ℕ) → m ≤ j → name ≢ reduce_name job j s

module _ (json : Json) (job : Text) where
  write_partitions-other :
      (task n_reduce : ℕ) (kvs : List KeyValue) (left r : ℕ) (fs : FileSystem) (name : Text)
      → ((s : ℕ) → name ≢ reduce_name job task s)
      → lookup name (write_partitions json job task n_reduce kvs left r fs) ≡ lookup name fs
  unfolding write_partitions
  write_partitions-other task n_reduce kvs zero r fs name other = refl
  write_partitions-other task n_reduce kvs (suc left) r fs name other =
      write_partitions-other task n_reduce kvs left (suc r) _ name other
      ∙ ground (
        arith,
        lookup-insert (reduce_name job task r) name (json.encode (partition n_reduce r kvs)) fs,
        text_eq_iff (reduce_name job task r) name,
        other r,
      )

  do_map-other :
      (task : ℕ) (f : Text) (n_reduce : ℕ) (map_f : Text → Text → List KeyValue)
      (fs fs' : FileSystem) (name : Text)
      → do_map json job task f n_reduce map_f fs ≡ some fs'
      → IsOther job task name
      → lookup name fs' ≡ lookup name fs
  unfolding do_map
  do_map-other task f n_reduce map_f fs fs' name h other =
      let (contents, found, written) = >>=-eq-some (lookup f fs) _ h in
      ground (
        arith,
        written,
        write_partitions-other task n_reduce (map_f f contents) n_reduce 0 fs name
            (λ s. other task s (omega arith)),
      )

  module _ (n_reduce : ℕ) (map_f : Text → Text → List KeyValue) where
    -- The input files are there, none of them is the output of a map task, and `outs` are the pairs
    -- that the map function gives for them.
    abbrev pub Inputs : FileSystem → List Text → List (List KeyValue) → Type 0
    Inputs fs [] [] = Unit
    Inputs fs [] (kvs ∷ outs) = ⊥
    Inputs fs (f ∷ files) [] = ⊥
    Inputs fs (f ∷ files) (kvs ∷ outs) =
        ((contents : Text) × (lookup f fs ≡ some contents) × (map_f f contents ≡ kvs))
        × IsOther job 0 f
        × IsUtf8 json kvs
        × Inputs fs files outs

    -- Inputs stay where other files change.
    Inputs-moved :
        (fs fs' : FileSystem) (files : List Text) (outs : List (List KeyValue))
        → ((name : Text) → IsOther job 0 name → lookup name fs' ≡ lookup name fs)
        → Inputs fs files outs
        → Inputs fs' files outs
    Inputs-moved fs fs' [] [] same h = tt
    Inputs-moved fs fs' [] (kvs ∷ outs) same h = elim h [ ]
    Inputs-moved fs fs' (f ∷ files) [] same h = elim h [ ]
    Inputs-moved fs fs' (f ∷ files) (kvs ∷ outs) same ((c, found, given), other, texts, rest) =
        ((c, same f other ∙ found, given), other, texts, Inputs-moved fs fs' files outs same rest)

    do_map_all :
        (task : ℕ) (f contents : Text) (fs : FileSystem)
        → lookup f fs ≡ some contents
        → (fs' : FileSystem) × (do_map json job task f n_reduce map_f fs ≡ some fs')
          × ((r : ℕ)
              → r < n_reduce
              → lookup (reduce_name job task r) fs'
                ≡ some (json.encode (partition n_reduce r (map_f f contents))))
    unfolding do_map
    do_map_all task f contents fs found =
        let fs' = write_partitions json job task n_reduce (map_f f contents) n_reduce 0 fs in
        let done : do_map json job task f n_reduce map_f fs ≡ some fs' = rw (found, ◌>>=◌) refl in
        (
          fs',
          done,
          λ r lt.
              let (fs₁, e, at) =
                do_map_writes json job task f n_reduce r map_f fs contents found lt in
              let same : fs₁ ≡ fs' = ground (arith, e, done) in rw (sym same) at,
        )

    Inputs-length :
        (fs : FileSystem) (files : List Text) (outs : List (List KeyValue))
        → Inputs fs files outs
        → length files ≡ length outs
    Inputs-length fs [] [] h = refl
    Inputs-length fs [] (kvs ∷ outs) h = elim h [ ]
    Inputs-length fs (f ∷ files) [] h = elim h [ ]
    Inputs-length fs (f ∷ files) (kvs ∷ outs) (given, other, texts, rest) =
        ap suc (Inputs-length fs files outs rest)

    -- The files of the tasks from `i` on, and no other, are written.
    map_tasks-Written :
        (files : List Text) (outs : List (List KeyValue)) (i : ℕ) (fs : FileSystem)
        → Inputs fs files outs
        → (fs' : FileSystem) × (map_tasks json job n_reduce map_f files i fs ≡ some fs')
          × ((r : ℕ) → r < n_reduce → Written json job n_reduce r i outs fs')
          × ((name : Text) → IsOther job i name → lookup name fs' ≡ lookup name fs)
    unfolding map_tasks
    map_tasks-Written [] [] i fs h = (fs, refl, λ r lt. tt, λ name o. refl)
    map_tasks-Written [] (kvs ∷ outs) i fs h = elim h [ ]
    map_tasks-Written (f ∷ files) [] i fs h = elim h [ ]
    map_tasks-Written (f ∷ files) (kvs ∷ outs) i fs ((c, found, given), other, texts, rest) =
        let (fs₁, done, mine) = do_map_all i f c fs found in
        let moved : (name : Text) → IsOther job i name → lookup name fs₁ ≡ lookup name fs =
          λ name o. do_map-other i f n_reduce map_f fs fs₁ name done o in
        let (fs', all, written, kept) = map_tasks-Written files outs (suc i) fs₁ (
          Inputs-moved fs fs₁ files outs (λ name o. moved name (λ j s le. o j s (omega arith)))
            rest) in
        (
          fs',
          rw (done, ◌>>=◌) all,
          λ r lt. (
            kept (reduce_name job i r) (λ j s le e. ground (arith, reduce_name_task job i j r s e))
                ∙ mine r lt
                ∙ ap (λ k. some (json.encode (partition n_reduce r k))) given,
            texts,
            written r lt,
          ),
          λ name o. kept name (λ j s le. o j s (omega arith)) ∙ moved name o,
        )

-- From the inputs of Sequential to the groups of its reduce tasks: if the input files are there, and none
-- of them has the name of an output of a map task, then all map tasks return, and the reduce task of a
-- key groups under it all values that the map function gives for it on any file, each as often as it is
-- given, in the order of the files.
pub sequential_gathers :
    (json : Json) (job k : Text) (n_reduce : ℕ) (map_f : Text → Text → List KeyValue)
    (files : List Text) (outs : List (List KeyValue)) (fs : FileSystem)
    → 0 < n_reduce
    → Inputs json job n_reduce map_f fs files outs
    → (fs' : FileSystem) × (groups : Dict Text (List Text)) × (map_tasks json job n_reduce map_f
          files 0 fs
        ≡ some fs')
      × (collect json job (ihash k % n_reduce) (length files) 0 [] fs' ≡ some groups)
      × (values_of k groups ≡ all_values k outs)
sequential_gathers json job k n_reduce map_f files outs fs pos inputs =
    let (fs', done, written, kept) =
      map_tasks-Written json job n_reduce map_f files outs 0 fs inputs in
    let (groups, collected, same) =
      collect_gathers json job k n_reduce outs fs' (written (ihash k % n_reduce) (ground arith)) in
    (
      fs',
      groups,
      done,
      rw (Inputs-length json job n_reduce map_f fs files outs inputs) collected,
      same,
    )

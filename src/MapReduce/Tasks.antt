-- ===== src/MapReduce/Tasks.antt =====
-- common_map.go, common_reduce.go and master_splitmerge.go: the work of a map task, of a reduce task,
-- and the final merge. log.Fatal is `none`.
pub mod Shuffle
use mit.Prelude.{
  ℕ, zero, suc, ◌*◌, ◌%◌, ◌^◌, Option, none, some, List, [], ◌∷◌, ◌++◌, ◌==◌, if◌then◌else◌, Dict,
  lookup, insert, delete, ◌>>=◌,
}
use Prim.Native.Nat.{bit_xor}
use mit.MapReduce.Types.{Text, ascii, text_key, KeyValue, FileSystem, Json, reduce_name, merge_name}

-- hash/fnv's New32a over the bytes: FNV-1a on 32 bits.
unfoldable pub fnv_from : ℕ → Text → ℕ
fnv_from h [] = h
fnv_from h (b ∷ bs) = fnv_from (bit_xor h b * 16777619 % 2 ^ 32) bs

-- h.Sum32() & 0x7fffffff
unfoldable pub ihash : Text → ℕ
unfolding fnv_from
ihash s = fnv_from 2166136261 s % 2 ^ 31

-- The pairs for the reduce task `r`: the inner loop of doMap.
unfoldable pub partition : ℕ → ℕ → List KeyValue → List KeyValue
partition n_reduce r [] = []
partition n_reduce r (kv ∷ kvs) =
    if ihash kv.key % n_reduce == r then kv ∷ partition n_reduce r kvs else partition n_reduce r kvs

-- The outer loop of doMap, with the count of reduce tasks left: one file for each reduce task.
unfoldable pub write_partitions :
    Json → Text → ℕ → ℕ → List KeyValue → ℕ → ℕ → FileSystem → FileSystem
write_partitions json job task n_reduce kvs zero r fs = fs
write_partitions json job task n_reduce kvs (suc left) r fs =
    write_partitions json job task n_reduce kvs left (suc r)
      (insert (reduce_name job task r) (json.encode (partition n_reduce r kvs)) fs)

unfoldable pub do_map :
    Json → Text → ℕ → Text → ℕ → (Text → Text → List KeyValue) → FileSystem → Option FileSystem
do_map json job task in_file n_reduce map_f fs = do
  contents ← lookup in_file fs
  some (write_partitions json job task n_reduce (map_f in_file contents) n_reduce 0 fs)

-- The values that are grouped under a key.
unfoldable pub values_of : Text → Dict Text (List Text) → List Text
values_of k m = elim (lookup k m) [ some vs ↦ vs | none ↦ [] ]

-- The decoding loop of doReduce over one file.
unfoldable pub group : List KeyValue → Dict Text (List Text) → Dict Text (List Text)
group [] m = m
group (kv ∷ kvs) m = group kvs (insert kv.key (values_of kv.key m ++ kv.value ∷ []) m)

-- Its loop over the map tasks, with the count of those left.
unfoldable pub collect :
    Json → Text → ℕ → ℕ → ℕ → Dict Text (List Text) → FileSystem → Option (Dict Text (List Text))
collect json job reduce_task zero m groups fs = some groups
collect json job reduce_task (suc left) m groups fs =
    lookup (reduce_name job m reduce_task) fs >>= λ f.
    collect json job reduce_task left (suc m) (group (json.decode f) groups) fs

unfoldable pub reduce_all : (Text → List Text → Text) → Dict Text (List Text) → List KeyValue
reduce_all reduce_f [] = []
reduce_all reduce_f ((k, vs) ∷ m) =
    record { key = k; value = reduce_f k vs } ∷ reduce_all reduce_f m

-- doReduce writes to mergeName(jobName, reduceTask), whatever `out_file` is. The order in which Go
-- ranges over the map is `order`.
unfoldable pub do_reduce :
    (Dict Text (List Text) → Dict Text (List Text))
    → Json
    → Text
    → ℕ
    → Text
    → ℕ
    → (Text → List Text → Text)
    → FileSystem
    → Option FileSystem
do_reduce order json job reduce_task out_file n_map reduce_f fs = do
  groups ← collect json job reduce_task n_map 0 [] fs
  some (insert (merge_name job reduce_task) (json.encode (reduce_all reduce_f (order groups))) fs)

-- The loops of merge that fill its map: a later pair of a key replaces an earlier one.
unfoldable pub merge_pairs : List KeyValue → Dict Text Text → Dict Text Text
merge_pairs [] m = m
merge_pairs (kv ∷ kvs) m = merge_pairs kvs (insert kv.key kv.value m)

unfoldable pub merge_files :
    Json → Text → ℕ → ℕ → Dict Text Text → FileSystem → Option (Dict Text Text)
merge_files json job zero r m fs = some m
merge_files json job (suc left) r m fs = lookup (merge_name job r) fs >>= λ f.
    merge_files json job left (suc r) (merge_pairs (json.decode f) m) fs

-- fmt.Fprintf(w, "%s: %s\n", k, kvs[k]) for each key in order
unfoldable pub print_lines : Dict Text Text → Text
print_lines [] = []
print_lines ((k, v) ∷ m) = k ++ (ascii ": " ++ (v ++ (10 ∷ print_lines m)))

-- merge: `sort` is sort.Strings on the keys, carried over to the pairs.
unfoldable pub merge :
    (Dict Text Text → Dict Text Text) → Json → Text → ℕ → FileSystem → Option FileSystem
merge sort json job n_reduce fs = do
  m ← merge_files json job n_reduce 0 [] fs
  some (insert (ascii "mrtmp." ++ job) (print_lines (sort m)) fs)

-- removeFile: log.Fatal on a file that is not there
unfoldable pub remove_file : Text → FileSystem → Option FileSystem
remove_file name fs = lookup name fs >>= λ f. some (delete name fs)

-- The inner loop of CleanupFiles over the reduce tasks left of one map task.
unfoldable pub cleanup_row : Text → ℕ → ℕ → ℕ → FileSystem → Option FileSystem
cleanup_row job i zero j fs = some fs
cleanup_row job i (suc left) j fs =
    remove_file (reduce_name job i j) fs >>= λ fs'. cleanup_row job i left (suc j) fs'

unfoldable pub cleanup_rows : Text → ℕ → ℕ → ℕ → FileSystem → Option FileSystem
cleanup_rows job n_reduce zero i fs = some fs
cleanup_rows job n_reduce (suc left) i fs =
    cleanup_row job i n_reduce 0 fs >>= λ fs'. cleanup_rows job n_reduce left (suc i) fs'

unfoldable pub cleanup_merged : Text → ℕ → ℕ → FileSystem → Option FileSystem
cleanup_merged job zero r fs = some fs
cleanup_merged job (suc left) r fs =
    remove_file (merge_name job r) fs >>= λ fs'. cleanup_merged job left (suc r) fs'

unfoldable pub cleanup_files : Text → ℕ → ℕ → FileSystem → Option FileSystem
cleanup_files job n_files n_reduce fs = do
  fs₁ ← cleanup_rows job n_reduce n_files 0 fs
  fs₂ ← cleanup_merged job n_reduce 0 fs₁
  remove_file (ascii "mrtmp." ++ job) fs₂

-- ===== src/MapReduce/Tasks/Shuffle.antt =====
-- From the map tasks to the reduce tasks: what doMap writes and doReduce groups.
use mathlib.Core.List.{append_assoc, append-nil}
use mit.Prelude.{
  ℕ, zero, suc, ◌+◌, ◌-◌, ◌*◌, ◌/◌, ◌%◌, ◌≡◌, refl, sym, ap, ◌∙◌, ◌<◌, inl, inr, true, some, List,
  [], ◌∷◌, ◌++◌, arith, All, length, if◌then◌else◌, Dict, lookup, insert, lookup-insert, Bool-cases,
  ltb, ◌==◌, ◌>>=◌,
}
use mit.MapReduce.Types.{
  Text, ascii, text_eq, text_eq_iff, text_key, KeyValue, digits, itoa, reduce_name, FileSystem,
  Json,
}
use mit.MapReduce.Tasks.{ihash, partition, write_partitions, do_map, values_of, group, collect}

-- The number that digits stand for, behind those that stand for `n`.
abbrev number : ℕ → Text → ℕ
number n [] = n
number n (b ∷ bs) = number (10 * n + (b - 48)) bs

number-digits : (fuel n : ℕ) (acc : Text) → n < fuel → number 0 (digits fuel n acc) ≡ number n acc
unfolding digits
number-digits zero n acc h = absurd (omega arith)
number-digits (suc fuel) n acc h = elim (Bool-cases (ltb n 10)) [
  | inl small ↦
      let same : 10 * 0 + (48 + n - 48) ≡ n = omega arith in
      rw (small, digits) (ap (λ k. number k acc) same)
  | inr large ↦
      let same : 10 * (n / 10) + (48 + n % 10 - 48) ≡ n = omega arith in
      rw (large, digits)
        (number-digits fuel (n / 10) ((48 + n % 10) ∷ acc) (ground arith)
          ∙ ap (λ k. number k acc) same)
]

pub itoa_inj : (m n : ℕ) → itoa m ≡ itoa n → m ≡ n
unfolding itoa
itoa_inj m n e =
    sym (number-digits (suc m) m [] (omega arith))
    ∙ ap (number 0) e
    ∙ number-digits (suc n) n [] (omega arith)

pub append_cancel : (xs : Text) {ys zs : Text} → xs ++ ys ≡ xs ++ zs → ys ≡ zs
append_cancel [] e = e
append_cancel (x ∷ xs) e = append_cancel xs (ground arith)

pub reduce_name_inj : (job : Text) (m r s : ℕ) → reduce_name job m r ≡ reduce_name job m s → r ≡ s
unfolding reduce_name
reduce_name_inj job m r s e = itoa_inj r s (
    append_cancel (ascii "-") (
      append_cancel (itoa m)
        (append_cancel (ascii "-") (append_cancel job (append_cancel (ascii "mrtmp.") e)))))

module _ (json : Json) (job : Text) (task n_reduce : ℕ) (kvs : List KeyValue) where
  -- The files of the reduce tasks from `r` on are written, and those before stay.
  write_partitions-lookup :
      (left r s : ℕ) (fs : FileSystem)
      → s < r + left
      → (s < r → lookup (reduce_name job task s) fs ≡ some (json.encode (partition n_reduce s kvs)))
      → lookup (reduce_name job task s) (write_partitions json job task n_reduce kvs left r fs)
        ≡ some (json.encode (partition n_reduce s kvs))
  unfolding write_partitions
  write_partitions-lookup zero r s fs lt old = old (omega arith)
  write_partitions-lookup (suc left) r s fs lt old =
      write_partitions-lookup left (suc r) s
        (insert (reduce_name job task r) (json.encode (partition n_reduce r kvs)) fs) (omega arith)
        λ lt'. ground (
          arith,
          lookup-insert (reduce_name job task r) (reduce_name job task s)
              (json.encode (partition n_reduce r kvs)) fs,
          text_eq_iff (reduce_name job task r) (reduce_name job task s),
          reduce_name_inj job task r s,
        )

-- A map task whose input is there leaves, for each reduce task, a file with the pairs that the map
-- function gave and that hash to this reduce task.
pub do_map_writes :
    (json : Json) (job : Text) (task : ℕ) (in_file : Text) (n_reduce s : ℕ)
    (map_f : Text → Text → List KeyValue) (fs : FileSystem) (contents : Text)
    → lookup in_file fs ≡ some contents
    → s < n_reduce
    → (fs' : FileSystem) × (do_map json job task in_file n_reduce map_f fs ≡ some fs')
      × (lookup (reduce_name job task s) fs'
          ≡ some (json.encode (partition n_reduce s (map_f in_file contents))))
unfolding do_map
do_map_writes json job task in_file n_reduce s map_f fs contents h lt = (
  write_partitions json job task n_reduce (map_f in_file contents) n_reduce 0 fs,
  rw (h, ◌>>=◌) refl,
  write_partitions-lookup json job task n_reduce (map_f in_file contents) n_reduce 0 s fs
      (omega arith) (λ l. absurd (omega arith)),
)

-- The values of a key in pairs, in their order.
unfoldable pub values_for : Text → List KeyValue → List Text
values_for k [] = []
values_for k (kv ∷ kvs) =
    let rest = values_for k kvs in if text_eq kv.key k then kv.value ∷ rest else rest

values_of-group :
    (k : Text) (kvs : List KeyValue) (m : Dict Text (List Text))
    → values_of k (group kvs m) ≡ values_of k m ++ values_for k kvs
unfolding group values_of values_for
values_of-group k [] m = sym (append-nil _)
values_of-group k (kv ∷ kvs) m =
    let m' = insert kv.key (values_of kv.key m ++ kv.value ∷ []) m in
    values_of-group k kvs m'
    ∙ ground (
      arith,
      lookup-insert kv.key k (values_of kv.key m ++ kv.value ∷ []) m,
      text_eq_iff kv.key k,
      append_assoc (values_of k m) (kv.value ∷ []) (values_for k kvs),
    )

values_for-partition :
    (k : Text) (n_reduce : ℕ) (kvs : List KeyValue)
    → values_for k (partition n_reduce (ihash k % n_reduce) kvs) ≡ values_for k kvs
unfolding partition values_for
values_for-partition k n_reduce [] = refl
values_for-partition k n_reduce (kv ∷ kvs) =
    ground (arith, text_eq_iff kv.key k, values_for-partition k n_reduce kvs)

-- The texts of the pairs are ones that JSON keeps.
abbrev pub IsUtf8 : Json → List KeyValue → Type 0
IsUtf8 json kvs = All (λ kv. (json.is_utf8 kv.key ≡ true) × (json.is_utf8 kv.value ≡ true)) kvs

partition-IsUtf8 :
    (json : Json) (n_reduce r : ℕ) (kvs : List KeyValue)
    → IsUtf8 json kvs
    → IsUtf8 json (partition n_reduce r kvs)
unfolding partition
partition-IsUtf8 json n_reduce r [] h = tt
partition-IsUtf8 json n_reduce r (kv ∷ kvs) h = elim (Bool-cases (ihash kv.key % n_reduce == r)) [
  | inl mine ↦ rw (mine, partition) ((h.0, partition-IsUtf8 json n_reduce r kvs h.1))
  | inr other ↦ rw (other, partition) (partition-IsUtf8 json n_reduce r kvs h.1)
]

-- The map tasks from `m` on have written the files for the reduce task `r` from their outputs.
abbrev pub Written : Json → Text → ℕ → ℕ → ℕ → List (List KeyValue) → FileSystem → Type 0
Written json job n_reduce r m [] fs = Unit
Written json job n_reduce r m (kvs ∷ outs) fs =
    (lookup (reduce_name job m r) fs ≡ some (json.encode (partition n_reduce r kvs)))
    × IsUtf8 json kvs
    × Written json job n_reduce r (suc m) outs fs

abbrev pub all_values : Text → List (List KeyValue) → List Text
all_values k [] = []
all_values k (kvs ∷ outs) = values_for k kvs ++ all_values k outs

module _ (json : Json) (job k : Text) (n_reduce : ℕ) (fs : FileSystem) where
  collect_values :
      (outs : List (List KeyValue)) (m : ℕ) (old : Dict Text (List Text))
      → Written json job n_reduce (ihash k % n_reduce) m outs fs
      → (new : Dict Text (List Text)) × (collect json job
            (ihash k % n_reduce)
            (length outs)
            m
            old
            fs
          ≡ some new)
        × (values_of k new ≡ values_of k old ++ all_values k outs)
  unfolding collect
  collect_values [] m old h = (old, refl, sym (append-nil _))
  collect_values (kvs ∷ outs) m old (file, texts, rest) =
      let r = ihash k % n_reduce in
      let decoded =
        json.decode-encode (partition n_reduce r kvs)
          (partition-IsUtf8 json n_reduce r kvs texts) in
      let (new, q, same) =
        collect_values outs (suc m)
          (group (json.decode (json.encode (partition n_reduce r kvs))) old) rest in
      (
        new,
        rw (file, ◌>>=◌) q,
        same
            ∙ rw
                (
                  decoded,
                  values_of-group k (partition n_reduce r kvs) old,
                  values_for-partition k n_reduce kvs,
                  append_assoc,
                )
                refl,
      )

-- The reduce task of a key, once all map tasks have written their files for it, from pairs that
-- JSON keeps, groups under the key all values that the map tasks gave for it, each as often as it
-- was given, in the order of the tasks.
pub collect_gathers :
    (json : Json) (job k : Text) (n_reduce : ℕ) (outs : List (List KeyValue)) (fs : FileSystem)
    → Written json job n_reduce (ihash k % n_reduce) 0 outs fs
    → (groups : Dict Text (List Text)) × (collect json job
          (ihash k % n_reduce)
          (length outs)
          0
          []
          fs
        ≡ some groups)
      × (values_of k groups ≡ all_values k outs)
unfolding values_of lookup
collect_gathers json job k n_reduce outs fs h = collect_values json job k n_reduce fs outs 0 [] h

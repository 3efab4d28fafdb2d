-- ===== src/Kv/Server/Exactly.antt =====
-- Each operation takes effect once: Apply against a map from keys to values.
use Prim.Native.String.{◌++◌ as str_append}
use text.Mathlib.Text.{◌==◌ as str_eq}
use mit.Prelude.{
  ℕ, ◌≡◌, refl, ◌≤◌, ◌<◌, false, Option, none, some, List, [], ◌∷◌, arith, String, lookup,
  string_key, nat_key, if◌then◌else◌, lookup-insert, Option-cases, ◌==◌, max, inl, inr,
}
use mit.Kv.Types.{OpType, get, append, put, Op, Table, KvServer}
use mit.Kv.Server.{op_index_of, append_value, apply_by_type, is_duplicate, execute}

-- The abstract service: a map from keys to values, where a key that is missing is no value.
abbrev View : Type 0
View = String → Option String

abbrev pub view : Table → View
view t k = lookup k t

abbrev write : String → String → View → View
write k v m j = if str_eq k j then some v else m j

-- What an operation means on the map.
abbrev pub meaning : OpType → String → String → View → View
meaning get k v m = m
meaning put k v m = write k v m
meaning append k v m = elim (m k) [ none ↦ write k v m | some old ↦ write k (str_append old v) m ]

apply_by_type-view :
    (type : OpType) (k v : String) (t : Table) (j : String)
    → view (apply_by_type type k v t) j ≡ meaning type k v (view t) j
unfolding apply_by_type
apply_by_type-view get k v t j = refl
apply_by_type-view put k v t j = lookup-insert k j v t
apply_by_type-view append k v t j = elim (Option-cases (lookup k t)) [
  | inl missing ↦ rw (missing, append_value, meaning) (lookup-insert k j v t)
  | inr (old, e) ↦ rw (e, append_value, meaning) (lookup-insert k j (str_append old v) t)
]

abbrev pub applied : ℕ → KvServer → ℕ
applied c kv = op_index_of c kv.op_index

applied-execute :
    (c : ℕ) (op : Op) (kv : KvServer)
    → applied c (execute op kv)
      ≡ (if op.client_id == c then max op.client_op_index (applied c kv) else applied c kv)
unfolding execute
applied-execute c op kv =
    ground (arith, lookup-insert op.client_id c op.client_op_index kv.op_index)

-- An operation that is newer than all that its client had applied changes the map as its meaning
-- says, and is remembered.
pub execute_refines :
    (op : Op) (kv : KvServer)
    → applied op.client_id kv < op.client_op_index
    → ((j : String)
        → view (execute op kv).table j ≡ meaning op.type op.key op.value (view kv.table) j)
      × (applied op.client_id (execute op kv) ≡ op.client_op_index)
unfolding execute
execute_refines op kv new = (
  λ j. rw (fresh, execute) (apply_by_type-view op.type op.key op.value kv.table j),
  ground (arith, applied-execute op.client_id op kv),
)
  where
    fresh : is_duplicate op kv ≡ false
    fresh = ground arith

-- An operation that is not newer than one that its client had applied changes nothing.
execute_old :
    (op : Op) (kv : KvServer) → op.client_op_index ≤ applied op.client_id kv → execute op kv ≡ kv
unfolding execute
execute_old op kv old = ground arith

-- A run of operations: the operation `execute` on each in turn.
pub execute_all : List Op → KvServer → KvServer
execute_all [] kv = kv
execute_all (op ∷ ops) kv = execute_all ops (execute op kv)

applied-execute_all :
    (c : ℕ) (ops : List Op) (kv : KvServer) → applied c kv ≤ applied c (execute_all ops kv)
unfolding execute_all
applied-execute_all c [] kv = omega arith
applied-execute_all c (op ∷ ops) kv =
    ground (arith, applied-execute c op kv, applied-execute_all c ops (execute op kv))

-- An operation that was applied once changes nothing when it is delivered again, whatever operations
-- were applied in between.
pub redelivery_ignored :
    (op : Op) (ops : List Op) (kv : KvServer)
    → let kv' = execute_all ops (execute op kv) in execute op kv' ≡ kv'
redelivery_ignored op ops kv = execute_old op (execute_all ops (execute op kv)) (
    ground (
      arith,
      applied-execute op.client_id op kv,
      applied-execute_all op.client_id ops (execute op kv),
    ))

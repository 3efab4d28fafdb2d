-- ===== src/Kv/Replicas.antt =====
-- The servers on top of several peers: by the logs of Raft they come to the same table.
use mit.Prelude.{
  ℕ, suc, ◌+◌, ◌≡◌, refl, sym, ap, ◌∙◌, ◌≤◌, ◌<◌, none, some, Option, List, [], ◌∷◌, arith,
  get_elem?, get_elem?_le, get_elem?-take, get_elem?-drop, length-take, take, drop, ◌>>=◌, Dict,
}
use native.Mathlib.Decide.{dec_lt}
use mit.Raft.Types.{ApplyMsg, LogEntry}
use mit.Raft.Gob.{Gob}
use mit.Raft.Local.{entry_at, sub_snapshot_index}
use mit.Raft.Service.Delivery.{messages}
use mit.Raft.Cluster.{IsFresh}
use mit.Raft.Network.{Network, Trace}
use mit.Raft.Network.Matching.{log_matching, no_snapshot}
use mit.Raft.Consensus.{System, Course}
use mit.Raft.Consensus.Agreement.{state_machine_safety, uncompacted}
use mit.Raft.Consensus.Reachable.{IsInitial}
use mit.Kv.Types.{Op, Table, KvServer, TableGob}
use mit.Kv.Server.{execute, is_duplicate, is_take_snapshot, notify, apply, apply_all}

-- Lists with the same elements at the same places.
same_elements :
    {A : Type 0} (xs ys : List A) → ((k : ℕ) → get_elem? xs k ≡ get_elem? ys k) → xs ≡ ys
same_elements [] [] h = refl
same_elements [] (y ∷ ys) h = absurd (ground (arith, h 0))
same_elements (x ∷ xs) [] h = absurd (ground (arith, h 0))
same_elements (x ∷ xs) (y ∷ ys) h = ground (arith, h 0, same_elements xs ys (λ k. h (suc k)))

-- The same tables, of servers that take no snapshots.
record Same (a b : KvServer) : Type 0 where
  table : a.table ≡ b.table
  op_index : a.op_index ≡ b.op_index
  no_limit : a.maxraftstate ≡ none
  no_limit' : b.maxraftstate ≡ none

-- What is replicated of a server.
abbrev pub replicated : KvServer → Table × Dict ℕ ℕ
replicated kv = (kv.table, kv.op_index)

module _ (gob : Gob Op) (tables : TableGob) where
  applied : Op → ℕ → KvServer → KvServer
  applied op index kv = notify op index (execute op kv)

  apply-unlimited :
      (op : Op) (index term : ℕ) (kv : KvServer)
      → kv.maxraftstate ≡ none
      → apply gob tables (ApplyMsg.valid (some op) index term) kv ≡ some (applied op index kv)
  unfolding apply is_take_snapshot execute applied
  apply-unlimited op index term kv z = ground (arith, z)

  applied-Same :
      (op : Op) (index : ℕ) (a b : KvServer)
      → Same a b
      → Same (applied op index a) (applied op index b)
  unfolding applied execute notify is_duplicate
  applied-Same op index a b s = ground (arith, s)

  -- What a run of messages makes of the replicated part; `none` if Apply panics.
  abbrev pub outcome : List (ApplyMsg Op) → KvServer → Option (Table × Dict ℕ ℕ)
  outcome ms kv = apply_all gob tables ms kv >>= λ kv'. some (replicated kv')

  replay_entry :
      (c : Option Op) (index term : ℕ) (ms : List (ApplyMsg Op)) (a b : KvServer)
      → Same a b
      → ((a' b' : KvServer) → Same a' b' → outcome ms a' ≡ outcome ms b')
      → outcome (ApplyMsg.valid c index term ∷ ms) a ≡ outcome (ApplyMsg.valid c index term ∷ ms) b
  unfolding apply_all
  replay_entry none index term ms a b s later = refl
  replay_entry (some op) index term ms a b s later =
      rw (apply-unlimited op index term a s.no_limit, apply-unlimited op index term b s.no_limit')
        (later (applied op index a) (applied op index b) (applied-Same op index a b s))

  replay :
      (es : List (LogEntry Op)) (i : ℕ) (a b : KvServer)
      → Same a b
      → outcome (messages es i) a ≡ outcome (messages es i) b
  unfolding apply_all
  replay [] i a b s = ground (arith, s.table, s.op_index)
  replay (e ∷ es) i a b s =
      replay_entry e.command i e.term (messages es (suc i)) a b s
        (λ a' b' s'. replay es (suc i) a' b' s')

-- The entries of the indexes 1 to `k`.
abbrev pub up_to : ℕ → List (LogEntry Op) → List (LogEntry Op)
up_to k log = take k (drop 1 log)

up_to_same :
    (k : ℕ) (l m : List (LogEntry Op))
    → ((j : ℕ) → 0 < j → j ≤ k → get_elem? l j ≡ get_elem? m j)
    → up_to k l ≡ up_to k m
up_to_same k l m h = same_elements (up_to k l) (up_to k m) (λ j. elim (dec_lt j k) [
  | yes below ↦
      get_elem?-take k (drop 1 l) j below
      ∙ get_elem?-drop 1 l j
      ∙ h (1 + j) (omega arith) (omega arith)
      ∙ sym (get_elem?-drop 1 m j)
      ∙ sym (get_elem?-take k (drop 1 m) j below)
  | no above ↦
      get_elem?_le (up_to k l) j (omega (arith, length-take {0} k (drop 1 l)))
      ∙ sym (get_elem?_le (up_to k m) j (omega (arith, length-take {0} k (drop 1 m))))
])

replay_same :
    (gob : Gob Op) (tables : TableGob) (k : ℕ) (l m : List (LogEntry Op)) (a b : KvServer)
    → up_to k l ≡ up_to k m
    → replicated a ≡ replicated b
    → a.maxraftstate ≡ none
    → b.maxraftstate ≡ none
    → outcome gob tables (messages (up_to k l) 1) a ≡ outcome gob tables (messages (up_to k m) 1) b
replay_same gob tables k l m a b logs same la lb =
    ap (λ es. outcome gob tables (messages es 1) a) logs
    ∙ replay gob tables (up_to k m) 1 a b (record {
      table = ap (λ x. x.0) same;
      op_index = ap (λ x. x.1) same;
      no_limit = la;
      no_limit' = lb;
    })

-- Replicated state machines. In any run of a network of peers that starts with empty disks, as in log
-- matching, let two peers have entries of one term at index `k`, and let servers on them start from the
-- same table and numbers of clients, without a limit on the state. Then the messages for the entries up
-- to `k`, in the order in which applyEntries sends them, take both servers to the same table and numbers,
-- or make Apply panic on both.
pub replicas_agree :
    (gob : Gob Op) (tables : TableGob) (n : ℕ) (s u : Network Op) (i j k : ℕ) (e e' : LogEntry Op)
    (a b : KvServer)
    → IsFresh gob n s.cluster
    → s.pool ≡ []
    → Trace gob n s u
    → entry_at (u.cluster.peer i) k ≡ some e
    → entry_at (u.cluster.peer j) k ≡ some e'
    → e.term ≡ e'.term
    → replicated a ≡ replicated b
    → a.maxraftstate ≡ none
    → b.maxraftstate ≡ none
    → outcome gob tables (messages (up_to k (u.cluster.peer i).log) 1) a
      ≡ outcome gob tables (messages (up_to k (u.cluster.peer j).log) 1) b
unfolding entry_at sub_snapshot_index
replicas_agree gob tables n s u i j k e e' a b f empty r p q t same la lb =
    let bi = no_snapshot gob n s u i f empty r in
    let bj = no_snapshot gob n s u j f empty r in
    let logs : up_to k (u.cluster.peer i).log ≡ up_to k (u.cluster.peer j).log =
      up_to_same k (u.cluster.peer i).log (u.cluster.peer j).log (λ m pos le.
        ground (arith, bi, bj, log_matching gob n s u i j k e e' f empty r p q t m le)) in
    replay_same gob tables k (u.cluster.peer i).log (u.cluster.peer j).log a b logs same la lb

-- Servers in agreement. In any run of a system that starts with empty disks, as in state machine safety, let
-- two peers have committed the indexes up to `k`, and let servers on them start from the same table and
-- numbers of clients, without a limit on the state. Then the messages for the entries up to `k`, in the
-- order in which applyEntries sends them, take both servers to the same table and numbers, or make Apply
-- panic on both.
pub servers_agree :
    (gob : Gob Op) (tables : TableGob) (n : ℕ) (s u : System Op) (i j k : ℕ) (a b : KvServer)
    → IsInitial gob n s
    → Course gob n s u
    → k ≤ (u.network.cluster.peer i).commit_index
    → k ≤ (u.network.cluster.peer j).commit_index
    → replicated a ≡ replicated b
    → a.maxraftstate ≡ none
    → b.maxraftstate ≡ none
    → outcome gob tables (messages (up_to k (u.network.cluster.peer i).log) 1) a
      ≡ outcome gob tables (messages (up_to k (u.network.cluster.peer j).log) 1) b
unfolding entry_at sub_snapshot_index
servers_agree gob tables n s u i j k a b f r ci cj same la lb =
    let bi = uncompacted gob n s u i f r in
    let bj = uncompacted gob n s u j f r in
    replay_same gob tables k (u.network.cluster.peer i).log (u.network.cluster.peer j).log a b
      (up_to_same k (u.network.cluster.peer i).log (u.network.cluster.peer j).log (λ m pos le.
        ground (
          arith,
          bi,
          bj,
          state_machine_safety gob n s u i j m f r pos (omega arith) (omega arith),
        )))
      same la lb

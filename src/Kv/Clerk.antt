-- ===== src/Kv/Clerk.antt =====
-- client.go: a clerk. What the network and the servers do enters as the list of answers to the calls
-- in order: `none` for a call that fails.
pub mod Leaders
use mit.Prelude.{
  ℕ, ◌+◌, ◌%◌, Bool, true, false, Option, none, some, List, [], ◌∷◌, String, if◌then◌else◌,
}
use mit.Kv.Types.{Err, ok, time_out_or_other, GetArgs, GetReply, PutAppendArgs, PutAppendReply}

pub record Clerk : Type 0 where
  pub servers : ℕ  -- len(servers)
  pub leader_id : ℕ
  pub client_id : ℕ
  pub op_count : ℕ

-- MakeClerk, with the number that nrand drew
unfoldable pub make_clerk : ℕ → ℕ → Clerk
make_clerk servers id = record { servers = servers; leader_id = 0; client_id = id; op_count = 0 }

unfoldable pub next_server : Clerk → Clerk
next_server ck = record ck { leader_id = (ck.leader_id + 1) % ck.servers }

-- atomic.AddInt64(&ck.opCount, 1)
unfoldable pub count_op : Clerk → Clerk
count_op ck = record ck { op_count = ck.op_count + 1 }

abbrev pub is_ok : Err → Bool
is_ok ok = true
is_ok _ = false

abbrev pub is_time_out : Err → Bool
is_time_out time_out_or_other = true
is_time_out _ = false

-- The arguments of one Get, the same for each of its calls.
unfoldable get_args : String → Clerk → GetArgs
get_args key ck = record { key = key; client_id = ck.client_id; client_op_index = ck.op_count }

unfoldable put_append_args : String → String → String → Clerk → PutAppendArgs
put_append_args key value op ck = record {
  key = key;
  value = value;
  op = op;
  client_id = ck.client_id;
  client_op_index = ck.op_count;
}

-- Where Get turns after a reply that is not OK.
unfoldable pub after_get : GetReply → Clerk → Clerk
unfolding next_server
after_get reply ck =
    if reply.wrong_leader
    then next_server ck
    else if is_time_out reply.err
    then ck
    else next_server ck

-- The loop of Get; `none` while it still asks.
unfoldable pub get_loop : List (Option GetReply) → Clerk → Clerk × Option String
unfolding next_server after_get
get_loop [] ck = (ck, none)
get_loop (none ∷ rs) ck = get_loop rs (next_server ck)
get_loop (some reply ∷ rs) ck =
    let rest = get_loop rs (after_get reply ck) in
    if is_ok reply.err then (ck, some reply.value) else rest

unfoldable pub get : String → List (Option GetReply) → Clerk → Clerk × Option String
unfolding get_loop count_op
get key rs ck = get_loop rs (count_op ck)

-- The three branches of PutAppend after a reply that is not OK all go on to the next server.
unfoldable pub after_put_append : PutAppendReply → Clerk → Clerk
unfolding next_server
after_put_append reply ck =
    if reply.wrong_leader
    then next_server ck
    else if is_time_out reply.err
    then next_server ck
    else next_server ck

unfoldable pub put_append_loop : List (Option PutAppendReply) → Clerk → Clerk × Bool
unfolding next_server after_put_append
put_append_loop [] ck = (ck, false)
put_append_loop (none ∷ rs) ck = put_append_loop rs (next_server ck)
put_append_loop (some reply ∷ rs) ck =
    let rest = put_append_loop rs (after_put_append reply ck) in
    if is_ok reply.err then (ck, true) else rest

unfoldable pub put_append :
    String → String → String → List (Option PutAppendReply) → Clerk → Clerk × Bool
unfolding put_append_loop count_op
put_append key value op rs ck = put_append_loop rs (count_op ck)

unfoldable pub put : String → String → List (Option PutAppendReply) → Clerk → Clerk × Bool
put key value rs ck = put_append key value "Put" rs ck

unfoldable pub append : String → String → List (Option PutAppendReply) → Clerk → Clerk × Bool
append key value rs ck = put_append key value "Append" rs ck

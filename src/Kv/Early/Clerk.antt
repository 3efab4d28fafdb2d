-- ===== src/Kv/Early/Clerk.antt =====
-- Lab3_KV_Raft/PartA/client.go: a clerk that does not look at whether a call failed, but at the reply
-- alone, which then has its zero value.
use mit.Prelude.{Bool, true, false, Option, none, some, List, [], ◌∷◌, String, if◌then◌else◌}
use mit.Kv.Types.{unset, GetReply, PutAppendReply}
use mit.Kv.Clerk.{Clerk, next_server, count_op, is_ok, is_time_out}

-- `var reply` of a call that fails
unfoldable pub get_answer : Option GetReply → GetReply
get_answer (some reply) = reply
get_answer none = record { wrong_leader = false; err = unset; value = "" }

unfoldable pub put_append_answer : Option PutAppendReply → PutAppendReply
put_append_answer (some reply) = reply
put_append_answer none = record { wrong_leader = false; err = unset }

-- Where Get turns after a reply that is not OK.
unfoldable pub after_get : GetReply → Clerk → Clerk
unfolding next_server
after_get reply ck =
    if reply.wrong_leader
    then next_server ck
    else if is_time_out reply.err
    then ck
    else next_server ck

-- The loop of Get; `none` while it still asks.
unfoldable pub get_loop : List (Option GetReply) → Clerk → Clerk × Option String
unfolding get_answer after_get
get_loop [] ck = (ck, none)
get_loop (r ∷ rs) ck =
    let reply = get_answer r in
    let rest = get_loop rs (after_get reply ck) in
    if is_ok reply.err then (ck, some reply.value) else rest

unfoldable pub get : String → List (Option GetReply) → Clerk → Clerk × Option String
unfolding get_loop count_op
get key rs ck = get_loop rs (count_op ck)

-- Where PutAppend turns: on a timeout it stays.
unfoldable pub after_put_append : PutAppendReply → Clerk → Clerk
unfolding next_server
after_put_append reply ck =
    if reply.wrong_leader
    then next_server ck
    else if is_time_out reply.err
    then ck
    else next_server ck

unfoldable pub put_append_loop : List (Option PutAppendReply) → Clerk → Clerk × Bool
unfolding put_append_answer after_put_append
put_append_loop [] ck = (ck, false)
put_append_loop (r ∷ rs) ck =
    let reply = put_append_answer r in
    let rest = put_append_loop rs (after_put_append reply ck) in
    if is_ok reply.err then (ck, true) else rest

unfoldable pub put_append :
    String → String → String → List (Option PutAppendReply) → Clerk → Clerk × Bool
unfolding put_append_loop count_op
put_append key value op rs ck = put_append_loop rs (count_op ck)

unfoldable pub put : String → String → List (Option PutAppendReply) → Clerk → Clerk × Bool
put key value rs ck = put_append key value "Put" rs ck

unfoldable pub append : String → String → List (Option PutAppendReply) → Clerk → Clerk × Bool
append key value rs ck = put_append key value "Append" rs ck

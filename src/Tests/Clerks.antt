-- ===== src/Tests/Clerks.antt =====
-- The theorems on the clerk at a concrete one.
use mit.Prelude.{◌≡◌, true, false, none, some, [], ◌∷◌, arith, string_key}
use mit.Kv.Types.{ok, err_no_key, err_not_leader, GetReply, PutAppendReply}
use mit.Kv.Clerk as Clerk
use mit.Kv.Clerk.{Clerk, make_clerk}
use mit.Kv.Clerk.Leaders.{OneOperation, get_never_returns, one_operation}

abbrev clerk : Clerk
clerk = record { servers = 3; leader_id = 2; client_id = 4; op_count = 7 }

abbrev no_key : GetReply
no_key = record { wrong_leader = false; err = err_no_key; value = "" }

abbrev found : GetReply
found = record { wrong_leader = false; err = ok; value = "x" }

abbrev failed : PutAppendReply
failed = record { wrong_leader = true; err = err_not_leader }

get_never_returns_example : (Clerk.get "a" (some no_key ∷ none ∷ []) clerk).1 ≡ none
get_never_returns_example =
    get_never_returns "a" (some no_key ∷ none ∷ []) clerk ((λ e. cc), (tt, tt))

one_operation_example :
    OneOperation clerk (Clerk.get "a" (none ∷ some found ∷ []) clerk).0
    × OneOperation clerk (Clerk.put_append "a" "y" "Put" (some failed ∷ []) clerk).0
one_operation_example =
    one_operation "a" "y" "Put" (none ∷ some found ∷ []) (some failed ∷ []) clerk (omega arith)

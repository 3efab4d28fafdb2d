-- ===== src/Kv/Clerk/Leaders.antt =====
-- How a clerk goes round the servers, and when it returns.
use native.Mathlib.Nat.{add-zero, mod-eq_of_lt, mod-add-mod}
use mathlib.Core.List.{Memᴰ}
use mit.Prelude.{
  ◌+◌, ◌%◌, ◌≡◌, ◌≢◌, refl, sym, ◌<◌, false, Option, none, some, List, [], ◌∷◌, arith, All, length,
  String, Bool-cases, inl, inr,
}
use mit.Kv.Types.{ok, GetReply, PutAppendReply}
use mit.Kv.Clerk.{
  Clerk, is_ok, next_server, after_get, after_put_append, get_loop, get, put_append_loop,
  put_append, count_op,
}

-- The reply does not end a Get: the call failed, or its error is not OK.
abbrev IsRefused : Option GetReply → Type 0
IsRefused none = Unit
IsRefused (some r) = r.err ≢ ok

-- A Get that every server refuses, as each does for a key that has no value, never returns, however
-- many answers it gets.
pub get_never_returns :
    (key : String) (rs : List (Option GetReply)) (ck : Clerk)
    → All IsRefused rs
    → (get key rs ck).1 ≡ none
unfolding get
get_never_returns key rs ck h = loop rs (count_op ck) h
  where
    loop : (rs : List (Option GetReply)) (ck : Clerk) → All IsRefused rs → (get_loop rs ck).1 ≡ none
    loop [] ck h = refl
    loop (none ∷ rs) ck h = loop rs (next_server ck) h.1
    loop (some r ∷ rs) ck h = ground (arith, loop rs (after_get r ck) h.1)

next_server-lt :
    (ck : Clerk) → 0 < ck.servers → (next_server ck).leader_id < (next_server ck).servers
unfolding next_server
next_server-lt ck h = omega arith

-- What a retry leaves alone.
pub record Keeps (ck ck' : Clerk) : Type 0 where
  pub servers : ck'.servers ≡ ck.servers
  client : ck'.client_id ≡ ck.client_id
  pub count : ck'.op_count ≡ ck.op_count
  range : ck.leader_id < ck.servers → ck'.leader_id < ck'.servers

get_loop-Keeps : (rs : List (Option GetReply)) (ck : Clerk) → Keeps ck (get_loop rs ck).0
unfolding get_loop
get_loop-Keeps [] ck = ground arith
get_loop-Keeps (none ∷ rs) ck =
    ground (arith, get_loop-Keeps rs (next_server ck), next_server-lt ck)
get_loop-Keeps (some r ∷ rs) ck =
    ground (arith, get_loop-Keeps rs (after_get r ck), next_server-lt ck)

put_append_loop-Keeps :
    (rs : List (Option PutAppendReply)) (ck : Clerk) → Keeps ck (put_append_loop rs ck).0
unfolding put_append_loop
put_append_loop-Keeps [] ck = ground arith
put_append_loop-Keeps (none ∷ rs) ck =
    ground (arith, put_append_loop-Keeps rs (next_server ck), next_server-lt ck)
put_append_loop-Keeps (some r ∷ rs) ck =
    ground (arith, put_append_loop-Keeps rs (after_put_append r ck), next_server-lt ck)

abbrev pub OneOperation : Clerk → Clerk → Type 0
OneOperation ck ck' =
    (ck'.op_count ≡ ck.op_count + 1)
    × (ck'.client_id ≡ ck.client_id)
    × (ck'.servers ≡ ck.servers)
    × (ck'.leader_id < ck'.servers)

-- From a clerk whose leader id is the number of a server, whatever the servers answer and however
-- often a call is repeated, a Get and a PutAppend each count one operation of the same client, and
-- leave a leader id that is the number of a server.
pub one_operation :
    (key value op : String) (gets : List (Option GetReply)) (puts : List (Option PutAppendReply))
    (ck : Clerk)
    → ck.leader_id < ck.servers
    → OneOperation ck (get key gets ck).0 × OneOperation ck (put_append key value op puts ck).0
unfolding get put_append
one_operation key value op gets puts ck h = (
  ground (arith, get_loop-Keeps gets (count_op ck)),
  ground (arith, put_append_loop-Keeps puts (count_op ck)),
)

-- The reply does not end a PutAppend.
abbrev IsFailed : Option PutAppendReply → Type 0
IsFailed none = Unit
IsFailed (some r) = r.err ≢ ok

after_put_append_lem : (r : PutAppendReply) (ck : Clerk) → after_put_append r ck ≡ next_server ck
unfolding after_put_append
after_put_append_lem r ck = ground arith

rotated :
    (rs : List (Option PutAppendReply)) (ck : Clerk)
    → ck.leader_id < ck.servers
    → All IsFailed rs
    → ((put_append_loop rs ck).0.leader_id ≡ (ck.leader_id + length rs) % ck.servers)
      × ((put_append_loop rs ck).1 ≡ false)
unfolding put_append_loop
rotated [] ck lt h = (rw add-zero (sym (mod-eq_of_lt lt)), refl)
rotated (none ∷ rs) ck lt h = ground (
  arith,
  rotated rs (next_server ck) (next_server-lt ck (omega arith)) h.1,
  mod-add-mod (ck.leader_id + 1) ck.servers (length rs),
)
rotated (some r ∷ rs) ck lt h = ground (
  arith,
  rotated rs (next_server ck) (next_server-lt ck (omega arith)) h.1,
  after_put_append_lem r ck,
  mod-add-mod (ck.leader_id + 1) ck.servers (length rs),
)

-- A PutAppend of a clerk whose leader id is the number of a server goes round the servers: after
-- each answer that is no success, of any kind, it asks the next one, and it does not return.
put_append_rotates :
    (key value op : String) (rs : List (Option PutAppendReply)) (ck : Clerk)
    → ck.leader_id < ck.servers
    → All IsFailed rs
    → ((put_append key value op rs ck).0.leader_id ≡ (ck.leader_id + length rs) % ck.servers)
      × ((put_append key value op rs ck).1 ≡ false)
unfolding put_append
put_append_rotates key value op rs ck lt h = rotated rs (count_op ck) lt h

returned :
    (v : String) (rs : List (Option GetReply)) (ck : Clerk)
    → (get_loop rs ck).1 ≡ some v
    → (r : GetReply) × Memᴰ (some r) rs × (r.err ≡ ok) × (r.value ≡ v)
unfolding get_loop
returned v [] ck h = cc
returned v (none ∷ rs) ck h =
    let (r, m, o, e) = returned v rs (next_server ck) h in (r, Memᴰ.tail m, o, e)
returned v (some r ∷ rs) ck h = elim (Bool-cases (is_ok r.err)) [
  | inl good ↦ (r, Memᴰ.head refl, ground arith, ground arith)
  | inr bad ↦
      let (r', m, o, e) = returned v rs (after_get r ck) (ground arith) in (r', Memᴰ.tail m, o, e)
]

-- A Get returns only the value of a reply that says OK.
get_returns_ok :
    (key v : String) (rs : List (Option GetReply)) (ck : Clerk)
    → (get key rs ck).1 ≡ some v
    → (r : GetReply) × Memᴰ (some r) rs × (r.err ≡ ok) × (r.value ≡ v)
unfolding get
get_returns_ok key v rs ck h = returned v rs (count_op ck) h

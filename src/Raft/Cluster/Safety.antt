-- ===== src/Raft/Cluster/Safety.antt =====
-- At most one leader in each term.
use mathlib.Core.Path.{subst}
use mit.Prelude.{ℕ, ◌≡◌, some, [], arith, refl}
use mit.Raft.Types.{follower, leader, Raft, Tick}
use mit.Raft.Gob.{Gob}
use mit.Raft.Service.{make}
use mit.Raft.Service.Restart.{IsDurable}
use mit.Raft.Cluster.{Ballot, Has, Cluster, Run, here, next, IsFresh}
use mit.Raft.Cluster.Tally.{common_voter}
use mit.Raft.Cluster.Invariant.{Inv, Move-Inv}

module _ {C : Type 0} (gob : Gob C) (n : ℕ) where
  Run-Inv : {s u : Cluster C} → Run gob n s u → Inv gob n s → Inv gob n u
  Run-Inv here inv = inv
  Run-Inv (next r m) inv = Move-Inv gob n m (Run-Inv r inv)

  -- A peer as Make leaves it on an empty disk.
  record New (i : ℕ) (rf : Raft C) : Type 0 where
    who : rf.me ≡ i
    size : rf.peers ≡ n
    durable : IsDurable gob rf
    role : rf.state ≡ follower

  make-New :
      (i : ℕ) (t : Tick) (rf : Raft C)
      → make gob n i (record { raftstate = []; snapshot = [] }) t ≡ some rf
      → New i rf
  unfolding make
  make-New i t rf h = ground arith

  pub fresh-Inv : (s : Cluster C) → IsFresh gob n s → Inv gob n s
  fresh-Inv s f =
      let new : (i : ℕ) → New i (s.peer i) = λ i. make-New i (f.made i).0 (s.peer i) (f.made i).1 in
      record {
        peers = record {
          who = λ i. (new i).who;
          size = λ i. (new i).size;
          durable = λ i. (new i).durable;
        };
        votes = record {
          voters = λ b h. absurd (none_cast b h);
          cast = λ b h. absurd (none_cast b h);
          kept = λ b h e. absurd (none_cast b h);
          once = λ b b' h h' q r. absurd (none_cast b h);
        };
        counted = λ i. record {
          cast = λ v r p. ground (arith, (new i).role);
          distinct = λ v. rw (f.tally i) (omega arith);
          below = rw (f.tally i) tt;
          won = λ l. ground (arith, (new i).role);
        };
      }
    where
      none_cast : (b : Ballot) → Has b s.ballots → ⊥
      none_cast b h = subst (Has b) f.ballots h

  pub one_leader :
      (u : Cluster C) (i j : ℕ)
      → Inv gob n u
      → (u.peer i).state ≡ leader
      → (u.peer j).state ≡ leader
      → (u.peer i).current_term ≡ (u.peer j).current_term
      → i ≡ j
  one_leader u i j inv li lj e =
      let ci = inv.counted i in
      let cj = inv.counted j in
      let (v, vi, vj) =
        common_voter n (u.tally i) (u.tally j) ci.below cj.below ci.distinct cj.distinct (ci.won li)
          (cj.won lj) in
      inv.votes.once _ _ (ci.cast v (λ q. cc) vi) (cj.cast v (λ q. cc) vj) refl e

  -- Election safety. In any run of a cluster that starts with empty disks, of any sections but
  -- InstallSnapshot and with any crashes, restarts and losses, no two peers lead in the same term.
  pub election_safety :
      (s u : Cluster C) (i j : ℕ)
      → IsFresh gob n s
      → Run gob n s u
      → (u.peer i).state ≡ leader
      → (u.peer j).state ≡ leader
      → (u.peer i).current_term ≡ (u.peer j).current_term
      → i ≡ j
  election_safety s u i j f r li lj e = one_leader u i j (Run-Inv r (fresh-Inv s f)) li lj e

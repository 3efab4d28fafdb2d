-- ===== src/Raft/Cluster.antt =====
-- The peers of raft.go together, as far as elections go: each peer's record, the votes that were
-- granted, and for each candidate whose votes nVotes counts. Two assumptions are made of the goroutines
-- of startElection: the arguments for all peers are built before the candidate's term changes, and the
-- section that compares the term of a reply and the one that counts it run with none between them.
pub mod Tally
pub mod Votes
pub mod Updates
pub mod Invariant
pub mod Safety
use mit.Prelude.{ℕ, ◌+◌, ◌≡◌, ◌⊎◌, ◌<◌, true, some, List, [], ◌∷◌, ◌==◌, if◌then◌else◌, length}
use mit.Raft.Types.{Raft, Tick, RequestVoteArgs, RequestVoteReply}
use mit.Raft.Gob.{Gob}
use mit.Raft.Vote.{is_current, request_vote, start_election, handle_vote_reply}
use mit.Raft.Service.{make}
use mit.Raft.Steps.{Quiet}

-- A vote that `voter` granted to `candidate` in `term`.
pub record Ballot : Type 0 where
  pub voter : ℕ
  pub candidate : ℕ
  pub term : ℕ

abbrev pub Has : {A : Type 0} → A → List A → Type 0
Has a [] = ⊥
Has a (x ∷ xs) = (x ≡ a) ⊎ Has a xs

abbrev pub update {ℓ} : {A : Type ℓ} → (ℕ → A) → ℕ → A → ℕ → A
update f i a j = if i == j then a else f j

-- How often a number stands in a list.
abbrev pub count : ℕ → List ℕ → ℕ
count v [] = 0
count v (x ∷ xs) = (if x == v then 1 else 0) + count v xs

pub record Cluster (C : Type 0) : Type 0 where
  pub peer : ℕ → Raft C
  pub ballots : List Ballot
  -- Whose votes a peer has counted in its last election, its own first: nVotes is the length.
  pub tally : ℕ → List ℕ

module _ {C : Type 0} (gob : Gob C) (n : ℕ) where
  -- One locked section of one of the `n` peers, or a crash of it and its restart from its disk.
  -- InstallSnapshot is left out, since it may overwrite a vote.
  pub data Move (s : Cluster C) : Cluster C → Type 0 where
    quiet :
        (i : ℕ) {rf : Raft C}
        → Quiet gob (s.peer i) rf
        → Move s (record s { peer = update s.peer i rf })
    grant :
        (i : ℕ) (args : RequestVoteArgs) (t : Tick) {rf : Raft C} {reply : RequestVoteReply}
        → i < n
        → request_vote gob args t (s.peer i) ≡ some (rf, reply)
        → Move s (record s {
          peer = update s.peer i rf;
          ballots =
              if reply.vote_granted
              then record { voter = i; candidate = args.candidate_id; term = args.term } ∷ s.ballots
              else s.ballots;
        })
    elect :
        (i : ℕ) (t : Tick)
        → i < n
        → Move s (record {
          peer = update s.peer i (start_election gob t (s.peer i));
          ballots =
              record { voter = i; candidate = i; term = (s.peer i).current_term + 1 } ∷ s.ballots;
          tally = update s.tally i (i ∷ []);
        })
    tally_vote :
        (i v t : ℕ) (reply : RequestVoteReply)
        → reply.vote_granted ≡ true
        → Has (record { voter = v; candidate = i; term = t }) s.ballots
        → is_current t (s.peer i) ≡ true
        → count v (s.tally i) ≡ 0
        → Move s (record s {
          peer = update s.peer i (handle_vote_reply gob reply (length (s.tally i)) (s.peer i)).0;
          tally = update s.tally i (v ∷ s.tally i);
        })
    restart :
        (i : ℕ) (t : Tick) {rf : Raft C}
        → make gob n i (s.peer i).persister t ≡ some rf
        → Move s (record s { peer = update s.peer i rf })

  pub data Run (s : Cluster C) : Cluster C → Type 0 where
    here : Run s s
    next : {t u : Cluster C} → Run s t → Move t u → Run s u

-- The peers as Make leaves them on empty disks.
pub record IsFresh {C : Type 0} (gob : Gob C) (n : ℕ) (s : Cluster C) : Type 0 where
  pub made :
      (i : ℕ)
      → (t : Tick) × (make gob n i (record { raftstate = []; snapshot = [] }) t ≡ some (s.peer i))
  pub ballots : s.ballots ≡ []
  pub tally : (i : ℕ) → s.tally i ≡ []

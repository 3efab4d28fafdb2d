-- ===== src/Raft/Cluster/Votes.antt =====
-- What a cluster keeps from move to move: of its peers, of the votes that were granted, and of those
-- that were counted.
use mit.Prelude.{ℕ, ◌*◌, ◌≡◌, ◌≢◌, ◌≤◌, ◌<◌, inr, some, List, ◌∷◌, arith, All, length}
use mit.Raft.Types.{follower, leader, Raft}
use mit.Raft.Gob.{Gob}
use mit.Raft.Service.Restart.{IsDurable}
use mit.Raft.Steps.Monotone.{KeepsVote}
use mit.Raft.Steps.Role.{KeepsRole}
use mit.Raft.Cluster.{Ballot, Has, update, count}

module _ {C : Type 0} (gob : Gob C) (n : ℕ) where
  pub record Peers (peer : ℕ → Raft C) : Type 0 where
    pub who : (i : ℕ) → (peer i).me ≡ i
    pub size : (i : ℕ) → (peer i).peers ≡ n
    pub durable : (i : ℕ) → IsDurable gob (peer i)

  pub record Votes (peer : ℕ → Raft C) (ballots : List Ballot) : Type 0 where
    pub voters : (b : Ballot) → Has b ballots → b.voter < n
    pub cast : (b : Ballot) → Has b ballots → b.term ≤ (peer b.voter).current_term
    -- A vote in the voter's own term is the one that it has recorded.
    pub kept :
        (b : Ballot)
        → Has b ballots
        → b.term ≡ (peer b.voter).current_term
        → (peer b.voter).vote_for ≡ some b.candidate
    -- Nobody votes twice in a term.
    pub once :
        (b b' : Ballot)
        → Has b ballots
        → Has b' ballots
        → b.voter ≡ b'.voter
        → b.term ≡ b'.term
        → b.candidate ≡ b'.candidate

  -- The votes that are counted for peer `i` in the state `rf`: votes of its term, of each peer once,
  -- and a majority if it leads.
  pub record Counted (i : ℕ) (rf : Raft C) (ballots : List Ballot) (xs : List ℕ) : Type 0 where
    pub cast :
        (v : ℕ)
        → rf.state ≢ follower
        → 0 < count v xs
        → Has (record { voter = v; candidate = i; term = rf.current_term }) ballots
    pub distinct : (v : ℕ) → count v xs ≤ 1
    pub below : All (λ v. v < n) xs
    pub won : rf.state ≡ leader → n < 2 * length xs

  -- What a peer keeps when it moves from `rf` to `rf'`, whether it wins votes or not.
  pub record Turn (rf rf' : Raft C) : Type 0 where
    pub who : rf'.me ≡ rf.me
    pub size : rf'.peers ≡ rf.peers
    pub durable : IsDurable gob rf → IsDurable gob rf'
    pub term : rf.current_term ≤ rf'.current_term
    pub vote : KeepsVote gob rf rf'

  module _ (peer : ℕ → Raft C) (ballots : List Ballot) (i : ℕ) where
    module _ (rf : Raft C) (t : Turn (peer i) rf) where
      pub turn-Peers : Peers peer → Peers (update peer i rf)
      turn-Peers ps = record {
        who = λ j. ground (arith, ps.who i, ps.who j, t);
        size = λ j. ground (arith, ps.size i, ps.size j, t);
        durable = λ j. ground (arith, ps.durable i, ps.durable j, t.durable);
      }

      pub turn-Votes : Votes peer ballots → Votes (update peer i rf) ballots
      turn-Votes vs = record {
        voters = vs.voters;
        cast = λ b h. ground (arith, vs.cast b h, t.term);
        kept = λ b h e. ground (arith, vs.cast b h, vs.kept b h, t.vote b.candidate, t.term);
        once = vs.once;
      }

    -- A vote that peer `i` has recorded joins the votes.
    pub ballot-Votes :
        (c t : ℕ)
        → i < n
        → (peer i).current_term ≡ t
        → (peer i).vote_for ≡ some c
        → Votes peer ballots
        → Votes peer (record { voter = i; candidate = c; term = t } ∷ ballots)
    ballot-Votes c t lt e v vs = record {
      voters = λ b h. ground (arith, vs.voters b);
      cast = λ b h. ground (arith, vs.cast b);
      kept = λ b h q. ground (arith, vs.kept b);
      once = λ b b' h h' q r. ground (arith, vs.kept b, vs.kept b', vs.once b b');
    }

  pub more-Counted :
      (i : ℕ) (rf : Raft C) (b : Ballot) (ballots : List Ballot) (xs : List ℕ)
      → Counted i rf ballots xs
      → Counted i rf (b ∷ ballots) xs
  more-Counted i rf b ballots xs c = record {
    cast = λ v r p. inr (c.cast v r p);
    distinct = c.distinct;
    below = c.below;
    won = c.won;
  }

  pub role-Counted :
      (i : ℕ) (rf rf' : Raft C) (ballots : List Ballot) (xs : List ℕ)
      → KeepsRole gob rf rf'
      → Counted i rf ballots xs
      → Counted i rf' ballots xs
  role-Counted i rf rf' ballots xs role c = record {
    cast = λ v r p. ground (arith, c.cast v, role);
    distinct = c.distinct;
    below = c.below;
    won = λ l. ground (arith, c.won);
  }

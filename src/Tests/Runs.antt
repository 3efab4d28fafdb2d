-- ===== src/Tests/Runs.antt =====
-- The theorems on runs of steps, on restarts and on what reaches the service, at concrete peers.
use mit.Prelude.{ℕ, ◌+◌, ◌≡◌, refl, true, some, [], ◌∷◌, arith}
use mit.Raft.Types.{ApplyMsg, follower, Raft}
use mit.Raft.Local.{entry_at, last_log_index}
use mit.Raft.Vote.{start_election}
use mit.Raft.Service.{append_command, start, apply_entries, make}
use mit.Raft.Service.Restart.{restart_restores, start_appends}
use mit.Raft.Service.Delivery.{apply_entries_delivers}
use mit.Raft.Steps.{Step, quiet, command, elect, step, Reach, here, next}
use mit.Raft.Steps.Monotone.{IsSaved, Reach-IsSaved}
use mit.Tests.Codec.{nat_gob}
use mit.Tests.Peers.{tick, peer, leading}

-- The leader after the command 9.
abbrev commanded : Raft ℕ
commanded = (append_command nat_gob 9 2000 leading).0

abbrev commands : Step nat_gob leading commanded
commands = quiet (command 9 2000 refl)

-- The peer after it has begun an election.
abbrev standing : Raft ℕ
standing = start_election nat_gob tick peer

abbrev election : Reach nat_gob peer standing
election = next here (step (elect tick refl))

Reach-IsSaved_example : IsSaved nat_gob standing
Reach-IsSaved_example = Reach-IsSaved nat_gob election refl

restart_restores_example :
    (rf' : Raft ℕ) × (make nat_gob 3 0 standing.persister tick ≡ some rf')
    × (rf'.current_term ≡ standing.current_term)
    × (rf'.vote_for ≡ standing.vote_for)
    × (rf'.log ≡ standing.log)
    × (rf'.state ≡ follower)
restart_restores_example = restart_restores nat_gob peer standing 3 0 tick refl election

start_appends_example :
    let (rf', index, term, is_leader) = start nat_gob 9 2000 leading in
    (index ≡ some (last_log_index leading + 1))
    × (term ≡ 2)
    × (is_leader ≡ true)
    × (last_log_index rf' ≡ last_log_index leading + 1)
    × (entry_at rf' (last_log_index rf')
        ≡ some (record { command = some 9; term = 2; index = last_log_index rf' }))
    × IsSaved nat_gob rf'
start_appends_example = start_appends nat_gob 9 2000 leading (omega arith) refl

-- The peer with its second entry committed.
abbrev ready : Raft ℕ
ready = record peer { commit_index = 2 }

apply_entries_delivers_example :
    apply_entries ready
    ≡ some (record ready { last_applied = 2; apply_ch = ApplyMsg.valid (some 8) 2 2 ∷ [] })
apply_entries_delivers_example =
    apply_entries_delivers ready (omega arith) (omega arith) (omega arith)

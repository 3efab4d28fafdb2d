-- ===== src/Raft/Service/Restart.antt =====
-- A crash and a restart: Make reads back what the handlers saved.
use mit.Prelude.{
  ℕ, ◌+◌, ◌≡◌, none, ◌⊎◌, inl, inr, refl, sym, some, List, [], ◌∷◌, arith, length, length-append,
  get_elem?-append_right, ◌<◌, true, Option,
}
use mit.Raft.Types.{Bytes, follower, leader, Raft, Tick, LogEntry}
use mit.Raft.Gob.{Gob}
use mit.Raft.Local.{read_persist, last_log_index, entry_at}
use mit.Raft.Service.{start, boot, make}
use mit.Raft.Steps.{Reach}
use mit.Raft.Steps.Monotone.{IsSaved, Keeps, Reach-IsSaved}

module _ {C : Type 0} (gob : Gob C) where
  read_persist_saved :
      (t : ℕ) (v : Option ℕ) (l : List (LogEntry C)) (rf : Raft C) (b : Bytes)
      → b ≡ gob.encode_state t v l
      → read_persist gob b rf ≡ some (record rf { current_term = t; vote_for = v; log = l })
  unfolding read_persist
  read_persist_saved t v l rf [] e = absurd (gob.encode_state-ne-nil t v l (sym e))
  read_persist_saved t v l rf (b ∷ bs) e = rw (e, gob.decode_state-encode_state)

  -- A peer that crashes after any run of steps from a saved state, and is made again from its disk,
  -- has the term, the vote and the log that it had, and is a follower.
  pub restart_restores :
      (rf₀ rf : Raft C) (peers me : ℕ) (tick : Tick)
      → IsSaved gob rf₀
      → Reach gob rf₀ rf
      → (rf' : Raft C) × (make gob peers me rf.persister tick ≡ some rf')
        × (rf'.current_term ≡ rf.current_term)
        × (rf'.vote_for ≡ rf.vote_for)
        × (rf'.log ≡ rf.log)
        × (rf'.state ≡ follower)
  unfolding make boot
  restart_restores rf₀ rf peers me tick h r = (
    _,
    read_persist_saved rf.current_term rf.vote_for rf.log (boot peers me rf.persister tick) _
        (Reach-IsSaved gob r h),
    refl,
    refl,
    refl,
    refl,
  )

  -- Nothing was ever saved, and there was nothing to save.
  abbrev IsBlank : Raft C → Type 0
  IsBlank rf =
      (rf.persister.raftstate ≡ [])
      × (rf.current_term ≡ 0)
      × (rf.vote_for ≡ none)
      × (rf.log ≡ record { command = none; term = 0; index = 0 } ∷ [])

  -- A restart from the disk gives back what is to be kept.
  abbrev pub IsDurable : Raft C → Type 0
  IsDurable rf = IsSaved gob rf ⊎ IsBlank rf

  pub Keeps-IsDurable : (rf rf' : Raft C) → Keeps gob rf rf' → IsDurable rf → IsDurable rf'
  Keeps-IsDurable rf rf' k h = ground arith

  pub record Remade (peers me : ℕ) (rf rf' : Raft C) : Type 0 where
    pub term : rf'.current_term ≡ rf.current_term
    pub vote : rf'.vote_for ≡ rf.vote_for
    pub log : rf'.log ≡ rf.log
    pub role : rf'.state ≡ follower
    pub who : rf'.me ≡ me
    pub size : rf'.peers ≡ peers
    pub base : rf'.last_included_index ≡ 0
    pub durable : IsDurable rf'

  pub make-Remade :
      (rf rf' : Raft C) (peers me : ℕ) (tick : Tick)
      → IsDurable rf
      → make gob peers me rf.persister tick ≡ some rf'
      → Remade peers me rf rf'
  unfolding make boot read_persist
  make-Remade rf rf' peers me tick (inl saved) h = ground (
    arith,
    read_persist_saved rf.current_term rf.vote_for rf.log (boot peers me rf.persister tick)
        rf.persister.raftstate saved,
  )
  make-Remade rf rf' peers me tick (inr blank) h = ground arith

  abbrev new_entry : C → Raft C → LogEntry C
  new_entry c rf = record {
    command = some c;
    term = rf.current_term;
    index = length rf.log + rf.last_included_index;
  }

  -- Start on a leader whose log has its placeholder appends the command at the index that it
  -- returns, one behind the last, in the current term, and has it on disk before it returns.
  pub start_appends :
      (c : C) (now : ℕ) (rf : Raft C)
      → 0 < length rf.log
      → rf.state ≡ leader
      → let (rf', index, term, is_leader) = start gob c now rf in
        (index ≡ some (last_log_index rf + 1))
        × (term ≡ rf.current_term)
        × (is_leader ≡ true)
        × (last_log_index rf' ≡ last_log_index rf + 1)
        × (entry_at rf' (last_log_index rf')
            ≡ some
                (record { command = some c; term = rf.current_term; index = last_log_index rf' }))
        × IsSaved gob rf'
  unfolding start last_log_index entry_at
  start_appends c now rf h l = (
    ground arith,
    ground arith,
    ground arith,
    ground (arith, length-append rf.log (new_entry c rf ∷ [])),
    ground (
      arith,
      length-append rf.log (new_entry c rf ∷ []),
      get_elem?-append_right rf.log (new_entry c rf ∷ []) 0,
    ),
    ground arith,
  )

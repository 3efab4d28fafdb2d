-- ===== src/Raft/Gob.antt =====
-- labgob, which is not part of the repository, as an interface: what raft.go and server.go encode
-- on one encoder, and the documented behaviour that a decoder gives back what was encoded.
use mit.Prelude.{ℕ, ◌≡◌, ◌≢◌, Option, some, List, [], ◌++◌}
use mit.Raft.Types.{Bytes, LogEntry}

pub record Gob (C : Type 0) : Type 0 where
  -- CurrentTerm, VoteFor and Log, in this order
  pub encode_state : ℕ → Option ℕ → List (LogEntry C) → Bytes
  pub decode_state : Bytes → Option (ℕ × Option ℕ × List (LogEntry C))
  pub decode_state-encode_state :
      (t : ℕ) (v : Option ℕ) (l : List (LogEntry C))
      → decode_state (encode_state t v l) ≡ some (t, v, l)
  pub encode_state-ne-nil : (t : ℕ) (v : Option ℕ) (l : List (LogEntry C)) → encode_state t v l ≢ []
  -- the index and the term in front of a snapshot
  pub encode_header : ℕ → ℕ → Bytes
  pub decode_header : Bytes → Option (ℕ × ℕ × Bytes)
  pub decode_header-encode_header :
      (i t : ℕ) (rest : Bytes) → decode_header (encode_header i t ++ rest) ≡ some (i, t, rest)
  pub encode_header-ne-nil : (i t : ℕ) (rest : Bytes) → encode_header i t ++ rest ≢ []

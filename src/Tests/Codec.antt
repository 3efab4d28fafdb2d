-- ===== src/Tests/Codec.antt =====
-- A concrete encoder with the behaviour that is assumed of labgob: each value becomes a run of
-- numbers that is read back from the front.
use Prim.Native.Char.{Char, char, code, IsLt}
use Prim.Native.Nat.{Ordering, compare}
use mit.Prelude.{
  ℕ, zero, suc, ◌≡◌, ◌≢◌, refl, Option, none, some, List, [], ◌∷◌, ◌>>=◌, length, String,
  string_key,
}
use mit.Raft.Types.{Bytes, LogEntry}
use mit.Raft.Gob.{Gob}

pub record Codec (A : Type 0) : Type 0 where
  pub write : A → Bytes → Bytes
  pub read : Bytes → Option (A × Bytes)
  pub read-write : (a : A) (bs : Bytes) → read (write a bs) ≡ some (a, bs)

-- Numbers
abbrev pub read_nat : Bytes → Option (ℕ × Bytes)
read_nat [] = none
read_nat (n ∷ bs) = some (n, bs)

abbrev pub nat_codec : Codec ℕ
nat_codec = record { write = λ n bs. n ∷ bs; read = read_nat; read-write = λ n bs. refl }

-- Characters: `Scalar` of the three comparisons of a number is the type of the proofs that it is one.
abbrev pub Both : Ordering → Ordering → Type 0
Both Ordering.lt o = IsLt o
Both Ordering.eq o = ⊥
Both Ordering.gt o = ⊥

abbrev pub Scalar : Ordering → Ordering → Ordering → Type 0
Scalar Ordering.lt o p = Unit
Scalar Ordering.eq o p = Both o p
Scalar Ordering.gt o p = Both o p

abbrev pub both? : (o p : Ordering) → Option (Both o p)
both? Ordering.lt Ordering.lt = some tt
both? Ordering.lt Ordering.eq = none
both? Ordering.lt Ordering.gt = none
both? Ordering.eq p = none
both? Ordering.gt p = none

abbrev pub scalar? : (o p q : Ordering) → Option (Scalar o p q)
scalar? Ordering.lt p q = some tt
scalar? Ordering.eq p q = both? p q
scalar? Ordering.gt p q = both? p q

pub both?-some : (o p : Ordering) (x : Both o p) → both? o p ≡ some x
both?-some Ordering.lt Ordering.lt x = refl
both?-some Ordering.lt Ordering.eq x = elim x [ ]
both?-some Ordering.lt Ordering.gt x = elim x [ ]
both?-some Ordering.eq p x = elim x [ ]
both?-some Ordering.gt p x = elim x [ ]

pub scalar?-some : (o p q : Ordering) (x : Scalar o p q) → scalar? o p q ≡ some x
scalar?-some Ordering.lt p q x = refl
scalar?-some Ordering.eq p q x = both?-some p q x
scalar?-some Ordering.gt p q x = both?-some p q x

abbrev pub to_char : ℕ → Option Char
to_char n = scalar? (compare n 55296) (compare 57343 n) (compare n 1114112) >>= λ p. some (char n p)

pub to_char-code : (c : Char) → to_char (code c) ≡ some c
to_char-code (char n p) =
    rw (scalar?-some (compare n 55296) (compare 57343 n) (compare n 1114112) p, ◌>>=◌) refl

-- Strings
abbrev pub write_string : String → Bytes → Bytes
write_string String.[] bs = 0 ∷ bs
write_string (String.◌∷◌ c s) bs = 1 ∷ code c ∷ write_string s bs

abbrev pub read_string : Bytes → Option (String × Bytes)
read_string [] = none
read_string (zero ∷ bs) = some (String.[], bs)
read_string (suc n ∷ []) = none
read_string (suc n ∷ c ∷ bs) = do
  d ← to_char c
  (s, rest) ← read_string bs
  some (String.◌∷◌ d s, rest)

pub read_string-write : (s : String) (bs : Bytes) → read_string (write_string s bs) ≡ some (s, bs)
read_string-write String.[] bs = refl
read_string-write (String.◌∷◌ c s) bs =
    rw (to_char-code c, ◌>>=◌) (rw (read_string-write s bs, ◌>>=◌) refl)

abbrev pub string_codec : Codec String
string_codec = record { write = write_string; read = read_string; read-write = read_string-write }

-- Entries of a log, and pairs of a table
abbrev pub write_option : {A : Type 0} → Codec A → Option A → Bytes → Bytes
write_option k none bs = 0 ∷ bs
write_option k (some a) bs = 1 ∷ k.write a bs

abbrev pub read_option : {A : Type 0} → Codec A → Bytes → Option (Option A × Bytes)
read_option k [] = none
read_option k (zero ∷ bs) = some (none, bs)
read_option k (suc n ∷ bs) = do (a, rest) ← k.read bs; some (some a, rest)

pub read_option-write :
    {A : Type 0} (k : Codec A) (o : Option A) (bs : Bytes)
    → read_option k (write_option k o bs) ≡ some (o, bs)
read_option-write k none bs = refl
read_option-write k (some a) bs = rw (k.read-write a bs, ◌>>=◌) refl

abbrev pub read_entry : {C : Type 0} → Codec C → Bytes → Option (LogEntry C × Bytes)
read_entry k bs = do
  (c, bs₁) ← read_option k bs
  (t, bs₂) ← read_nat bs₁
  (i, bs₃) ← read_nat bs₂
  some (record { command = c; term = t; index = i }, bs₃)

abbrev pub entry_codec : {C : Type 0} → Codec C → Codec (LogEntry C)
entry_codec k = record {
  write = λ e bs. write_option k e.command (e.term ∷ e.index ∷ bs);
  read = read_entry k;
  read-write = λ e bs. rw (read_option-write k e.command (e.term ∷ e.index ∷ bs), ◌>>=◌) refl;
}

abbrev pub read_pair : {A B : Type 0} → Codec A → Codec B → Bytes → Option ((A × B) × Bytes)
read_pair k l bs = do (a, bs₁) ← k.read bs; (b, bs₂) ← l.read bs₁; some ((a, b), bs₂)

abbrev pub pair_codec : {A B : Type 0} → Codec A → Codec B → Codec (A × B)
pair_codec k l = record {
  write = λ p bs. k.write p.0 (l.write p.1 bs);
  read = read_pair k l;
  read-write =
      λ p bs. rw (k.read-write p.0 (l.write p.1 bs), ◌>>=◌) (rw (l.read-write p.1 bs, ◌>>=◌) refl);
}

-- Lists, behind their lengths
abbrev pub write_list : {A : Type 0} → Codec A → List A → Bytes → Bytes
write_list k [] bs = bs
write_list k (a ∷ as') bs = k.write a (write_list k as' bs)

abbrev pub read_list : {A : Type 0} → Codec A → ℕ → Bytes → Option (List A × Bytes)
read_list k zero bs = some ([], bs)
read_list k (suc n) bs = do
  (a, bs₁) ← k.read bs
  (as', bs₂) ← read_list k n bs₁
  some (a ∷ as', bs₂)

pub read_list-write :
    {A : Type 0} (k : Codec A) (as' : List A) (bs : Bytes)
    → read_list k (length as') (write_list k as' bs) ≡ some (as', bs)
read_list-write k [] bs = refl
read_list-write k (a ∷ as') bs =
    rw (k.read-write a (write_list k as' bs), ◌>>=◌) (rw (read_list-write k as' bs, ◌>>=◌) refl)

abbrev pub to_vote : ℕ → Option ℕ
to_vote zero = none
to_vote (suc v) = some v

abbrev pub of_vote : Option ℕ → ℕ
of_vote none = 0
of_vote (some v) = suc v

pub to_vote-of_vote : (v : Option ℕ) → to_vote (of_vote v) ≡ v
to_vote-of_vote none = refl
to_vote-of_vote (some v) = refl

abbrev pub read_state : {C : Type 0} → Codec C → Bytes → Option (ℕ × Option ℕ × List (LogEntry C))
read_state k (t ∷ v ∷ n ∷ bs) =
    read_list (entry_codec k) n bs >>= λ (l, rest). some (t, to_vote v, l)
read_state k _ = none

abbrev pub read_header : Bytes → Option (ℕ × ℕ × Bytes)
read_header (i ∷ t ∷ rest) = some (i, t, rest)
read_header _ = none

pub nil-ne-cons : {A : Type 0} {a : A} {as' : List A} → a ∷ as' ≢ []
nil-ne-cons e = cc

abbrev pub gob_of : {C : Type 0} → Codec C → Gob C
gob_of k = record {
  encode_state = λ t v l. t ∷ of_vote v ∷ length l ∷ write_list (entry_codec k) l [];
  decode_state = read_state k;
  decode_state-encode_state =
      λ t v l. rw (read_list-write (entry_codec k) l [], ◌>>=◌) (rw (to_vote-of_vote v) refl);
  encode_state-ne-nil = λ t v l. nil-ne-cons;
  encode_header = λ i t. i ∷ t ∷ [];
  decode_header = read_header;
  decode_header-encode_header = λ i t rest. refl;
  encode_header-ne-nil = λ i t rest. nil-ne-cons;
}

abbrev pub nat_gob : Gob ℕ
nat_gob = gob_of nat_codec

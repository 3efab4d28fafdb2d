-- ===== src/MapReduce/Types.antt =====
-- common.go, common_rpc.go, and the file system that the tasks share. Names and texts are lists of
-- bytes, as Go's strings are.
use mit.Prelude.{
  ℕ, All, zero, suc, ◌+◌, ◌/◌, ◌%◌, ◌≡◌, ◌↔◌, refl, Bool, true, false, ◌&&◌, List, [], ◌∷◌, ◌++◌,
  ltb, ◌==◌, ==_iff, arith, if◌then◌else◌, Key, Dict, String,
}
use Prim.Native.Char.{code}

abbrev pub Text : Type 0
Text = List ℕ

-- The bytes of an ASCII literal.
abbrev pub ascii : String → Text
ascii String.[] = []
ascii (String.◌∷◌ c s) = code c ∷ ascii s

abbrev pub text_eq : Text → Text → Bool
text_eq [] [] = true
text_eq [] (b ∷ bs) = false
text_eq (a ∷ as') [] = false
text_eq (a ∷ as') (b ∷ bs) = a == b && text_eq as' bs

pub text_eq_iff : (s t : Text) → (text_eq s t ≡ true) ↔ (s ≡ t)
text_eq_iff [] [] = (λ h. refl, λ h. refl)
text_eq_iff [] (b ∷ bs) = (λ h. cc, λ h. cc)
text_eq_iff (a ∷ as') [] = (λ h. cc, λ h. cc)
text_eq_iff (a ∷ as') (b ∷ bs) = (
  λ h. ground (arith, text_eq_iff as' bs, ==_iff a b),
  λ h. ground (arith, text_eq_iff as' bs, ==_iff a b),
)

instance abbrev pub text_key : Key Text
text_key = record { beq = text_eq; beq_iff = text_eq_iff }

pub record KeyValue : Type 0 where
  pub key : Text
  pub value : Text

pub data JobPhase : Type 0 where
  map_phase reduce_phase : JobPhase

-- strconv.Itoa on numbers that are not negative: the decimal digits, with fuel for their count.
unfoldable pub digits : ℕ → ℕ → Text → Text
digits zero n acc = acc
digits (suc fuel) n acc =
    let rest = digits fuel (n / 10) ((48 + n % 10) ∷ acc) in
    if ltb n 10 then (48 + n) ∷ acc else rest

unfoldable pub itoa : ℕ → Text
unfolding digits
itoa n = digits (suc n) n []

unfoldable pub reduce_name : Text → ℕ → ℕ → Text
reduce_name job map_task reduce_task =
    ascii "mrtmp." ++ (job ++ (ascii "-" ++ (itoa map_task ++ (ascii "-" ++ itoa reduce_task))))

unfoldable pub merge_name : Text → ℕ → Text
merge_name job reduce_task = ascii "mrtmp." ++ (job ++ (ascii "-res-" ++ itoa reduce_task))

-- The files by their names, each with its bytes.
abbrev pub FileSystem : Type 0
FileSystem = Dict Text Text

-- encoding/json, which is not part of the repository: what an Encoder writes for pairs one after
-- another, and what the calls of a Decoder read from a file up to the first that fails. Its
-- documented behaviour: it keeps texts that are valid UTF-8.
pub record Json : Type 0 where
  pub encode : List KeyValue → Text
  pub decode : Text → List KeyValue
  pub is_utf8 : Text → Bool
  pub decode-encode :
      (kvs : List KeyValue)
      → All (λ kv. (is_utf8 kv.key ≡ true) × (is_utf8 kv.value ≡ true)) kvs
      → decode (encode kvs) ≡ kvs

pub record DoTaskArgs : Type 0 where
  pub job_name : Text
  pub file : Text
  pub phase : JobPhase
  pub task_number : ℕ
  pub num_other_phase : ℕ

-- ===== src/Tests/Encoders.antt =====
-- The encoders of the service's operations, of its tables, and of the pairs of MapReduce.
use mit.Prelude.{
  ℕ, true, zero, suc, ◌≡◌, refl, Option, none, some, List, [], ◌∷◌, ◌++◌, ◌>>=◌, arith, length,
  String, string_key, lookup,
}
use mit.Raft.Types.{Bytes}
use mit.Raft.Gob.{Gob}
use mit.MapReduce.Types.{Text, KeyValue, Json}
use mit.Kv.Types.{OpType, get, append, put, Op, Table, TableGob, or_else}
use mit.Tests.Codec.{
  Codec, nat_codec, write_string, string_codec, read_pair, pair_codec, write_list, read_list,
  read_list-write, gob_of,
}

-- Operations and tables
abbrev of_type : OpType → ℕ
of_type get = 0
of_type append = 1
of_type put = 2

abbrev to_type : ℕ → OpType
to_type zero = get
to_type (suc zero) = append
to_type (suc (suc n)) = put

pub to_type-of_type : (o : OpType) → to_type (of_type o) ≡ o
to_type-of_type get = refl
to_type-of_type append = refl
to_type-of_type put = refl

abbrev write_op : Op → Bytes → Bytes
write_op o bs =
    of_type o.type ∷ o.client_id ∷ o.client_op_index ∷ write_string o.key (write_string o.value bs)

abbrev read_op : Bytes → Option (Op × Bytes)
read_op (ty ∷ c ∷ i ∷ bs) = read_pair string_codec string_codec bs >>= λ ((k, v), rest).
    some
      (record { type = to_type ty; key = k; value = v; client_id = c; client_op_index = i }, rest)
read_op _ = none

abbrev op_codec : Codec Op
op_codec = record {
  write = write_op;
  read = read_op;
  read-write = λ o bs.
      let pair = (pair_codec string_codec string_codec).read-write (o.key, o.value) bs in
      rw (pair, ◌>>=◌) (rw (to_type-of_type o.type) refl);
}

abbrev pub op_gob : Gob Op
op_gob = gob_of op_codec

abbrev table_entry : Codec (String × String)
table_entry = pair_codec string_codec string_codec

abbrev read_table : Bytes → Table → Option Table
read_table [] old = none
read_table (n ∷ bs) old = read_list table_entry n bs >>= λ (t, rest). some (t ++ old)

pub lookup-append :
    (k : String) (t old : Table) → lookup k (t ++ old) ≡ or_else (lookup k t) (lookup k old)
unfolding lookup
lookup-append k [] old = refl
lookup-append k ((j, v) ∷ t) old = ground (arith, lookup-append k t old)

abbrev pub table_gob : TableGob
table_gob = record {
  encode_table = λ t. length t ∷ write_list table_entry t [];
  decode_table = read_table;
  decode_table-encode_table = λ t old.
      (t ++ old, rw (read_list-write table_entry t [], ◌>>=◌) refl, λ k. lookup-append k t old);
}

-- Pairs of MapReduce
abbrev write_text : Text → Bytes → Bytes
write_text t bs = length t ∷ write_list nat_codec t bs

abbrev read_text : Bytes → Option (Text × Bytes)
read_text [] = none
read_text (n ∷ bs) = read_list nat_codec n bs

pub read_text-write : (t : Text) (bs : Bytes) → read_text (write_text t bs) ≡ some (t, bs)
read_text-write t bs = read_list-write nat_codec t bs

abbrev text_codec : Codec Text
text_codec = record { write = write_text; read = read_text; read-write = read_text-write }

abbrev read_key_value : Bytes → Option (KeyValue × Bytes)
read_key_value bs = read_pair text_codec text_codec bs >>= λ ((k, v), rest).
    some (record { key = k; value = v }, rest)

abbrev key_value_codec : Codec KeyValue
key_value_codec = record {
  write = λ kv bs. write_text kv.key (write_text kv.value bs);
  read = read_key_value;
  read-write =
      λ kv bs. rw ((pair_codec text_codec text_codec).read-write (kv.key, kv.value) bs, ◌>>=◌) refl;
}

abbrev read_key_values : Text → List KeyValue
read_key_values [] = []
read_key_values (n ∷ bs) = elim (read_list key_value_codec n bs) [ some r ↦ r.0 | none ↦ [] ]

abbrev pub json : Json
json = record {
  encode = λ kvs. length kvs ∷ write_list key_value_codec kvs [];
  decode = read_key_values;
  is_utf8 = λ t. true;
  decode-encode = λ kvs h. rw (read_list-write key_value_codec kvs [], read_key_values) refl;
}

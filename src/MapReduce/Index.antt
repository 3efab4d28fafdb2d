-- ===== src/MapReduce/Index.antt =====
-- ii.go: the map and the reduce function of the inverted index, and its sequential run.
pub mod Listing
use mit.Prelude.{
  ℕ, zero, suc, ◌↔◌, ◌≡◌, Bool, true, Option, List, [], ◌∷◌, ◌++◌, if◌then◌else◌, Dict,
}
use mit.MapReduce.Types.{Text, ascii, KeyValue, FileSystem, Json, itoa}
use mit.MapReduce.Master.{sequential}

-- The package strings, which is not part of the repository: FieldsFunc where the separators are the
-- runes that are not letters, Contains, and TrimRight. Documented: Contains reports whether the second
-- text is within the first.
pub record Strings : Type 0 where
  pub letter_fields : Text → List Text
  pub contains : Text → Text → Bool
  pub trim_right : Text → Text → Text
  pub contains_iff :
      (s v : Text)
      → (contains s v ≡ true) ↔ ((before : Text) × (after : Text) × (s ≡ before ++ (v ++ after)))

-- The loop of mapF.
unfoldable pub word_pairs : Text → List Text → List KeyValue
word_pairs document [] = []
word_pairs document (v ∷ vs) = record { key = v; value = document } ∷ word_pairs document vs

module _ (strings : Strings) where
  unfoldable pub map_f : Text → Text → List KeyValue
  unfolding word_pairs
  map_f document value = word_pairs document (strings.letter_fields value)

  -- The loop of reduceF: bookNum and retTem.
  unfoldable pub collect_names : List Text → ℕ → Text → ℕ × Text
  collect_names [] book_num ret_tem = (book_num, ret_tem)
  collect_names (v ∷ vs) book_num ret_tem =
      let same = collect_names vs book_num ret_tem in
      let more = collect_names vs (suc book_num) (ret_tem ++ (v ++ ascii ",")) in
      if strings.contains ret_tem v then same else more

  unfoldable pub reduce_f : Text → List Text → Text
  unfolding collect_names
  reduce_f key values =
      let out = collect_names values 0 [] in
      itoa out.0 ++ (ascii " " ++ strings.trim_right out.1 (ascii ","))

  -- The sequential branch of main: order and sort are as in Sequential.
  unfoldable pub main_sequential :
      Json
      → (Dict Text (List Text) → Dict Text (List Text))
      → (Dict Text Text → Dict Text Text)
      → List Text
      → FileSystem
      → Option (FileSystem × List ℕ)
  unfolding map_f reduce_f
  main_sequential json order sort files fs =
      sequential json (ascii "iiseq") order sort files 3 map_f reduce_f fs

-- ===== src/Tests/Texts.antt =====
-- What ii.go uses of the package strings, for ASCII texts, and its theorem at two documents.
use mathlib.Core.List.{Memᴰ}
use mit.Prelude.{
  ap, ℕ, ◌≡◌, Bool, true, false, ◌&&◌, ◌||◌, not, Bool-cases, inl, inr, refl, List, [], ◌∷◌, ◌++◌,
  arith, if◌then◌else◌, ltb, ◌==◌, ==_iff, length,
}
use mit.MapReduce.Types.{Text, ascii, itoa, digits}
use mit.MapReduce.Index.{Strings, collect_names, word_pairs, map_f, reduce_f}
use mit.MapReduce.Index.Listing.{IsWithin, AreNew, listing, reduce_f_lists}

abbrev is_letter : ℕ → Bool
is_letter c = (not (ltb c 65) && ltb c 91) || (not (ltb c 97) && ltb c 123)

abbrev fields : Text → Text → List Text
fields [] [] = []
fields (b ∷ w) [] = (b ∷ w) ∷ []
fields [] (c ∷ s) = if is_letter c then fields (c ∷ []) s else fields [] s
fields (b ∷ w) (c ∷ s) = if is_letter c then fields (b ∷ w ++ c ∷ []) s else (b ∷ w) ∷ fields [] s

abbrev one_of : ℕ → Text → Bool
one_of c [] = false
one_of c (b ∷ s) = c == b || one_of c s

abbrev drop_end : ℕ → Text → Text → Text
drop_end b [] cut = if one_of b cut then [] else b ∷ []
drop_end b (c ∷ s) cut = b ∷ c ∷ s

abbrev trim : Text → Text → Text
trim [] cut = []
trim (b ∷ s) cut = drop_end b (trim s cut) cut

abbrev begins : Text → Text → Bool
begins [] s = true
begins (a ∷ v) [] = false
begins (a ∷ v) (b ∷ s) = a == b && begins v s

abbrev within : Text → Text → Bool
within [] v = begins v []
within (b ∷ s) v = begins v (b ∷ s) || within s v

begins_sound : (v s : Text) → begins v s ≡ true → (after : Text) × (s ≡ v ++ after)
begins_sound [] s h = (s, refl)
begins_sound (a ∷ v) [] h = cc
begins_sound (a ∷ v) (b ∷ s) h =
    let (after, e) = begins_sound v s (ground arith) in (after, ground (arith, ==_iff a b, e))

begins-append : (v after : Text) → begins v (v ++ after) ≡ true
begins-append [] after = refl
begins-append (a ∷ v) after = ground (arith, ==_iff a a, begins-append v after)

within-begins : (s v : Text) → begins v s ≡ true → within s v ≡ true
within-begins [] v h = h
within-begins (b ∷ s) v h = rw (h) refl

within_sound : (s v : Text) → within s v ≡ true → IsWithin v s
within_sound [] v h = let (after, e) = begins_sound v [] h in ([], after, e)
within_sound (b ∷ s) v h = elim (Bool-cases (begins v (b ∷ s))) [
  | inl here ↦ let (after, e) = begins_sound v (b ∷ s) here in ([], after, e)
  | inr later ↦
      let (before, after, e) = within_sound s v (ground arith) in
      (b ∷ before, after, ap (λ x. b ∷ x) e)
]

within-append : (before v after : Text) → within (before ++ (v ++ after)) v ≡ true
within-append [] v after = within-begins (v ++ after) v (begins-append v after)
within-append (b ∷ before) v after = ground (arith, within-append before v after)

abbrev ascii_strings : Strings
ascii_strings = record {
  letter_fields = fields [];
  contains = within;
  trim_right = trim;
  contains_iff =
      λ s v. (within_sound s v, λ (before, after, e). rw (e) (within-append before v after));
}

-- The documents ab, b and ab again: b is taken for listed already.
reduce_f_lists_example :
    (kept : List Text) × (reduce_f ascii_strings
        (ascii "word")
        (ascii "ab" ∷ ascii "b" ∷ ascii "ab" ∷ [])
      ≡ itoa (length kept) ++ (ascii " " ++ trim (listing kept) (ascii ",")))
    × AreNew [] kept
    × ((v : Text) → Memᴰ v kept → Memᴰ v (ascii "ab" ∷ ascii "b" ∷ ascii "ab" ∷ []))
    × ((v : Text) → Memᴰ v (ascii "ab" ∷ ascii "b" ∷ ascii "ab" ∷ []) → IsWithin v (listing kept))
reduce_f_lists_example =
    reduce_f_lists ascii_strings (ascii "word") (ascii "ab" ∷ ascii "b" ∷ ascii "ab" ∷ [])

-- Of the documents ab and b it lists ab alone.
index_drops_b : reduce_f ascii_strings (ascii "word") (ascii "ab" ∷ ascii "b" ∷ []) ≡ ascii "1 ab"
unfolding reduce_f collect_names itoa digits
index_drops_b = refl

map_f_test :
    map_f ascii_strings (ascii "doc") (ascii "a, cd!")
    ≡ record { key = ascii "a"; value = ascii "doc" }
      ∷ record { key = ascii "cd"; value = ascii "doc" }
      ∷ []
unfolding map_f word_pairs
map_f_test = refl

-- ===== src/MapReduce/Index/Listing.antt =====
-- reduceF of ii.go: what it lists.
use mit.Prelude.{
  sym, ap, ◌∙◌, ℕ, suc, ◌+◌, ◌≡◌, Bool-cases, inl, inr, refl, List, [], ◌∷◌, ◌++◌, arith, length,
}
use mathlib.Core.List.{Memᴰ, append_assoc, append-nil}
use mathlib.Core.List.Memᴰ
use mit.MapReduce.Types.{Text, ascii, itoa}
use mit.MapReduce.Index.{Strings, collect_names, reduce_f}

-- The names, each with a comma behind it.
unfoldable pub listing : List Text → Text
listing [] = []
listing (v ∷ vs) = v ++ (ascii "," ++ listing vs)

-- A text that stands within another one.
abbrev pub IsWithin : Text → Text → Type 0
IsWithin v s = (before : Text) × (after : Text) × (s ≡ before ++ (v ++ after))

-- Each name is new: it does not stand within the listing of those before it.
unfoldable pub AreNew : List Text → List Text → Type 0
AreNew ns [] = Unit
AreNew ns (v ∷ vs) = ¬ IsWithin v (listing ns) × AreNew (ns ++ v ∷ []) vs

listing-append : (ns ms : List Text) → listing (ns ++ ms) ≡ listing ns ++ listing ms
unfolding listing
listing-append [] ms = refl
listing-append (n ∷ ns) ms =
    ap (λ l. n ++ (44 ∷ l)) (listing-append ns ms)
    ∙ sym (append_assoc n (44 ∷ listing ns) (listing ms))

IsWithin-append : (v s t : Text) → IsWithin v s → IsWithin v (s ++ t)
IsWithin-append v s t (before, after, e) = (
  before,
  after ++ t,
  ap (λ x. x ++ t) e
      ∙ append_assoc before (v ++ after) t
      ∙ ap (λ x. before ++ x) (append_assoc v after t),
)

module _ (strings : Strings) where
  -- From any number and any names that are listed already.
  collect_from :
      (vs ns : List Text) (n : ℕ)
      → (kept : List Text) × (collect_names strings vs n (listing ns)
          ≡ (length kept + n, listing (ns ++ kept)))
        × AreNew ns kept
        × ((v : Text) → Memᴰ v kept → Memᴰ v vs)
        × ((v : Text) → Memᴰ v vs → IsWithin v (listing (ns ++ kept)))
  unfolding collect_names listing AreNew
  collect_from [] ns n = ([], rw append-nil ground arith, tt, λ v m. m, λ v m. elim m [ ])
  collect_from (v ∷ vs) ns n = elim (Bool-cases (strings.contains (listing ns) v)) [
    | inl same ↦
        let (kept, run, fresh, from, within) = collect_from vs ns n in
        (
          kept,
          rw (same) run,
          fresh,
          λ w m. Memᴰ.tail (from w m),
          λ w m. elim (Memᴰ.cases_cons m) [
            | inl e ↦
                rw (e, listing-append ns kept)
                  (IsWithin-append v (listing ns) (listing kept)
                    ((strings.contains_iff (listing ns) v).0 same))
            | inr later ↦ within w later
          ],
        )
    | inr new ↦
        let (kept, run, fresh, from, within) = collect_from vs (ns ++ v ∷ []) (suc n) in
        (
          v ∷ kept,
          rw (new, sym (append_assoc ns (v ∷ []) kept), sym (listing-append ns (v ∷ [])))
              (run ∙ ap (λ k. (k, listing (ns ++ v ∷ [] ++ kept))) (omega arith)),
          (λ h. ground (arith, (strings.contains_iff (listing ns) v).1 h), fresh),
          λ w m. elim (Memᴰ.cases_cons m) [
            | inl e ↦ Memᴰ.head e
            | inr later ↦ Memᴰ.tail (from w later)
          ],
          λ w m. elim (Memᴰ.cases_cons m) [
            | inl e ↦ (listing ns, 44 ∷ listing kept, rw (e) (listing-append ns (v ∷ kept)))
            | inr later ↦ rw (sym (append_assoc ns (v ∷ []) kept)) (within w later)
          ],
        )
  ]

-- reduceF counts and lists names of the values, each only if it does not stand within the listing of
-- those before it, with a comma behind each, and every value stands within the listing.
pub reduce_f_lists :
    (strings : Strings) (key : Text) (vs : List Text)
    → (kept : List Text) × (reduce_f strings key vs
        ≡ itoa (length kept) ++ (ascii " " ++ strings.trim_right (listing kept) (ascii ",")))
      × AreNew [] kept
      × ((v : Text) → Memᴰ v kept → Memᴰ v vs)
      × ((v : Text) → Memᴰ v vs → IsWithin v (listing kept))
unfolding reduce_f listing
reduce_f_lists strings key vs =
    let (kept, run, fresh, from, within) = collect_from strings vs [] 0 in
    let counted : length kept + 0 ≡ length kept = omega arith in
    (kept, rw (run, counted) refl, fresh, from, within)

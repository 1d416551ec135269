-- ===== src/HttpStat/Insertion.antt =====
-- sort.Sort of the names of headers. It is modelled by an insertion sort; since what is sorted is
-- unique (Sorted), every other way to sort gives the same.
use conniver.Prelude.{
  ◌<◌, ◌≤◌, ◌≡◌, refl, sym, ◌∙◌, ap, true, false, inl, inr, List, [], ◌∷◌, ◌++◌, arith, Bool-cases,
}
use mathlib.Core.Path.{ap₂}
use mathlib.Core.List.{map}
use conniver.Prelude.Text.{Text, codes, ◌=ₜ◌, =ₜ_sound, =ₜ_refl}
use conniver.HttpStat.Headers.{less}
use conniver.HttpStat.Order.{less-total, less_trans}
use conniver.HttpStat.Connection.{join_with}
use conniver.HttpStat.Printing.{insert, sort, Header, names, values, header_line, header_lines}
use conniver.HttpStat.Sorted.{count, IsSorted, IsSortOf, =ₜ_comm, sorted_unique}

count-insert : (j k : Text) (ks : List Text) → count j (insert k ks) ≡ count j (k ∷ ks)
count-insert j k [] = refl
count-insert j k (i ∷ ks) = elim (Bool-cases (less k i)) [
  | inl e ↦ rw e refl
  | inr e ↦ rw e (omega (arith, count-insert j k ks))
]

count-same : (j k : Text) (ks : List Text) → (j =ₜ k) ≡ true → count j ks ≡ count k ks
count-same j k ks e = ap (λ x. count x ks) (=ₜ_sound j k e)

-- A name that comes before the first of a sorted list comes before all of it.
before_all :
    (k i : Text) (ks : List Text)
    → IsSorted (i ∷ ks)
    → count k (i ∷ ks) ≡ 0
    → less k i ≡ true
    → (j : Text) → 0 < count j (i ∷ ks)
    → less j k ≡ false
before_all k i ks s z h j m = elim (Bool-cases (j =ₜ i)) [
  | inl e ↦ ap (λ x. less x k) (=ₜ_sound j i e) ∙ ground (arith, h, z, less-total k i)
  | inr e ↦ ground (
    arith,
    h,
    z,
    m,
    e,
    s.0 j,
    less-total j i e,
    less_trans k i j,
    less-total k j,
    =ₜ_comm k j,
    =ₜ_comm j k,
    count-same j k ks,
  )
]

-- A name that does not come before the first of a sorted list leaves it the first.
kept_behind :
    (k i : Text) (ks : List Text)
    → IsSorted (i ∷ ks)
    → count k (i ∷ ks) ≡ 0
    → less k i ≡ false
    → (j : Text) → 0 < count j (insert k ks)
    → less j i ≡ false
kept_behind k i ks s z h j m = elim (Bool-cases (j =ₜ k)) [
  | inl e ↦ ap (λ x. less x i) (=ₜ_sound j k e) ∙ h
  | inr e ↦ s.0 j (ground (arith, e, m, count-insert j k ks))
]

insert-IsSorted :
    (k : Text) (ks : List Text) → IsSorted ks → count k ks ≡ 0 → IsSorted (insert k ks)
insert-IsSorted k [] s z = (λ j m. absurd (omega arith), tt)
insert-IsSorted k (i ∷ ks) s z = elim (Bool-cases (less k i)) [
  | inl e ↦ rw e (before_all k i ks s z e, s)
  | inr e ↦ rw e (kept_behind k i ks s z e, insert-IsSorted k ks s.1 (omega (arith, z)))
]

-- sort.Sort puts names that are distinct in order: nothing is lost or added, and of any two of them
-- the one behind does not come before the one in front.
pub sort-IsSortOf : (ks : List Text) → ((k : Text) → count k ks ≤ 1) → IsSortOf (sort ks) ks
sort-IsSortOf [] d = (λ k. refl, tt)
sort-IsSortOf (k ∷ ks) d =
    let (same, sorted) = sort-IsSortOf ks (λ j. omega (arith, d j)) in
    (
      λ j. count-insert j k (sort ks) ∙ omega (arith, same j),
      insert-IsSorted k (sort ks) sorted (ground (arith, same k, d k, =ₜ_refl k)),
    )

map-cong : (f g : Text → Text) (ks : List Text) → ((k : Text) → f k ≡ g k) → map f ks ≡ map g ks
map-cong f g [] e = refl
map-cong f g (k ∷ ks) e = ap₂ (λ a b. a ∷ b) (e k) (map-cong f g ks e)

-- The headers are printed in an order that does not depend on how the map is walked: two walks of the
-- same distinct names with the same values print the same lines, and these are the lines of any
-- arrangement of the names in which no name comes before one in front of it, so that nothing depends
-- on how sort.Sort works either.
pub header_lines_unique :
    (h h' : Header) (ks : List Text)
    → ((k : Text) → count k (names h) ≤ 1)
    → ((k : Text) → count k (names h) ≡ count k (names h'))
    → ((k : Text) → values k h ≡ values k h')
    → IsSortOf ks (names h')
    → (header_lines h ≡ header_lines h') × (header_lines h ≡ map (header_line h') ks)
unfolding header_lines
header_lines_unique h h' ks d same equal (c, s) =
    let (c0, s0) = sort-IsSortOf (names h) d in
    let (c1, s1) = sort-IsSortOf (names h') (λ k. omega (arith, d k, same k)) in
    let lines =
      map-cong (header_line h) (header_line h') (sort (names h))
        (λ k. ap (λ vs. k ++ (codes ": " ++ join_with (codes ",") vs)) (equal k)) in
    (
      lines
          ∙ ap (map (header_line h')) (sorted_unique _ _ s0 s1 (λ k. c0 k ∙ (same k ∙ sym (c1 k)))),
      lines ∙ ap (map (header_line h')) (sorted_unique _ _ s0 s (λ k. c0 k ∙ (same k ∙ sym (c k)))),
    )

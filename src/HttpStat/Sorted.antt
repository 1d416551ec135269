-- ===== src/HttpStat/Sorted.antt =====
-- Lists of names in order, and that the order leaves no choice.
use conniver.Prelude.{
  ℕ, ◌+◌, ◌<◌, ◌≡◌, refl, sym, ◌∙◌, ap, true, false, inl, inr, List, [], ◌∷◌, if◌then◌else◌, arith,
  Bool-cases,
}
use mathlib.Core.Path.{ap₂}
use conniver.Prelude.Text.{Text, ◌=ₜ◌, =ₜ_sound, =ₜ_refl}
use conniver.HttpStat.Headers.{less}
use conniver.HttpStat.Order.{less-total}

abbrev pub count : Text → List Text → ℕ
count k [] = 0
count k (j ∷ js) = (if k =ₜ j then 1 else 0) + count k js

-- No name comes before one that stands in front of it.
abbrev pub IsSorted : List Text → Type 0
IsSorted [] = Unit {0}
IsSorted (k ∷ ks) = ((j : Text) → 0 < count j ks → less j k ≡ false) × IsSorted ks

-- What sort.Sort may make of the names.
abbrev pub IsSortOf : List Text → List Text → Type 0
IsSortOf sorted ks = ((k : Text) → count k sorted ≡ count k ks) × IsSorted sorted

pub =ₜ_comm : (s t : Text) → (s =ₜ t) ≡ (t =ₜ s)
=ₜ_comm s t = elim (Bool-cases (s =ₜ t)) [
  | inl e ↦ ap (λ x. s =ₜ x) (sym (=ₜ_sound s t e)) ∙ ap (λ x. x =ₜ s) (=ₜ_sound s t e)
  | inr e ↦ elim (Bool-cases (t =ₜ s)) [
    | inl q ↦ absurd (ground (arith, e ∙ refl, =ₜ_refl s, ap (λ x. s =ₜ x) (=ₜ_sound t s q)))
    | inr q ↦ e ∙ sym q
  ]
]

heads_agree :
    (x y : Text) (xs ys : List Text)
    → IsSorted (x ∷ xs)
    → IsSorted (y ∷ ys)
    → ((k : Text) → count k (x ∷ xs) ≡ count k (y ∷ ys))
    → (x =ₜ y) ≡ true
heads_agree x y xs ys h k same = elim (Bool-cases (x =ₜ y)) [
  | inl e ↦ e
  | inr e ↦ absurd (
      ground (
        arith,
        e,
        less-total x y e,
        k.0 x,
        h.0 y,
        same x,
        same y,
        =ₜ_comm x y,
        =ₜ_refl x,
        =ₜ_refl y,
      ))
]

pub sorted_unique :
    (xs ys : List Text)
    → IsSorted xs
    → IsSorted ys
    → ((k : Text) → count k xs ≡ count k ys)
    → xs ≡ ys
sorted_unique [] [] h k same = refl
sorted_unique [] (y ∷ ys) h k same = absurd (ground (arith, same y, =ₜ_refl y))
sorted_unique (x ∷ xs) [] h k same = absurd (ground (arith, same x, =ₜ_refl x))
sorted_unique (x ∷ xs) (y ∷ ys) h k same =
    let e = =ₜ_sound x y (heads_agree x y xs ys h k same) in
    let tails : xs ≡ ys =
      sorted_unique xs ys h.1 k.1 (λ j. omega (arith, same j, ap (λ z. count j (z ∷ [])) e)) in
    ap₂ (λ a b. a ∷ b) e tails

-- ===== src/Os/Containers.antt =====
-- When a process counts as running in a container.
use conniver.Prelude.{
  ◌≡◌, refl, ap, ◌↔◌, true, none, ok, List, [], ◌∷◌, inl, inr, Bool-cases, arith,
}
use mathlib.Core.List.{Memᴰ}
use conniver.Prelude.Text.{Text}
use conniver.Os.Lines.{split_newlines}
use conniver.Os.Linux.{in_container, any_in_container, is_containerized}

any-found :
    (ls : List Text) → any_in_container ls ≡ true → (l : Text) × Memᴰ l ls × (in_container l ≡ true)
unfolding any_in_container
any-found [] h = cc
any-found (l ∷ ls) h = elim (Bool-cases (in_container l)) [
  | inl e ↦ (l, Memᴰ.head refl, e)
  | inr e ↦ let (k, m, q) = any-found ls (ground arith) in (k, Memᴰ.tail m, q)
]

found-any :
    (ls : List Text) (l : Text) → Memᴰ l ls → in_container l ≡ true → any_in_container ls ≡ true
unfolding any_in_container
found-any [] l m h = elim m [ ]
found-any (k ∷ ls) l (Memᴰ.head p) h = rw (← p, h) refl
found-any (k ∷ ls) l (Memᴰ.tail m) h = ground (arith, found-any ls l m h)

-- A process is said to run in a container exactly where its cgroup file can be read and has a line,
-- not empty, that ends neither in `:/` nor in `:/init.scope`.
pub is_containerized-line {ℓ} :
    {E : Type ℓ} (b : Text)
    → (is_containerized {E = E} (ok b) ≡ (true, none))
      ↔ ((l : Text) × Memᴰ l (split_newlines b) × (in_container l ≡ true))
unfolding is_containerized
is_containerized-line b = (
  λ h. any-found (split_newlines b) (ap (λ x. x.0) h),
  λ (l, m, h). ap (λ x. (x, none)) (found-any (split_newlines b) l m h),
)

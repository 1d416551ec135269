-- ===== src/HttpStat/Order.antt =====
-- Less is a strict order of distinct names.
use mathlib.Core.Bool.{false≢true}
use conniver.Prelude.{
  ◌≡◌, refl, sym, ap, ◌∙◌, Bool, true, false, not, ◌&&◌, [], ◌∷◌, inl, inr, Bool-cases, arith,
}
use conniver.Prelude.Text.{Text, codes, ◌=ₜ◌, =ₜ_sound, =ₜ_refl, ltₜ}
use conniver.HttpStat.Headers.{is_server, end_to_end, by_class, less}

ltₜ-total : (a b : Text) → (a =ₜ b) ≡ false → ltₜ a b ≡ not (ltₜ b a)
ltₜ-total [] [] h = cc
ltₜ-total [] (d ∷ b) h = refl
ltₜ-total (c ∷ a) [] h = refl
ltₜ-total (c ∷ a) (d ∷ b) h = ground (arith, ltₜ-total a b)

ltₜ_trans : (a b c : Text) → ltₜ a b ≡ true → ltₜ b c ≡ true → ltₜ a c ≡ true
ltₜ_trans a b [] h k = k
ltₜ_trans [] b (e ∷ c) h k = refl
ltₜ_trans (x ∷ a) [] (e ∷ c) h k = cc
ltₜ_trans (x ∷ a) (d ∷ b) (e ∷ c) h k = ground (arith, ltₜ_trans a b c)

by_class-total :
    (x y : Bool) (a b : Text) → (a =ₜ b) ≡ false → by_class x y a b ≡ not (by_class y x b a)
by_class-total true true a b h = ltₜ-total a b h
by_class-total false false a b h = ltₜ-total a b h
by_class-total true false a b h = refl
by_class-total false true a b h = refl

by_class_trans :
    (x y z : Bool) (a b c : Text)
    → by_class x y a b ≡ true
    → by_class y z b c ≡ true
    → by_class x z a c ≡ true
by_class_trans true true true a b c h k = ltₜ_trans a b c h k
by_class_trans false false false a b c h k = ltₜ_trans a b c h k
by_class_trans true y false a b c h k = refl
by_class_trans true false true a b c h k = cc
by_class_trans false true z a b c h k = cc
by_class_trans false false true a b c h k = cc

both_server : (a b : Text) → is_server a ≡ true → is_server b ≡ true → a ≡ b
both_server a b h k = =ₜ_sound a (codes "Server") h ∙ sym (=ₜ_sound b (codes "Server") k)

-- Of two distinct names exactly one is less than the other.
pub less-total : (a b : Text) → (a =ₜ b) ≡ false → less a b ≡ not (less b a)
unfolding less
less-total a b h = elim (Bool-cases (is_server a)) [
  | inl s ↦ elim (Bool-cases (is_server b)) [
    | inl t ↦
        absurd (false≢true (sym h ∙ (ap (λ x. a =ₜ x) (sym (both_server a b s t)) ∙ =ₜ_refl a)))
    | inr t ↦ rw (s, t) refl
  ]
  | inr s ↦ elim (Bool-cases (is_server b)) [
    | inl t ↦ rw (s, t) refl
    | inr t ↦ rw (s, t) (by_class-total (end_to_end a) (end_to_end b) a b h)
  ]
]

pub less_trans : (a b c : Text) → less a b ≡ true → less b c ≡ true → less a c ≡ true
unfolding less
less_trans a b c h k =
    ground (arith, by_class_trans (end_to_end a) (end_to_end b) (end_to_end c) a b c)

-- Less orders the names of headers: of two distinct names exactly one comes first, and what comes
-- before a name that comes before another comes before that one.
pub less_lem :
    (a b c : Text)
    → (a =ₜ b) ≡ false
    → (less a b ≡ not (less b a)) × ((less a b && (less b c && not (less a c))) ≡ false)
less_lem a b c h = (less-total a b h, ground (arith, less_trans a b c))

-- ===== src/TcpInfo/Named.antt =====
-- The options that the bits of a word stand for, and how Unpack collects them.
use conniver.Prelude.{
  ℕ, ◌/◌, ◌%◌, ◌≡◌, refl, ◌∙◌, ap, Bool, true, false, not, none, some, List, [], ◌∷◌, ◌++◌, ◌==◌,
  inl, inr, if◌then◌else◌, Bool-cases,
}
use conniver.Prelude.Text.{Text}
use conniver.TcpInfo.Common.{TcpOption, Slice, append_option}

abbrev pub elements : Slice → List TcpOption
elements none = []
elements (some os) = os

-- The option of the bit of weight `weight`, where it is set, and then the others.
abbrev pub where_set : ℕ → ℕ → Text → ℕ → List TcpOption → List TcpOption
where_set word weight kind value others =
    if word / weight % 2 == 1 then record { kind = kind; value = value } ∷ others else others

-- What one round of the loop appends.
abbrev pub added : Bool → TcpOption → List TcpOption
added skipped o = if skipped then [] else o ∷ []

append_assoc : (xs ys zs : List TcpOption) → (xs ++ ys) ++ zs ≡ xs ++ (ys ++ zs)
append_assoc [] ys zs = refl
append_assoc (x ∷ xs) ys zs = ap (λ l. x ∷ l) (append_assoc xs ys zs)

pub append_nil : (xs : List TcpOption) → xs ≡ xs ++ []
append_nil [] = refl
append_nil (x ∷ xs) = ap (λ l. x ∷ l) (append_nil xs)

elements-append_option :
    (s : Slice) (o : TcpOption) → elements (append_option s o) ≡ elements s ++ o ∷ []
elements-append_option none o = refl
elements-append_option (some os) o = refl

round :
    (skipped : Bool) (s : Slice) (o : TcpOption)
    → elements (if skipped then s else append_option s o) ≡ elements s ++ added skipped o
round true s o = append_nil (elements s)
round false s o = elements-append_option s o

-- One round, and then the others.
pub elements-round :
    (skipped : Bool) (s : Slice) (o : TcpOption) (later : List TcpOption) (os : List TcpOption)
    → os ≡ elements (if skipped then s else append_option s o) ++ later
    → os ≡ elements s ++ (added skipped o ++ later)
elements-round skipped s o later os e =
    e
    ∙ (ap (λ l. l ++ later) (round skipped s o) ∙ append_assoc (elements s) (added skipped o) later)

-- A round skips exactly the bits that are not set.
pub added-where_set :
    (skipped : Bool) (word weight : ℕ) (kind : Text) (value : ℕ) (xs ys : List TcpOption)
    → skipped ≡ not (word / weight % 2 == 1)
    → xs ≡ ys
    → added skipped (record { kind = kind; value = value }) ++ xs
      ≡ where_set word weight kind value ys
added-where_set skipped word weight kind value xs ys e q =
    elim (Bool-cases (word / weight % 2 == 1)) [
      | inl h ↦ rw (e, h) (ap (λ l. record { kind = kind; value = value } ∷ l) q)
      | inr h ↦ rw (e, h) q
    ]

-- ===== src/Prelude/Fields.antt =====
-- Go's map[string]any as an association list, with the values that the sources store in one.
use Prim.Native.Nat.{ℕ, zero, suc}
use Prim.Native.String.{String}
use mathlib.Core.Path.{◌≡◌, refl}
use mathlib.Core.Bool.{Bool, true, false, not, ◌&&◌}
use mathlib.Core.Logic.{◌⊎◌, inl, inr}
use mathlib.Core.Option.{Option, none, some}
use mathlib.Core.List.{List, [], ◌∷◌, ◌++◌, Memᴰ}
use native.Mathlib.Omega.{arith}
use package.text.Mathlib.Text.{◌==◌}
use package.text.Mathlib.TextEquality.{eq_iff}
use conniver.Prelude.Tests.{if◌then◌else◌}
use conniver.Prelude.Text.{Text}
use conniver.Prelude.Int.{ℤ}

-- `opts` is a slice of TCP options, each a kind and a value; `none` is the nil slice.
mutual
  pub data Value : Type 0 where
    text : Text → Value
    num : ℕ → Value
    int : ℤ → Value
    bool : Bool → Value
    opts : Option (List (Text × ℕ)) → Value
    texts : List Text → Value
    obj : Fields → Value

  pub data Fields : Type 0 where
    end : Fields
    field : String → Value → Fields → Fields

unfoldable pub lookup : String → Fields → Option Value
lookup k end = none
lookup k (field j v m) = if j == k then some v else lookup k m

-- m[k] = v
unfoldable pub insert : String → Value → Fields → Fields
insert k v end = field k v end
insert k v (field j w m) = if j == k then field k v m else field j w (insert k v m)

pub lookup-insert :
    (k j : String) (v : Value) (m : Fields)
    → lookup j (insert k v m) ≡ (if k == j then some v else lookup j m)
unfolding lookup insert
lookup-insert k j v end = refl
lookup-insert k j v (field i w m) =
    ground (arith, eq_iff k j, eq_iff i k, eq_iff i j, lookup-insert k j v m)

-- An entry that the code stores only under a condition: `if valid { m[k] = v }`.
pub record Entry : Type 0 where
  pub key : String
  pub valid : Bool
  pub value : Value

-- An entry of a map literal.
abbrev pub always : String → Value → Entry
always k v = record { key = k; valid = true; value = v }

abbrev pub put : Entry → Fields → Fields
put e m = if e.valid then insert e.key e.value m else m

-- A run of such statements, in order.
unfoldable pub put_all : List Entry → Fields → Fields
put_all [] m = m
put_all (e ∷ es) m = put_all es (put e m)

-- No key stands twice.
abbrev pub fresh : String → List Entry → Bool
fresh k [] = true
fresh k (e ∷ es) = not (e.key == k) && fresh k es

abbrev pub distinct : List Entry → Bool
distinct [] = true
distinct (e ∷ es) = fresh e.key es && distinct es

pub lookup-put_fresh :
    (k : String) (es : List Entry) (m : Fields)
    → fresh k es ≡ true
    → lookup k (put_all es m) ≡ lookup k m
unfolding put_all
lookup-put_fresh k [] m h = refl
lookup-put_fresh k (e ∷ es) m h =
    ground (arith, lookup-put_fresh k es (put e m), lookup-insert e.key k e.value m)

fresh-mem :
    (k : String) (e : Entry) (es : List Entry)
    → fresh k es ≡ true
    → Memᴰ e es
    → (e.key == k) ≡ false
fresh-mem k e [] h q = elim q [ ]
fresh-mem k e (d ∷ es) h (Memᴰ.head p) = rw p (ground arith)
fresh-mem k e (d ∷ es) h (Memᴰ.tail m) = fresh-mem k e es (ground arith) m

-- What a key of the entries is bound to: the entry's value where it is stored.
abbrev pub stored : Entry → Option Value → Option Value
stored e other = if e.valid then some e.value else other

-- With distinct keys no entry overwrites another.
pub lookup-put_all :
    (e : Entry) (es : List Entry) (m : Fields)
    → distinct es ≡ true
    → Memᴰ e es
    → lookup e.key (put_all es m) ≡ stored e (lookup e.key m)
unfolding put_all
lookup-put_all e [] m h q = elim q [ ]
lookup-put_all e (d ∷ es) m h (Memᴰ.head p) = rw p (
    ground (
      arith,
      lookup-put_fresh d.key es (put d m),
      lookup-insert d.key d.key d.value m,
      eq_iff d.key d.key,
    ))
lookup-put_all e (d ∷ es) m h (Memᴰ.tail q) = ground (
  arith,
  lookup-put_all e es (put d m) (ground arith) q,
  fresh-mem d.key e es (ground arith) q,
  lookup-insert d.key e.key d.value m,
  eq_iff d.key e.key,
  eq_iff e.key d.key,
)

-- The entries of some positions; a position behind the end gives none.
abbrev pub entry_at : ℕ → List Entry → List Entry
entry_at n [] = []
entry_at zero (e ∷ es) = e ∷ []
entry_at (suc n) (e ∷ es) = entry_at n es

abbrev pub entries_at : List ℕ → List Entry → List Entry
entries_at [] es = []
entries_at (n ∷ ns) es = entry_at n es ++ entries_at ns es

entry_at-mem : (n : ℕ) (e : Entry) (es : List Entry) → Memᴰ e (entry_at n es) → Memᴰ e es
entry_at-mem n e [] q = q
entry_at-mem zero e (d ∷ es) (Memᴰ.head p) = Memᴰ.head p
entry_at-mem zero e (d ∷ es) (Memᴰ.tail q) = elim q [ ]
entry_at-mem (suc n) e (d ∷ es) q = Memᴰ.tail (entry_at-mem n e es q)

mem-either : (e : Entry) (xs ys : List Entry) → Memᴰ e (xs ++ ys) → Memᴰ e xs ⊎ Memᴰ e ys
mem-either e [] ys q = inr q
mem-either e (x ∷ xs) ys (Memᴰ.head p) = inl (Memᴰ.head p)
mem-either e (x ∷ xs) ys (Memᴰ.tail q) = elim (mem-either e xs ys q) [
  | inl r ↦ inl (Memᴰ.tail r)
  | inr r ↦ inr r
]

pub entries_at-mem :
    (ns : List ℕ) (e : Entry) (es : List Entry) → Memᴰ e (entries_at ns es) → Memᴰ e es
entries_at-mem [] e es q = elim q [ ]
entries_at-mem (n ∷ ns) e es q = elim (mem-either e (entry_at n es) (entries_at ns es) q) [
  | inl r ↦ entry_at-mem n e es r
  | inr r ↦ entries_at-mem ns e es r
]

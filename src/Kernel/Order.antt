-- ===== src/Kernel/Order.antt =====
-- CompareKernelVersion is the lexicographic order of the three numbers.
use conniver.Prelude.{
  ◌≡◌, sym, ◌∙◌, ◌↔◌, ◌⊎◌, inl, inr, Bool, true, false, not, ltb_ℤ, ℤ, pos, negsuc, ◌<ℤ◌, arith,
}
use mathlib.Core.Path.{subst}
use conniver.Kernel.Version.{VersionInfo, compare_kernel_version}

-- `a` is the older version.
pub data Older (a b : VersionInfo) : Type 0 where
  by_kernel : a.kernel <ℤ b.kernel → Older a b
  by_major : a.kernel ≡ b.kernel → a.major <ℤ b.major → Older a b
  by_minor : a.kernel ≡ b.kernel → a.major ≡ b.major → a.minor <ℤ b.minor → Older a b

abbrev pub SameNumbers : VersionInfo → VersionInfo → Type 0
SameNumbers a b = (a.kernel ≡ b.kernel) × (a.major ≡ b.major) × (a.minor ≡ b.minor)

compare-Older : (a b : VersionInfo) → Older a b → compare_kernel_version a b ≡ negsuc 0
unfolding compare_kernel_version
compare-Older a b (by_kernel h) = ground arith
compare-Older a b (by_major e h) = ground arith
compare-Older a b (by_minor e f h) = ground arith

compare-newer : (a b : VersionInfo) → Older b a → compare_kernel_version a b ≡ pos 1
unfolding compare_kernel_version
compare-newer a b (by_kernel h) = ground arith
compare-newer a b (by_major e h) = ground arith
compare-newer a b (by_minor e f h) = ground arith

compare-same : (a b : VersionInfo) → SameNumbers a b → compare_kernel_version a b ≡ pos 0
unfolding compare_kernel_version
compare-same a b h = ground arith

trichotomy_ℤ : (a b : ℤ) → (a <ℤ b) ⊎ (b <ℤ a) ⊎ (a ≡ b)
trichotomy_ℤ a b = ground arith

verdict : (a b : VersionInfo) → Older a b ⊎ Older b a ⊎ SameNumbers a b
verdict a b = elim (trichotomy_ℤ a.kernel b.kernel) [
  | inl h ↦ inl (by_kernel h)
  | inr (inl h) ↦ inr (inl (by_kernel h))
  | inr (inr e) ↦ elim (trichotomy_ℤ a.major b.major) [
    | inl h ↦ inl (by_major e h)
    | inr (inl h) ↦ inr (inl (by_major (sym e) h))
    | inr (inr f) ↦ elim (trichotomy_ℤ a.minor b.minor) [
      | inl h ↦ inl (by_minor e f h)
      | inr (inl h) ↦ inr (inl (by_minor (sym e) (sym f) h))
      | inr (inr g) ↦ inr (inr (e, f, g))
    ]
  ]
]

-- The comparison is -1, 1 or 0 exactly where the first version is older in the lexicographic order
-- of the three numbers, newer, or has the same numbers.
pub compare_kernel_version_lem :
    (a b : VersionInfo)
    → ((compare_kernel_version a b ≡ negsuc 0) ↔ Older a b)
      × ((compare_kernel_version a b ≡ pos 1) ↔ Older b a)
      × ((compare_kernel_version a b ≡ pos 0) ↔ SameNumbers a b)
compare_kernel_version_lem a b = elim (verdict a b) [
  | inl h ↦
      let e = compare-Older a b h in
      ((λ _. h, compare-Older a b), (λ q. cc, compare-newer a b), (λ q. cc, compare-same a b))
  | inr (inl h) ↦
      let e = compare-newer a b h in
      ((λ q. cc, compare-Older a b), (λ _. h, compare-newer a b), (λ q. cc, compare-same a b))
  | inr (inr h) ↦
      let e = compare-same a b h in
      ((λ q. cc, compare-Older a b), (λ q. cc, compare-newer a b), (λ _. h, compare-same a b))
]

-- `CompareKernelVersion(a, b) >= 0`, as the callers write it.
abbrev pub at_least : VersionInfo → VersionInfo → Bool
at_least a b = not (ltb_ℤ (compare_kernel_version a b) (pos 0))

-- The same, in terms of the three numbers.
abbrev NotOlder : VersionInfo → VersionInfo → Type 0
NotOlder a b =
    (b.kernel <ℤ a.kernel)
    ⊎ (a.kernel ≡ b.kernel)
      × ((b.major <ℤ a.major) ⊎ (a.major ≡ b.major) × (¬ (a.minor <ℤ b.minor)))

at_least-NotOlder : (a b : VersionInfo) → at_least a b ≡ true → NotOlder a b
unfolding compare_kernel_version
at_least-NotOlder a b h = elim (trichotomy_ℤ a.kernel b.kernel) [
  | inl k ↦ absurd (ground arith)
  | inr (inl k) ↦ inl k
  | inr (inr e) ↦ elim (trichotomy_ℤ a.major b.major) [
    | inl m ↦ absurd (ground arith)
    | inr (inl m) ↦ inr (e, inl m)
    | inr (inr f) ↦ inr (e, inr (f, λ m. ground arith))
  ]
]

NotOlder-at_least : (a b : VersionInfo) → NotOlder a b → at_least a b ≡ true
unfolding compare_kernel_version
NotOlder-at_least a b h = ground arith

NotOlder-trans : (a b c : VersionInfo) → NotOlder a b → NotOlder b c → NotOlder a c
NotOlder-trans a b c (inl h) (inl k) = inl (omega arith)
NotOlder-trans a b c (inl h) (inr (e, k)) = inl (subst (λ x. x <ℤ a.kernel) e h)
NotOlder-trans a b c (inr (e, h)) (inl k) = inl (subst (λ x. c.kernel <ℤ x) (sym e) k)
NotOlder-trans a b c (inr (e, inl h)) (inr (f, inl k)) = inr (e ∙ f, inl (omega arith))
NotOlder-trans a b c (inr (e, inl h)) (inr (f, inr (g, k))) =
    inr (e ∙ f, inl (subst (λ x. x <ℤ a.major) g h))
NotOlder-trans a b c (inr (e, inr (g, h))) (inr (f, inl k)) =
    inr (e ∙ f, inl (subst (λ x. c.major <ℤ x) (sym g) k))
NotOlder-trans a b c (inr (e, inr (g, h))) (inr (f, inr (g', k))) =
    inr (e ∙ f, inr (g ∙ g', λ m. omega arith))

-- A version that is at least another is at least all that the other is at least.
pub at_least_trans :
    (a b c : VersionInfo) → at_least a b ≡ true → at_least b c ≡ true → at_least a c ≡ true
at_least_trans a b c h k =
    NotOlder-at_least a c (NotOlder-trans a b c (at_least-NotOlder a b h) (at_least-NotOlder b c k))

-- A version is not at least one that is newer than it.
pub at_least-Older : (a b : VersionInfo) → (at_least a b ≡ false) ↔ Older a b
at_least-Older a b = (older, λ h. ground (arith, compare-Older a b h))
  where
    older : at_least a b ≡ false → Older a b
    older h = elim (verdict a b) [
      | inl o ↦ o
      | inr (inl o) ↦ absurd (ground (arith, compare-newer a b o))
      | inr (inr o) ↦ absurd (ground (arith, compare-same a b o))
    ]

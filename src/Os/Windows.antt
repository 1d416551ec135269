-- ===== src/Os/Windows.antt =====
-- pkg/os/windows_os_string.go and operatingsystem_windows.go.
use conniver.Prelude.{
  ℕ, ◌≡◌, refl, Bool, true, false, Option, none, some, Result, ok, err, List, [], ◌∷◌, ◌++◌, ltb,
  if◌then◌else◌, all, inl, inr, Bool-cases, Result-cases, arith,
}
use conniver.Prelude.Text.{Text, codes, ◌=ₜ◌, has_prefix}
use conniver.Prelude.Decimal.{decimal}

pub record WindowsOsRelease : Type 0 where
  pub is_server : Bool
  pub display_version : Text
  pub build : ℕ
  pub ubr : ℕ

unfoldable pub string : WindowsOsRelease → Text
string r =
    codes "Microsoft Windows"
    ++ ((if r.is_server then codes " Server" else [])
        ++ ((if r.display_version =ₜ [] then [] else codes " Version " ++ r.display_version)
            ++ (codes " (OS Build "
                ++ (decimal r.build
                    ++ ((if ltb 0 r.ubr then codes "." ++ decimal r.ubr else []) ++ codes ")")))))

-- The name says that it is a server exactly on servers.
pub string-server :
    (r : WindowsOsRelease) → has_prefix (string r) (codes "Microsoft Windows Server") ≡ r.is_server
unfolding string
string-server r = elim (Bool-cases r.is_server) [
  | inl s ↦ rw s refl
  | inr s ↦ elim (Bool-cases (r.display_version =ₜ [])) [
    | inl e ↦ rw (s, e) refl
    | inr e ↦ rw (s, e) refl
  ]
]

-- `key` is what GetStringValue answers for a name, `missing` the test for registry.ErrNotExist and
-- `not_exist` that error.
module _ {ℓ} {E : Type ℓ} (not_exist : E) (missing : E → Bool) (key : Text → Result E Text) where
  abbrev next_value : Result E Text → Result E Text → Result E Text
  next_value (ok val) rest = ok val
  next_value (err e) rest = if missing e then rest else err e

  unfoldable pub get_first_string_value : List Text → Result E Text
  get_first_string_value [] = err not_exist
  get_first_string_value (n ∷ names) =
      let rest = get_first_string_value names in next_value (key n) rest

  -- The registry has no value of the name.
  abbrev pub is_missing : Text → Bool
  is_missing n = elim (key n) [ ok val ↦ false | err e ↦ missing e ]

  -- The answer is that of the first name that is not missing, be it a value or another error.
  pub get_first_string_value-first :
      (before : List Text) (n : Text) (after : List Text)
      → all is_missing before ≡ true
      → is_missing n ≡ false
      → get_first_string_value (before ++ n ∷ after) ≡ key n
  unfolding get_first_string_value
  get_first_string_value-first [] n after h k = elim (Result-cases (key n)) [
    | inl (e, q) ↦ ground arith
    | inr (v, q) ↦ ground arith
  ]
  get_first_string_value-first (m ∷ before) n after h k = elim (Result-cases (key m)) [
    | inl (e, q) ↦ ground (arith, get_first_string_value-first before n after)
    | inr (v, q) ↦ ground arith
  ]

  -- What GetOperatingSystem makes of RtlGetVersion (is it no workstation, the build number), of
  -- opening the registry key, and of the value of UBR.
  unfoldable pub get_operating_system : Bool → ℕ → Option E → Result E ℕ → Text
  get_operating_system server build opened ubr = string record {
    is_server = server;
    display_version = elim opened [
      | some e ↦ []
      | none ↦ elim (get_first_string_value (codes "DisplayVersion" ∷ codes "ReleaseId" ∷ [])) [
        | ok ver ↦ ver
        | err e ↦ []
      ]
    ];
    build = build;
    ubr = elim opened [ some e ↦ 0 | none ↦ elim ubr [ ok u ↦ u | err e ↦ 0 ] ];
  }

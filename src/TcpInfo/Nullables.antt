-- ===== src/TcpInfo/Nullables.antt =====
-- NullableBool, NullableUint8 and the other nullable types of tcpinfo_linux.go, as one generic type.
use conniver.Prelude.{Bool, true, false, if◌then◌else◌}

pub record Nullable {ℓ} (A : Type ℓ) : Type ℓ where
  pub valid : Bool
  pub value : A

-- `x = Nullable{Valid: false}; if flag { x.Valid = true; x.Value = v }`, where `z` is the zero value
-- of the type.
abbrev pub gated {ℓ} : {A : Type ℓ} → Bool → A → A → Nullable A
gated flag z v =
    if flag then record { valid = true; value = v } else record { valid = false; value = z }

-- `Nullable{Valid: true, Value: v}`
abbrev pub valid_of {ℓ} : {A : Type ℓ} → A → Nullable A
valid_of v = record { valid = true; value = v }

-- ===== src/TcpInfo/Linux/Versions.antt =====
-- init_linux.go: the versions that changed tcp_info, and what the library sets for the running kernel.
use conniver.Prelude.{
  ℕ, pos, Result, ok, err, Bool, true, false, Option, none, some, List, [], ◌∷◌, if◌then◌else◌,
}
use conniver.Prelude.Text.{Text}
use conniver.Kernel.{VersionInfo}
use conniver.Kernel.Order.{at_least}

-- The globals kernelVersionIsAtLeast_….
pub record Flags : Type 0 where
  pub v2_6_2 : Bool
  pub v3_15 : Bool
  pub v4_1 : Bool
  pub v4_2 : Bool
  pub v4_6 : Bool
  pub v4_9 : Bool
  pub v4_10 : Bool
  pub v4_18 : Bool
  pub v4_19 : Bool
  pub v5_4 : Bool
  pub v5_5 : Bool
  pub v6_2 : Bool
  pub v6_7 : Bool

-- A pointer to one of them.
pub data Flag : Type 0 where
  at_v2_6_2 at_v3_15 at_v4_1 at_v4_2 at_v4_6 at_v4_9 at_v4_10 at_v4_18 at_v4_19 at_v5_4 at_v5_5
        at_v6_2 at_v6_7 :
      Flag

abbrev pub get : Flag → Flags → Bool
get at_v2_6_2 f = f.v2_6_2
get at_v3_15 f = f.v3_15
get at_v4_1 f = f.v4_1
get at_v4_2 f = f.v4_2
get at_v4_6 f = f.v4_6
get at_v4_9 f = f.v4_9
get at_v4_10 f = f.v4_10
get at_v4_18 f = f.v4_18
get at_v4_19 f = f.v4_19
get at_v5_4 f = f.v5_4
get at_v5_5 f = f.v5_5
get at_v6_2 f = f.v6_2
get at_v6_7 f = f.v6_7

abbrev pub set : Flag → Bool → Flags → Flags
set at_v2_6_2 b f = record f { v2_6_2 = b }
set at_v3_15 b f = record f { v3_15 = b }
set at_v4_1 b f = record f { v4_1 = b }
set at_v4_2 b f = record f { v4_2 = b }
set at_v4_6 b f = record f { v4_6 = b }
set at_v4_9 b f = record f { v4_9 = b }
set at_v4_10 b f = record f { v4_10 = b }
set at_v4_18 b f = record f { v4_18 = b }
set at_v4_19 b f = record f { v4_19 = b }
set at_v5_4 b f = record f { v5_4 = b }
set at_v5_5 b f = record f { v5_5 = b }
set at_v6_2 b f = record f { v6_2 = b }
set at_v6_7 b f = record f { v6_7 = b }

pub record VersionedStructSize : Type 0 where
  pub version : VersionInfo
  pub size : ℕ
  pub flag : Flag

abbrev pub numbered : ℕ → ℕ → ℕ → VersionInfo
numbered k m n = record { kernel = pos k; major = pos m; minor = pos n; flavor = [] }

-- tcpInfoSizes from its last entry to its first, as the loops run through it.
abbrev pub tcp_info_sizes : List VersionedStructSize
tcp_info_sizes =
    record { version = numbered 6 7 0; size = 248; flag = at_v6_7 }
    ∷ record { version = numbered 6 2 0; size = 240; flag = at_v6_2 }
    ∷ record { version = numbered 5 5 0; size = 232; flag = at_v5_5 }
    ∷ record { version = numbered 5 4 0; size = 232; flag = at_v5_4 }
    ∷ record { version = numbered 4 19 0; size = 224; flag = at_v4_19 }
    ∷ record { version = numbered 4 18 0; size = 200; flag = at_v4_18 }
    ∷ record { version = numbered 4 10 0; size = 192; flag = at_v4_10 }
    ∷ record { version = numbered 4 9 0; size = 148; flag = at_v4_9 }
    ∷ record { version = numbered 4 6 0; size = 160; flag = at_v4_6 }
    ∷ record { version = numbered 4 2 0; size = 144; flag = at_v4_2 }
    ∷ record { version = numbered 4 1 0; size = 136; flag = at_v4_1 }
    ∷ record { version = numbered 3 15 0; size = 120; flag = at_v3_15 }
    ∷ record { version = numbered 2 6 2; size = 104; flag = at_v2_6_2 }
    ∷ []

-- The globals that adaptToKernelVersion writes.
pub record Adapted : Type 0 where
  pub linux_kernel_version : Option VersionInfo
  pub size_of_raw_tcp_info : ℕ
  pub flags : Flags

-- The inner loop: all flags from the entry down.
abbrev pub set_all : List VersionedStructSize → Flags → Flags
set_all [] f = f
set_all (e ∷ es) f = set_all es (set e.flag true f)

-- The outer loop.
unfoldable pub adapt_loop : VersionInfo → List VersionedStructSize → Adapted → Adapted
adapt_loop v [] s = s
adapt_loop v (e ∷ es) s =
    let rest = adapt_loop v es (record s { flags = set e.flag false s.flags }) in
    if at_least v e.version
    then record s { size_of_raw_tcp_info = e.size; flags = set_all (e ∷ es) s.flags }
    else rest

-- What is known of the kernel, by an earlier call or from GetKernelVersion, with its fallback.
abbrev pub detect : Result Text VersionInfo → Option VersionInfo → VersionInfo
detect found (some v) = v
detect (ok v) none = v
detect (err e) none = numbered 2 6 2

unfoldable pub adapt_to_kernel_version : Result Text VersionInfo → Adapted → Adapted
adapt_to_kernel_version found s =
    let v = detect found s.linux_kernel_version in
    adapt_loop v tcp_info_sizes (record s { linux_kernel_version = some v })

-- The globals before init.
abbrev pub initial : Adapted
initial = record {
  linux_kernel_version = none;
  size_of_raw_tcp_info = 0;
  flags = record {
    v2_6_2 = false;
    v3_15 = false;
    v4_1 = false;
    v4_2 = false;
    v4_6 = false;
    v4_9 = false;
    v4_10 = false;
    v4_18 = false;
    v4_19 = false;
    v5_4 = false;
    v5_5 = false;
    v6_2 = false;
    v6_7 = false;
  };
}

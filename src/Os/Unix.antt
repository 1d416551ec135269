-- ===== src/Os/Unix.antt =====
-- pkg/os/operatingsystem_unix.go, for FreeBSD and Darwin. What uname answers is an argument.
use conniver.Prelude.{Bool, false, Result, ok, err}
use conniver.Prelude.Text.{Text, codes, up_to_nul}

-- The field Machine of unix.Utsname.
pub record Utsname : Type 0 where
  pub machine : Text

module _ {E : Type 0} (errors_new : Text → E) where
  unfoldable pub get_operating_system : Result E Utsname → Result E Text
  get_operating_system (err e) = err e
  get_operating_system (ok utsname) = ok (up_to_nul utsname.machine)

  unfoldable pub get_operating_system_version : Result E Text
  get_operating_system_version = err (errors_new (codes "Unsupported on generic unix"))

  -- The value is false beside the error.
  unfoldable pub is_containerized : Bool × E
  is_containerized = (false, errors_new (codes "Cannot detect if we are in container"))

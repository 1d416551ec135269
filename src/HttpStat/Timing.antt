-- ===== src/HttpStat/Timing.antt =====
-- cmd/httpstat/main.go: the times that visit takes, and the numbers that it prints of them. Colors are
-- left out.
use conniver.Prelude.{
  ℕ, zero, suc, ◌-◌, ◌/◌, Bool, true, false, Option, none, some, List, [], ◌∷◌, ◌++◌, leb, ◌==◌,
  if◌then◌else◌, length, ℤ, pos, negsuc,
}
use mathlib.Core.List.{map}
use conniver.Prelude.Text.{Text, codes, ◌=ₜ◌}
use conniver.Prelude.Words.{millisecond}
use conniver.Prelude.Decimal.{decimal_ℤ}

-- A time.Time, in nanoseconds from Go's zero time: 0 is the time that IsZero.
abbrev pub Time : Type 0
Time = ℕ

pub record Times : Type 0 where
  pub t0 : Time
  pub t1 : Time
  pub t2 : Time
  pub t3 : Time
  pub t4 : Time
  pub t5 : Time
  pub t6 : Time

abbrev pub no_times : Times
no_times = record { t0 = 0; t1 = 0; t2 = 0; t3 = 0; t4 = 0; t5 = 0; t6 = 0 }

-- The callbacks of the trace; of ConnectDone, the address and whether its error is nil.
pub data TraceEvent : Type 0 where
  dns_start dns_done connect_start : TraceEvent
  connect_done : Text → Bool → TraceEvent
  got_conn first_byte tls_start tls_done : TraceEvent

-- A callback at a time. `none` is log.Fatalf.
unfoldable pub trace_event : Time → TraceEvent → Times → Option Times
trace_event now dns_start t = some (record t { t0 = now })
trace_event now dns_done t = some (record t { t1 = now })
trace_event now connect_start t = some (record t { t1 = if t.t1 == 0 then now else t.t1 })
trace_event now (connect_done addr false) t = none
trace_event now (connect_done addr true) t = some (record t { t2 = now })
trace_event now got_conn t = some (record t { t3 = now })
trace_event now first_byte t = some (record t { t4 = now })
trace_event now tls_start t = some (record t { t5 = now })
trace_event now tls_done t = some (record t { t6 = now })

abbrev and_trace : Option Times → (Times → Option Times) → Option Times
and_trace none next = none
and_trace (some t) next = next t

unfoldable pub run_trace : List (Time × TraceEvent) → Times → Option Times
unfolding trace_event
run_trace [] t = some t
run_trace ((now, e) ∷ es) t = and_trace (trace_event now e t) (run_trace es)

-- `if t0.IsZero() { t0 = t1 }`
unfoldable pub skip_dns : Times → Times
skip_dns t = record t { t0 = if t.t0 == 0 then t.t1 else t.t0 }

abbrev max_int : ℕ
max_int = 9223372036854775807

abbrev min : ℕ → ℕ → ℕ
min a b = if leb a b then a else b

-- t.Sub(u), an int64 that saturates
unfoldable pub sub : Time → Time → ℤ
sub t u = if leb u t then pos (min (t - u) max_int) else negsuc (min (u - t - 1) max_int)

-- int(d / time.Millisecond), rounded towards 0
unfoldable pub in_ms : ℤ → ℤ
in_ms (pos n) = pos (n / millisecond)
in_ms (negsuc n) = elim (suc n / millisecond) [ zero ↦ pos 0 | suc m ↦ negsuc m ]

abbrev pub spaces : ℕ → Text
spaces zero = []
spaces (suc n) = b' ' ∷ spaces n

-- %7dms and %-9s
unfoldable pub fmta : ℤ → Text
fmta d = let s = decimal_ℤ (in_ms d) in (spaces (7 - length s) ++ s) ++ codes "ms"

unfoldable pub fmtb : ℤ → Text
fmtb d = let s = decimal_ℤ (in_ms d) ++ codes "ms" in s ++ spaces (9 - length s)

-- The phases and the marks of the printed table, for each scheme, at the end time t7.
unfoldable pub https_phases : Times → Time → List ℤ
https_phases t t7 = sub t.t1 t.t0 ∷ sub t.t2 t.t1 ∷ sub t.t6 t.t5 ∷ sub t.t4 t.t3 ∷ sub t7 t.t4 ∷ []

unfoldable pub https_marks : Times → Time → List ℤ
https_marks t t7 = sub t.t1 t.t0 ∷ sub t.t2 t.t0 ∷ sub t.t3 t.t0 ∷ sub t.t4 t.t0 ∷ sub t7 t.t0 ∷ []

unfoldable pub http_phases : Times → Time → List ℤ
http_phases t t7 = sub t.t1 t.t0 ∷ sub t.t3 t.t1 ∷ sub t.t4 t.t3 ∷ sub t7 t.t4 ∷ []

unfoldable pub http_marks : Times → Time → List ℤ
http_marks t t7 = sub t.t1 t.t0 ∷ sub t.t3 t.t0 ∷ sub t.t4 t.t0 ∷ sub t7 t.t0 ∷ []

-- What fills the template of the scheme; nothing is printed for others.
unfoldable pub cells : Text → Times → Time → List Text
cells scheme t t7 =
    if scheme =ₜ codes "https"
    then map fmta (https_phases t t7) ++ map fmtb (https_marks t t7)
    else if scheme =ₜ codes "http"
    then map fmta (http_phases t t7) ++ map fmtb (http_marks t t7)
    else []

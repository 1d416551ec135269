-- ===== src/HttpStat/Sums.antt =====
-- The printed times of a visit add up, but for the rounding to milliseconds.
use conniver.Prelude.{
  ℕ, ◌+◌, ◌-◌, ◌/◌, ◌≤◌, ◌<◌, ◌≡◌, refl, Bool, true, false, Option, none, some, List, [], ◌∷◌, ◌++◌,
  ℤ, pos, pos_part, neg_part, arith,
}
use conniver.Prelude.Text.{codes}
use conniver.Prelude.Words.{millisecond}
use conniver.HttpStat.Timing.{
  Time, Times, no_times, TraceEvent, dns_start, dns_done, connect_start, connect_done, got_conn,
  first_byte, tls_start, tls_done, run_trace, trace_event, skip_dns, sub, in_ms, https_phases,
}

-- In order, no difference is negative, and short ones do not saturate.
in_ms-sub :
    (t u : Time)
    → u ≤ t
    → t - u < 9223372036854775808
    → in_ms (sub t u) ≡ pos ((t - u) / millisecond)
unfolding in_ms sub
in_ms-sub t u h k = ground arith

abbrev pub lookups : Bool → Time → Time → List (Time × TraceEvent)
lookups false a b = []
lookups true a b = (a, dns_start) ∷ (b, dns_done) ∷ []

-- The callbacks of a request over plain TCP, and of one over TLS; an address needs no lookup.
abbrev pub http_run : Bool → Time → Time → Time → Time → Time → Time → List (Time × TraceEvent)
http_run dns a b c d g f =
    lookups dns a b
    ++ (c, connect_start) ∷ (d, connect_done (codes "") true) ∷ (g, got_conn) ∷ (f, first_byte) ∷ []

abbrev pub https_run :
    Bool → Time → Time → Time → Time → Time → Time → Time → Time → List (Time × TraceEvent)
https_run dns a b c d h i g f =
    lookups dns a b
    ++ (c, connect_start)
      ∷ (d, connect_done (codes "") true)
      ∷ (h, tls_start)
      ∷ (i, tls_done)
      ∷ (g, got_conn)
      ∷ (f, first_byte)
      ∷ []

-- No time is before the one in front of it.
abbrev pub IsRising : Time → List Time → Type 0
IsRising a [] = Unit {0}
IsRising a (b ∷ ts) = (a ≤ b) × IsRising b ts

-- The sum of the printed numbers, and that none of them has a sign.
abbrev pub printed : List ℤ → ℕ
printed [] = 0
printed (x ∷ xs) = pos_part (in_ms x) + printed xs

abbrev pub unsigned : List ℤ → ℕ
unsigned [] = 0
unsigned (x ∷ xs) = neg_part (in_ms x) + unsigned xs

-- From `t0` to the end.
abbrev pub total : Times → Time → ℕ
total t t7 = pos_part (in_ms (sub t7 t.t0))

https_phases-sum :
    (t : Times) (t7 : Time)
    → IsRising t.t0 (t.t1 ∷ t.t2 ∷ t.t5 ∷ t.t6 ∷ t.t3 ∷ t.t4 ∷ t7 ∷ [])
    → t7 - t.t0 < 9223372036854775808
    → (printed (https_phases t t7) ≤ total t t7) × (unsigned (https_phases t t7) ≡ 0)
unfolding https_phases
https_phases-sum t t7 h k =
    rw
      (
        in_ms-sub t.t1 t.t0 (omega (arith, h)) (omega (arith, h)),
        in_ms-sub t.t2 t.t1 (omega (arith, h)) (omega (arith, h)),
        in_ms-sub t.t6 t.t5 (omega (arith, h)) (omega (arith, h)),
        in_ms-sub t.t4 t.t3 (omega (arith, h)) (omega (arith, h)),
        in_ms-sub t7 t.t4 (omega (arith, h)) (omega (arith, h)),
        in_ms-sub t7 t.t0 (omega (arith, h)) k,
      )
      (omega (arith, h), refl)

abbrev skipped : Option Times → Option Times
skipped none = none
skipped (some t) = some (skip_dns t)

-- The times that visit works with, once the trace has run.
abbrev pub traced : List (Time × TraceEvent) → Option Times
traced es = skipped (run_trace es no_times)

-- The same over TLS: the five phases that are printed do not exceed the printed total, and none of
-- them is negative.
pub https_run-sum :
    (dns : Bool) (a b c d h i g f t7 : Time)
    → 0 < a
    → IsRising a (b ∷ c ∷ d ∷ h ∷ i ∷ g ∷ f ∷ t7 ∷ [])
    → t7 - a < 9223372036854775808
    → (t : Times) × (traced (https_run dns a b c d h i g f) ≡ some t)
      × (printed (https_phases t t7) ≤ total t t7)
      × (unsigned (https_phases t t7) ≡ 0)
unfolding run_trace trace_event skip_dns
https_run-sum false a b c d h i g f t7 z r k =
    let t : Times = record { t0 = c; t1 = c; t2 = d; t3 = g; t4 = f; t5 = h; t6 = i } in
    let q = https_phases-sum t t7 (omega (arith, r)) (omega (arith, r, k)) in (t, refl, q.0, q.1)
https_run-sum true a b c d h i g f t7 z r k =
    let t : Times = record { t0 = a; t1 = b; t2 = d; t3 = g; t4 = f; t5 = h; t6 = i } in
    let q = https_phases-sum t t7 (omega (arith, r)) k in (t, ground (arith, r, z), q.0, q.1)

-- ===== src/Wrap/Spec.antt =====
-- What a wrapped connection promises, without goroutines, mutex or channel: it is live, then it
-- closes, then it is closed with an error for good.
use conniver.Prelude.{ℕ, ◌+◌, ◌<◌, ◌≡◌, Bool, true, false, Option, List, [], ◌∷◌}
use conniver.Prelude.Words.{w64}
use conniver.Wrap.World.{World}
use conniver.Wrap.Conn.{Done, absent, pending, closed}
use conniver.Wrap.Report.{Call}
use conniver.Wrap.System.{Shared}

module _ (W : World) where
  open W use {Err}

  pub data Phase : Type 0 where
    live closing : Phase
    ended : Option Err → Phase

  -- The transfers that have begun and not ended, the bytes that have been received and sent, and the
  -- counts that have been reported.
  pub record Promise : Type 0 where
    pub phase : Phase
    pub transfers : ℕ
    pub received : ℕ
    pub sent : ℕ
    pub reports : List (ℕ × ℕ)

  abbrev pub report_of : Bool → ℕ × ℕ → List (ℕ × ℕ)
  report_of false counts = []
  report_of true counts = counts ∷ []

  -- One event. `callback` says whether there is a report callback.
  pub data Event (callback : Bool) (a : Promise) : Promise → Type 0 where
    begins : a.phase ≡ live → Event callback a (record a { transfers = a.transfers + 1 })
    receives : (n : ℕ) → 0 < a.transfers → Event callback a (record a { received = a.received + n })
    sends : (n : ℕ) → 0 < a.transfers → Event callback a (record a { sent = a.sent + n })
    ends : (k : ℕ) → a.transfers ≡ k + 1 → Event callback a (record a { transfers = k })
    closes : a.phase ≡ live → Event callback a (record a { phase = closing })
    reports :
        callback ≡ true
        → a.phase ≡ closing
        → a.transfers ≡ 0
        → a.reports ≡ []
        → Event callback a (record a { reports = (w64 a.received, w64 a.sent) ∷ [] })
    finishes :
        (e : Option Err)
        → a.phase ≡ closing
        → a.transfers ≡ 0
        → a.reports ≡ report_of callback (w64 a.received, w64 a.sent)
        → Event callback a (record a { phase = ended e })

  pub data Events (callback : Bool) (a : Promise) : Promise → Type 0 where
    none_more : Events callback a a
    and_then : {b c : Promise} → Events callback a b → Event callback b c → Events callback a c

  -- What of the state of the goroutines the promise speaks of.
  abbrev pub phase_of : Done → Option Err → Phase
  phase_of absent e = live
  phase_of pending e = closing
  phase_of closed e = ended e

  abbrev pub counts_of : List (Call W) → List (ℕ × ℕ)
  counts_of [] = []
  counts_of ((snap, state) ∷ log) = (w64 snap.rx_bytes, w64 snap.tx_bytes) ∷ counts_of log

  abbrev pub promise_of : Shared W → Promise
  promise_of m = record {
    phase = phase_of m.w.close_done m.w.close_err;
    transfers = m.w.in_flight;
    received = m.rx_total;
    sent = m.tx_total;
    reports = counts_of m.log;
  }

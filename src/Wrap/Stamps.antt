-- ===== src/Wrap/Stamps.antt =====
-- Byte counts and timestamps over a run of reads and writes.
use conniver.Prelude.{
  ℕ, ◌+◌, ◌<◌, ◌≡◌, refl, ◌∙◌, Option, none, some, List, [], ◌∷◌, ◌==◌, if◌then◌else◌, Bool-cases,
  inl, inr, arith, ltb, true, false, ◌&&◌,
}
use conniver.Prelude.Words.{w64}
use conniver.Wrap.World.{World}
use conniver.Wrap.Conn.{Conn, record_read, record_write}

module _ (W : World) where
  -- A transfer in one direction: its time, its bytes and its error.
  abbrev pub Transfer : Type 0
  Transfer = ℕ × ℕ × Option W.Err

  abbrev pub record_reads : List Transfer → Conn W → Conn W
  record_reads [] w = w
  record_reads ((ts, n, e) ∷ ts') w = record_reads ts' (record_read W ts n e w)

  abbrev pub record_writes : List Transfer → Conn W → Conn W
  record_writes [] w = w
  record_writes ((ts, n, e) ∷ ts') w = record_writes ts' (record_write W ts n e w)

  abbrev pub total : List Transfer → ℕ
  total [] = 0
  total ((ts, n, e) ∷ ts') = n + total ts'

  record_read-counts :
      (ts : List Transfer) (w : Conn W)
      → w64 (record_reads ts w).rx_bytes ≡ w64 (w.rx_bytes + total ts)
  unfolding record_read
  record_read-counts [] w = ground arith
  record_read-counts ((t, n, e) ∷ ts) w =
      ground (arith, record_read-counts ts (record_read W t n e w))

  record_write-counts :
      (ts : List Transfer) (w : Conn W)
      → w64 (record_writes ts w).tx_bytes ≡ w64 (w.tx_bytes + total ts)
  unfolding record_write
  record_write-counts [] w = ground arith
  record_write-counts ((t, n, e) ∷ ts) w =
      ground (arith, record_write-counts ts (record_write W t n e w))

  -- Over any run of reads and any run of writes each counter grows by the bytes that they moved,
  -- modulo 2 ^ 64, those of failed calls included.
  pub transfers-count :
      (rs ws : List Transfer) (w : Conn W)
      → (w64 (record_reads rs w).rx_bytes ≡ w64 (w.rx_bytes + total rs))
        × (w64 (record_writes ws w).tx_bytes ≡ w64 (w.tx_bytes + total ws))
  transfers-count rs ws w = (record_read-counts rs w, record_write-counts ws w)

  -- The times of the transfers that had no error and moved a byte.
  abbrev pub moments : List Transfer → List ℕ
  moments [] = []
  moments ((ts, n, some e) ∷ ts') = moments ts'
  moments ((ts, n, none) ∷ ts') = if n == 0 then moments ts' else ts ∷ moments ts'

  -- A timestamp that keeps the first time, where 0 is unset, and one that keeps the last.
  abbrev pub first_of : ℕ → List ℕ → ℕ
  first_of old [] = old
  first_of old (t ∷ ts) = if old == 0 then t else old

  abbrev pub last_of : ℕ → List ℕ → ℕ
  last_of old [] = old
  last_of old (t ∷ ts) = last_of t ts

  abbrev pub IsTimed : List Transfer → Type 0
  IsTimed [] = Unit {0}
  IsTimed ((ts, n, e) ∷ ts') = (0 < ts) × IsTimed ts'

  -- A time that is set is kept as the first.
  first_of-next :
      (old t : ℕ) (ts : List ℕ)
      → 0 < t
      → first_of (if old == 0 then t else old) ts ≡ (if old == 0 then t else old)
  first_of-next old t [] h = refl
  first_of-next old t (u ∷ ts) h = ground arith

  first_step :
      (old t n : ℕ) (ts : List ℕ)
      → 0 < t
      → first_of (if ltb 0 n && old == 0 then t else old) ts
        ≡ first_of old (if n == 0 then ts else t ∷ ts)
  first_step old t n ts p = elim (Bool-cases (n == 0)) [
    | inl z ↦ let m : ltb 0 n ≡ false = ground arith in rw (z, m) refl
    | inr z ↦ let m : ltb 0 n ≡ true = ground arith in rw (z, m) (first_of-next old t ts p)
  ]

  last_step :
      (old t n : ℕ) (ts : List ℕ)
      → last_of (if ltb 0 n then t else old) ts ≡ last_of old (if n == 0 then ts else t ∷ ts)
  last_step old t n ts = elim (Bool-cases (n == 0)) [
    | inl z ↦ let m : ltb 0 n ≡ false = ground arith in rw (z, m) refl
    | inr z ↦ let m : ltb 0 n ≡ true = ground arith in rw (z, m) refl
  ]

  record_read-stamps :
      (ts : List Transfer) (w : Conn W)
      → IsTimed ts
      → ((record_reads ts w).first_rx_at ≡ first_of w.first_rx_at (moments ts))
        × ((record_reads ts w).last_rx_at ≡ last_of w.last_rx_at (moments ts))
  unfolding record_read
  record_read-stamps [] w h = (refl, refl)
  record_read-stamps ((t, n, some e) ∷ ts) w (p, h) =
      record_read-stamps ts (record_read W t n (some e) w) h
  record_read-stamps ((t, n, none) ∷ ts) w (p, h) =
      let (first, last) = record_read-stamps ts (record_read W t n none w) h in
      (
        first ∙ first_step w.first_rx_at t n (moments ts) p,
        last ∙ last_step w.last_rx_at t n (moments ts),
      )

  record_write-stamps :
      (ts : List Transfer) (w : Conn W)
      → IsTimed ts
      → ((record_writes ts w).first_tx_at ≡ first_of w.first_tx_at (moments ts))
        × ((record_writes ts w).last_tx_at ≡ last_of w.last_tx_at (moments ts))
  unfolding record_write
  record_write-stamps [] w h = (refl, refl)
  record_write-stamps ((t, n, some e) ∷ ts) w (p, h) =
      record_write-stamps ts (record_write W t n (some e) w) h
  record_write-stamps ((t, n, none) ∷ ts) w (p, h) =
      let (first, last) = record_write-stamps ts (record_write W t n none w) h in
      (
        first ∙ first_step w.first_tx_at t n (moments ts) p,
        last ∙ last_step w.last_tx_at t n (moments ts),
      )

  -- After a run of reads and a run of writes whose times are set, the first timestamp of each direction
  -- is what it was, where it was set, and else the time of the first transfer that had no error and
  -- moved a byte, and the last timestamp is the time of the last such transfer; without any such
  -- transfer both are what they were.
  pub transfers-stamps :
      (rs ws : List Transfer) (w : Conn W)
      → IsTimed rs
      → IsTimed ws
      → ((record_reads rs w).first_rx_at ≡ first_of w.first_rx_at (moments rs))
        × ((record_reads rs w).last_rx_at ≡ last_of w.last_rx_at (moments rs))
        × ((record_writes ws w).first_tx_at ≡ first_of w.first_tx_at (moments ws))
        × ((record_writes ws w).last_tx_at ≡ last_of w.last_tx_at (moments ws))
  transfers-stamps rs ws w h k =
      let (first_rx, last_rx) = record_read-stamps rs w h in
      let (first_tx, last_tx) = record_write-stamps ws w k in (first_rx, last_rx, first_tx, last_tx)

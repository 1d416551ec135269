-- ===== src/Wrap/Entries.antt =====
-- What Conn.ToMap binds each key to, against the JSON tags of the fields of Conn.
use conniver.Prelude.{ℕ, ◌≡◌, refl, true, none, List, [], ◌∷◌}
use conniver.Prelude.Fields.{
  num, int, Entry, always, end, lookup, distinct, stored, lookup-put_all, entries_at,
  entries_at-mem,
}
use mathlib.Core.Path.{subst}
use mathlib.Core.List.{Memᴰ}
use conniver.Wrap.World.{World}
use conniver.Wrap.Conn.{Conn}
use conniver.Wrap.Report.{err_entry, info_entry, conn_entries, to_map}

module _ (W : World) where
  conn_entries-distinct : (w : Conn W) → distinct (conn_entries W w) ≡ true
  conn_entries-distinct w = refl

  -- An entry of the map is found under its key exactly where it is stored, since no key stands twice.
  pub conn_map-lookup :
      (w : Conn W) (e : Entry)
      → Memᴰ e (conn_entries W w)
      → lookup e.key (to_map W w) ≡ stored e none
  unfolding to_map lookup
  conn_map-lookup w e m = lookup-put_all e (conn_entries W w) end (conn_entries-distinct w) m

  -- The fields of Conn with a JSON tag, in the order of the struct, each under its tag.
  abbrev pub tagged : Conn W → List Entry
  tagged w =
      always "openedAt" (num w.opened_at)
      ∷ always "closedAt" (num w.closed_at)
      ∷ always "firstRxAt" (num w.first_rx_at)
      ∷ always "firstTxAt" (num w.first_tx_at)
      ∷ always "lastRxAt" (num w.last_rx_at)
      ∷ always "lastTxAt" (num w.last_tx_at)
      ∷ always "txBytes" (num w.tx_bytes)
      ∷ always "rxBytes" (num w.rx_bytes)
      ∷ err_entry W "rxErr" w.rx_err
      ∷ err_entry W "txErr" w.tx_err
      ∷ err_entry W "infoErr" w.info_err
      ∷ always "reconnects" (int w.reconnects)
      ∷ info_entry W "openedInfo" w.opened_info
      ∷ info_entry W "closedInfo" w.closed_info
      ∷ []

  positions : List ℕ
  positions = 0 ∷ 1 ∷ 2 ∷ 3 ∷ 4 ∷ 5 ∷ 6 ∷ 7 ∷ 12 ∷ 13 ∷ 14 ∷ 8 ∷ 15 ∷ 16 ∷ []

  tagged-positions : (w : Conn W) → tagged w ≡ entries_at positions (conn_entries W w)
  unfolding positions
  tagged-positions w = refl

  -- ToMap binds the JSON tag of each field of Conn to that field: the errors, as texts, and the
  -- information, as maps, exactly where they are not nil.
  pub conn_map-tagged :
      (w : Conn W) (e : Entry) → Memᴰ e (tagged w) → lookup e.key (to_map W w) ≡ stored e none
  conn_map-tagged w e m =
      conn_map-lookup w e
        (entries_at-mem positions e (conn_entries W w) (subst (Memᴰ e) (tagged-positions w) m))

-- ===== src/TcpInfo/Common.antt =====
-- Info, Option and their methods.
use conniver.Prelude.{
  ℕ, Bool, zero, suc, ◌+◌, ◌/◌, ◌%◌, true, false, Option, none, some, List, [], ◌∷◌, ◌++◌, ltb,
  ◌==◌, if◌then◌else◌,
}
use conniver.Prelude.Text.{Text}
use conniver.Prelude.Decimal.{decimal}
use conniver.Prelude.Fields.{Value, num, Fields, end, Entry, always, put_all}
use mathlib.Core.List.{map}

pub record TcpOption : Type 0 where
  pub kind : Text
  pub value : ℕ

-- A Go slice of options: `none` is the nil slice.
abbrev pub Slice : Type 0
Slice = Option (List TcpOption)

-- append(s, o)
abbrev pub append_option : Slice → TcpOption → Slice
append_option none o = some (o ∷ [])
append_option (some os) o = some (os ++ o ∷ [])

pub record Info (S : Type 0) : Type 0 where
  pub state : Text
  pub tx_options : Slice
  pub rx_options : Slice
  pub tx_mss : ℕ
  pub rx_mss : ℕ
  pub rtt : ℕ
  pub rtt_var : ℕ
  pub rto : ℕ
  pub ato : ℕ
  pub last_tx_at : ℕ
  pub last_rx_at : ℕ
  pub last_tx_ack_at : ℕ
  pub last_rx_ack_at : ℕ
  pub rx_window : ℕ
  pub tx_ss_threshold : ℕ
  pub rx_ss_threshold : ℕ
  pub tx_window_bytes : ℕ
  pub tx_window_segs : ℕ
  pub retransmits : ℕ
  pub sys : Option S

-- append([]Option(nil), options...) of an empty slice is the nil slice.
unfoldable pub clone_options : Slice → Slice
clone_options none = none
clone_options (some []) = none
clone_options (some (o ∷ os)) = some (o ∷ os)

-- Clone of a pointer to Info, with the Clone of the platform's information.
module _ {S : Type 0} where
  unfoldable pub clone_info : (Option S → Option S) → Option (Info S) → Option (Info S)
  clone_info clone_sys none = none
  clone_info clone_sys (some i) = some (record i {
    tx_options = clone_options i.tx_options;
    rx_options = clone_options i.rx_options;
    sys = clone_sys i.sys;
  })

-- A digit of %x.
abbrev hex_digit : ℕ → ℕ
hex_digit d = if ltb d 10 then d + 48 else d + 87

hex_digits : ℕ → ℕ → Text
hex_digits zero n = []
hex_digits (suc f) n =
    let rest = hex_digits f (n / 16) in
    if ltb n 16 then hex_digit n ∷ [] else rest ++ hex_digit (n % 16) ∷ []

-- %.2x: at least two digits, for a number below 2 ^ 64, of at most sixteen
unfoldable pub hex2 : ℕ → Text
unfolding hex_digits
hex2 n = if ltb n 16 then b'0' ∷ hex_digit n ∷ [] else hex_digits 16 n

-- Option.String
unfoldable pub option_string : TcpOption → Text
unfolding hex2
option_string o = if o.value == 0 then o.kind else o.kind ++ (b':' ∷ hex2 o.value)

abbrev pair : TcpOption → Text × ℕ
pair o = (o.kind, o.value)

abbrev pub options_value : Slice → Value
options_value none = Value.opts none
options_value (some os) = Value.opts (some (map pair os))

-- The entry for Sys, which is stored if the pointer is not nil.
abbrev pub sys_entry {ℓ} : {S : Type ℓ} → (S → Fields) → Option S → Entry
sys_entry sys_map none = record { key = "sysInfo"; valid = false; value = Value.num 0 }
sys_entry sys_map (some s) = record { key = "sysInfo"; valid = true; value = Value.obj (sys_map s) }

-- The map literal of Info.ToMap.
abbrev pub info_entries : {S : Type 0} → Info S → List Entry
info_entries i =
    always "state" (Value.text i.state)
    ∷ always "txOptions" (options_value i.tx_options)
    ∷ always "rxOptions" (options_value i.rx_options)
    ∷ always "txMSS" (num i.tx_mss)
    ∷ always "rxMSS" (num i.rx_mss)
    ∷ always "rtt" (num i.rtt)
    ∷ always "rttVar" (num i.rtt_var)
    ∷ always "rto" (num i.rto)
    ∷ always "ato" (num i.ato)
    ∷ always "lastTxAt" (num i.last_tx_at)
    ∷ always "lastRxAt" (num i.last_rx_at)
    ∷ always "lastTxAckAt" (num i.last_tx_ack_at)
    ∷ always "lastRxAckAt" (num i.last_rx_ack_at)
    ∷ always "rxWindow" (num i.rx_window)
    ∷ always "txSSThreshold" (num i.tx_ss_threshold)
    ∷ always "rxSSThreshold" (num i.rx_ss_threshold)
    ∷ always "txCWindowBytes" (num i.tx_window_bytes)
    ∷ always "txCWindowSegs" (num i.tx_window_segs)
    ∷ always "retransmits" (num i.retransmits)
    ∷ []

unfoldable pub info_to_map : {S : Type 0} → (S → Fields) → Info S → Fields
info_to_map sys_map i = put_all (info_entries i ++ sys_entry sys_map i.sys ∷ []) end

-- `if test { warns = append(warns, name + FormatUint(n)) }`
abbrev pub warn : Bool → Text → ℕ → List Text
warn test name n = if test then (name ++ decimal n) ∷ [] else []

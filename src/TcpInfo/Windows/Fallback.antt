-- ===== src/TcpInfo/Windows/Fallback.antt =====
-- The two versions of the struct.
use conniver.Prelude.{◌≡◌, refl, Bool, true, false, not, ◌||◌, is_some, Result, ok, err}
use conniver.Prelude.Text.{Text}
use conniver.TcpInfo.Windows.Raw.{RawInfoV0, RawInfoV1}
use conniver.TcpInfo.Windows.SysInfo.{SysInfo}
use conniver.TcpInfo.Windows.Unpack.{unpack_v0, unpack_v1, get_tcp_info}

-- The fields that version 0 has.
abbrev pub truncated : RawInfoV1 → RawInfoV0
truncated r = record {
  state = r.state;
  mss = r.mss;
  connection_time_ms = r.connection_time_ms;
  timestamps_enabled = r.timestamps_enabled;
  rtt_us = r.rtt_us;
  min_rtt_us = r.min_rtt_us;
  bytes_in_flight = r.bytes_in_flight;
  cwnd = r.cwnd;
  snd_wnd = r.snd_wnd;
  rcv_wnd = r.rcv_wnd;
  rcv_buf = r.rcv_buf;
  bytes_out = r.bytes_out;
  bytes_in = r.bytes_in;
  bytes_reordered = r.bytes_reordered;
  bytes_retrans = r.bytes_retrans;
  fast_retrans = r.fast_retrans;
  dup_acks_in = r.dup_acks_in;
  timeout_episodes = r.timeout_episodes;
  syn_retrans = r.syn_retrans;
}

-- The fields that only version 1 fills, as version 0 leaves them.
abbrev pub without_limits : SysInfo → SysInfo
without_limits s = record s {
  snd_lim_trans_rwin = 0;
  snd_lim_trans_time_rwin = 0;
  snd_lim_bytes_rwin = 0;
  snd_lim_trans_cwnd = 0;
  snd_lim_time_cwnd = 0;
  snd_lim_bytes_cwnd = 0;
  snd_lim_trans_snd = 0;
  snd_lim_time_snd = 0;
  snd_lim_bytes_snd = 0;
}

-- Falling back to version 0 gives the same information as version 1, but for the limits of sending,
-- which are 0 there.
pub unpack-truncated : (r : RawInfoV1) → unpack_v0 (truncated r) ≡ without_limits (unpack_v1 r)
unfolding unpack_v0 unpack_v1
unpack-truncated r = refl

abbrev pub answered {ℓ} : {A : Type ℓ} → Result Text A → Bool
answered (ok a) = true
answered (err e) = false

-- There is information exactly where one of the two queries is answered, and an error exactly where
-- there is no information.
pub get_tcp_info-answers_windows :
    (v1 : Result Text RawInfoV1) (v0 : Result Text RawInfoV0)
    → (is_some (get_tcp_info v1 v0).0 ≡ (answered v1 || answered v0))
      × (is_some (get_tcp_info v1 v0).1 ≡ not (is_some (get_tcp_info v1 v0).0))
unfolding get_tcp_info
get_tcp_info-answers_windows (ok r) v0 = (refl, refl)
get_tcp_info-answers_windows (err e) (ok r) = (refl, refl)
get_tcp_info-answers_windows (err e) (err e0) = (refl, refl)

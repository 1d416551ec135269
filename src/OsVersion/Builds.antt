-- ===== src/OsVersion/Builds.antt =====
-- pkg/osversion/windowsbuilds.go: the build numbers of Windows.
use conniver.Prelude.{ℕ}

abbrev pub rs1 : ℕ
rs1 = 14393

abbrev pub v1607 : ℕ
v1607 = rs1

abbrev pub ltsc2016 : ℕ
ltsc2016 = rs1

abbrev pub rs2 : ℕ
rs2 = 15063

abbrev pub v1703 : ℕ
v1703 = rs2

abbrev pub rs3 : ℕ
rs3 = 16299

abbrev pub v1709 : ℕ
v1709 = rs3

abbrev pub rs4 : ℕ
rs4 = 17134

abbrev pub v1803 : ℕ
v1803 = rs4

abbrev pub rs5 : ℕ
rs5 = 17763

abbrev pub v1809 : ℕ
v1809 = rs5

abbrev pub ltsc2019 : ℕ
ltsc2019 = rs5

abbrev pub v19h1 : ℕ
v19h1 = 18362

abbrev pub v1903 : ℕ
v1903 = v19h1

abbrev pub v19h2 : ℕ
v19h2 = 18363

abbrev pub v1909 : ℕ
v1909 = v19h2

abbrev pub v20h1 : ℕ
v20h1 = 19041

abbrev pub v2004 : ℕ
v2004 = v20h1

abbrev pub v20h2 : ℕ
v20h2 = 19042

abbrev pub v21h1 : ℕ
v21h1 = 19043

abbrev pub v21h2_win10 : ℕ
v21h2_win10 = 19044

abbrev pub v21h2_server : ℕ
v21h2_server = 20348

abbrev pub ltsc2022 : ℕ
ltsc2022 = v21h2_server

abbrev pub v21h2_win11 : ℕ
v21h2_win11 = 22000

abbrev pub v22h2_win10 : ℕ
v22h2_win10 = 19045

abbrev pub v22h2_win11 : ℕ
v22h2_win11 = 22621

abbrev pub v23h2 : ℕ
v23h2 = 25398

abbrev pub v25h1_server : ℕ
v25h1_server = 26100

abbrev pub ltsc2025 : ℕ
ltsc2025 = v25h1_server

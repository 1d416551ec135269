-- ===== src/TcpInfo/Linux/Steps/FlagSets.antt =====
-- The flags as adaptToKernelVersion leaves them, by the newest entry of the table that the kernel has.
use conniver.Prelude.{true, false}
use conniver.TcpInfo.Linux.Versions.{Flags}

abbrev pub v2_6_2_flags : Flags
v2_6_2_flags = record {
  v2_6_2 = true;
  v3_15 = false;
  v4_1 = false;
  v4_2 = false;
  v4_6 = false;
  v4_9 = false;
  v4_10 = false;
  v4_18 = false;
  v4_19 = false;
  v5_4 = false;
  v5_5 = false;
  v6_2 = false;
  v6_7 = false;
}

abbrev pub v3_15_flags : Flags
v3_15_flags = record {
  v2_6_2 = true;
  v3_15 = true;
  v4_1 = false;
  v4_2 = false;
  v4_6 = false;
  v4_9 = false;
  v4_10 = false;
  v4_18 = false;
  v4_19 = false;
  v5_4 = false;
  v5_5 = false;
  v6_2 = false;
  v6_7 = false;
}

abbrev pub v4_1_flags : Flags
v4_1_flags = record {
  v2_6_2 = true;
  v3_15 = true;
  v4_1 = true;
  v4_2 = false;
  v4_6 = false;
  v4_9 = false;
  v4_10 = false;
  v4_18 = false;
  v4_19 = false;
  v5_4 = false;
  v5_5 = false;
  v6_2 = false;
  v6_7 = false;
}

abbrev pub v4_2_flags : Flags
v4_2_flags = record {
  v2_6_2 = true;
  v3_15 = true;
  v4_1 = true;
  v4_2 = true;
  v4_6 = false;
  v4_9 = false;
  v4_10 = false;
  v4_18 = false;
  v4_19 = false;
  v5_4 = false;
  v5_5 = false;
  v6_2 = false;
  v6_7 = false;
}

abbrev pub v4_6_flags : Flags
v4_6_flags = record {
  v2_6_2 = true;
  v3_15 = true;
  v4_1 = true;
  v4_2 = true;
  v4_6 = true;
  v4_9 = false;
  v4_10 = false;
  v4_18 = false;
  v4_19 = false;
  v5_4 = false;
  v5_5 = false;
  v6_2 = false;
  v6_7 = false;
}

abbrev pub v4_9_flags : Flags
v4_9_flags = record {
  v2_6_2 = true;
  v3_15 = true;
  v4_1 = true;
  v4_2 = true;
  v4_6 = true;
  v4_9 = true;
  v4_10 = false;
  v4_18 = false;
  v4_19 = false;
  v5_4 = false;
  v5_5 = false;
  v6_2 = false;
  v6_7 = false;
}

abbrev pub v4_10_flags : Flags
v4_10_flags = record {
  v2_6_2 = true;
  v3_15 = true;
  v4_1 = true;
  v4_2 = true;
  v4_6 = true;
  v4_9 = true;
  v4_10 = true;
  v4_18 = false;
  v4_19 = false;
  v5_4 = false;
  v5_5 = false;
  v6_2 = false;
  v6_7 = false;
}

abbrev pub v4_18_flags : Flags
v4_18_flags = record {
  v2_6_2 = true;
  v3_15 = true;
  v4_1 = true;
  v4_2 = true;
  v4_6 = true;
  v4_9 = true;
  v4_10 = true;
  v4_18 = true;
  v4_19 = false;
  v5_4 = false;
  v5_5 = false;
  v6_2 = false;
  v6_7 = false;
}

abbrev pub v4_19_flags : Flags
v4_19_flags = record {
  v2_6_2 = true;
  v3_15 = true;
  v4_1 = true;
  v4_2 = true;
  v4_6 = true;
  v4_9 = true;
  v4_10 = true;
  v4_18 = true;
  v4_19 = true;
  v5_4 = false;
  v5_5 = false;
  v6_2 = false;
  v6_7 = false;
}

abbrev pub v5_4_flags : Flags
v5_4_flags = record {
  v2_6_2 = true;
  v3_15 = true;
  v4_1 = true;
  v4_2 = true;
  v4_6 = true;
  v4_9 = true;
  v4_10 = true;
  v4_18 = true;
  v4_19 = true;
  v5_4 = true;
  v5_5 = false;
  v6_2 = false;
  v6_7 = false;
}

abbrev pub v5_5_flags : Flags
v5_5_flags = record {
  v2_6_2 = true;
  v3_15 = true;
  v4_1 = true;
  v4_2 = true;
  v4_6 = true;
  v4_9 = true;
  v4_10 = true;
  v4_18 = true;
  v4_19 = true;
  v5_4 = true;
  v5_5 = true;
  v6_2 = false;
  v6_7 = false;
}

abbrev pub v6_2_flags : Flags
v6_2_flags = record {
  v2_6_2 = true;
  v3_15 = true;
  v4_1 = true;
  v4_2 = true;
  v4_6 = true;
  v4_9 = true;
  v4_10 = true;
  v4_18 = true;
  v4_19 = true;
  v5_4 = true;
  v5_5 = true;
  v6_2 = true;
  v6_7 = false;
}

abbrev pub v6_7_flags : Flags
v6_7_flags = record {
  v2_6_2 = true;
  v3_15 = true;
  v4_1 = true;
  v4_2 = true;
  v4_6 = true;
  v4_9 = true;
  v4_10 = true;
  v4_18 = true;
  v4_19 = true;
  v5_4 = true;
  v5_5 = true;
  v6_2 = true;
  v6_7 = true;
}

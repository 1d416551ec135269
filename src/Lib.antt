-- ===== src/Lib.antt =====
-- conniver, a Go library that wraps a net.Conn, counts its traffic, collects the kernel's TCP
-- information when it opens and when it closes, and reports a snapshot to a callback.
--
-- The parts and how they interact. The wrapper (wrap.go) begins and ends every I/O under a mutex;
-- Close marks the connection, collects TCP information, closes the underlying connection, waits on a
-- condition variable until no I/O is in flight, and calls the callback with a snapshot. The TCP
-- information comes from the platform's package file: on Linux (pkg/tcpinfo/tcpinfo_linux.go) from
-- getsockopt(TCP_INFO), whose struct has grown over the kernel versions, so that
-- pkg/tcpinfo/init_linux.go chooses a length and thirteen flags by the version of the running kernel,
-- which pkg/kernel parses from uname. cmd/httpstat and cmd/get wrap the connections of an HTTP client
-- and print what the callback has been given. pkg/os and pkg/osversion stand apart: they name the
-- operating system and decide which Windows containers a host can run.
--
-- The files:
--   Prelude      shared helpers: tests, lists, integers, texts, decimals, Go maps (Fields), words of
--                fixed width, flags and shifts (Bits), sums over goroutines (Threads)
--   Kernel       pkg/kernel/kernel.go and kernel_unix.go. Version has VersionInfo, String and
--                CompareKernelVersion, Scan the verbs of fmt.Sscanf, Release ParseRelease, Check
--                GetKernelVersion and CheckKernelVersion, with uname_unix.go and
--                uname_unsupported.go; Order and RoundTrip are proofs; Windows is kernel_windows.go
--   OsVersion    pkg/osversion: Version is osversion_windows.go, Compat platform_compat_windows.go,
--                Builds windowsbuilds.go; Cached is proofs about Version
--   Os           pkg/os: Linux is operatingsystem_linux.go with Lines for its lines and Trim, Unix
--                operatingsystem_unix.go, Windows operatingsystem_windows.go and
--                windows_os_string.go; Release and Containers are proofs about Linux
--   HttpStat     cmd/httpstat/main.go: Start is the flags, main, parseURL and createBody, Certificates
--                readClientCert, Headers headerKeyValue and the order of headers, Request newRequest,
--                Timing the callbacks of the trace and the numbers of the table, Connection the
--                network, the TLS configuration, the callback of the wrapper and what is printed of
--                the connection, Output what readResponseBody writes to, Printing the printed headers,
--                Visit one visit up to its page, Redirects the end of visit by its redirects alone,
--                Run the command from main to its exit status, with what it calls in the record
--                Outside. Url, Pairs, Sums, Columns, Order, Sorted, Insertion, Names and Pages are
--                proofs, Final is about the wrapper too
--   Get          cmd/get/main.go: what its callback prints; Once is a proof about the wrapper too
--   TcpDial      pkg/tcpinfo/examples/tcpdial/main.go, with a proof about it on Linux
--   TcpInfo      pkg/tcpinfo/tcpinfo.go (Common), the nullable types (Nullables), and the interface
--                Platform that each platform's SysInfo fills, with the laws of its Clone
--   TcpInfo/Linux  tcpinfo_linux.go, tcpinfo_linux_others.go, tcpinfo_linux_386.go and init_linux.go.
--                Constants is the states and options, Raw RawTCPInfo, Unpack its Unpack, SysInfo,
--                ToMap and Report the type's methods, Socket the queries and GetTCPInfo, Versions
--                adaptToKernelVersion. Layout says where each field of the kernel's struct ends;
--                Adapt, Steps, Coverage, Gaps, Options, Entries and Calls are proofs; Tags is the JSON
--                tags of SysInfo, with proofs about ToMap; Instance is Linux as a Platform
--   TcpInfo/Darwin, TcpInfo/Windows, TcpInfo/Other  tcpinfo_darwin.go, tcpinfo_windows.go and
--                tcpinfo_other.go in the same way; Fallback is a proof about the two versions of the
--                Windows struct, Named is shared by the proofs about options
--   Wrap         wrap.go. World is what it takes from other packages, Conn the state and the sections
--                of Read, Write, beginIO and finishIO, Report collecting, snapshots, wrapping and
--                ToMap, Close the sections of Close, System the goroutines. Spec is what a
--                connection promises, as events on an abstract state. Sections, Invariant, Safety,
--                Progress, Termination and Refinement are proofs about the goroutines, Detached about
--                them and the snapshots that they report, Opening and Stamps about the other
--                operations, OnLinux about wrapping on Linux. Entries is the JSON tags of Conn, with
--                proofs about ToMap
--   Examples     in each tree: the theorems at concrete inputs
--
-- How the state corresponds. A Conn is a record of the source's fields; a pointer is an Option, a
-- channel one of absent, pending and closed, the mutex is the atomicity of a step. In System each
-- goroutine has a position (Pc) in Read, Write or Close with its live locals, and a step moves one
-- goroutine through one section under the mutex or one call outside it. What the underlying
-- connection answers, the clock, the scheduler and spurious orders of waking are left open, so the
-- theorems hold for all of them; calls on one connection may overlap in any number. TCP information
-- of the connection and its errors are values of a World, with the platform as a parameter.
--
-- Bounds and fuel. Counters and durations of 64 bits wrap (% 2 ^ w, w64 and duration of Words);
-- timestamps are int64 bit patterns. Loops are structural recursion on the list or text that they run
-- through. visit, which calls itself for each redirect, runs on fuel; eleven is enough, since it gives
-- up after ten redirects. The loop of readClientCert runs on fuel, one more than the length of the
-- file, since each block is taken off it. Times of httpstat are nanoseconds from Go's zero time, and
-- their differences saturate at 64 bits. Decimals are printed on fuel, the number itself, which falls
-- tenfold at each digit; hexadecimals have at most sixteen digits. The loops of adaptToKernelVersion
-- run over the table of versions from its last entry.
--
-- Not modelled: JSON encoding (MarshalJSON) and the system calls themselves, which are inputs. Of
-- cmd/httpstat and cmd/get net/http, url.Parse, pem.Decode, mime.ParseMediaType, net.SplitHostPort and
-- the file system are inputs or parameters, and colors, the labels of the table of times, the usage
-- text and blank lines are left out, and so are printing and JSON in the tcpdial example.
pub mod Prelude
pub mod Kernel
pub mod TcpInfo
pub mod Wrap
pub mod Get
pub mod HttpStat
pub mod Os
pub mod OsVersion
pub mod TcpDial

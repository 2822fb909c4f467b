-- ===== src/Lib.antt =====
-- A model of the C code of Xylitol, and what holds of it.
--
-- The program runs Android packages on a Linux desktop. These parts of its C and C++ code are
-- modelled:
--
-- * legacy/old-shashlik/src/deps/stripped_bionic/time64.c converts between 64-bit times and civil
--   dates. Time64.antt has `struct tm`, the tables and how a call ends (a value, NULL with
--   EOVERFLOW, NULL, a failed assertion, or undefined behaviour); below it Timegm.antt has
--   `timegm64`, Gmtime.antt `check_tm` and `gmtime64_r`, SafeYear.antt `safe_year`, Local.antt
--   `seconds_between_years`, `mktime64` and `localtime64_r`, Static.antt `gmtime64` and
--   `localtime64`, and Text.antt `asctime64_r` and `ctime64_r`. Calendar.antt and Civil.antt are the
--   reference: the day on which a year begins, and what it means for the fields of a date to be the
--   civil time of a number of seconds.
-- * legacy/old-shashlik/src/deps/libhardware/hardware.c finds and loads hardware modules: Hal.antt,
--   with the answers of the operating system as the record `Host`.
-- * crates/xylitol-shim/native/log.c formats Android's log messages: Log.antt, with the lines that
--   are written as the output.
-- * legacy/old-shashlik/src/libs/gralloc-shashlik/bufferhandler.c makes the anonymous file behind a
--   shared buffer: AnonymousFile.antt, with the answers of the system calls as the record `System`
--   and what the process holds as its state.
-- * legacy/old-shashlik/src/controller/init_util.c makes the control socket: Socket.antt, with the
--   system calls that were made as the output.
-- * legacy/old-shashlik/src/libs/gralloc-shashlik, the graphics buffers: Gralloc.antt has the handle
--   of a buffer (gralloc_priv.h), gr.h and the calls that leave the module as the record `Env`;
--   below it Mapper.antt is mapper.cpp, Framebuffer.antt framebuffer.cpp and Alloc.antt gralloc.cpp,
--   which asks AnonymousFile.antt for its files. A function gets the module and the history of
--   the calls, and returns both with its status; none is undefined behaviour.
-- * legacy/old-shashlik/src/controller, which starts the six services and the applications, watches
--   them and stops them: Controller.antt has its state and its events; below it Services.antt is the
--   starts and `stop`, Applications.antt `runApk` and `runAM`, Signals.antt the slots, Trackers.antt
--   ProcessTracker.cpp with the constructor, Main.antt the options of main.cpp, Main/Sockets.antt its
--   control sockets, Environment.antt the variables of the processes, and Signals/Steps.antt the calls
--   and signals that may come in any order. Qt and the system are the records `System`, `Texts` and
--   `Numbers`. An address stands for a process or a tracker.
-- * legacy/old-shashlik/src/propertiesd/propertiesd.cpp keeps system properties: Properties.antt,
--   over a QSettings, the record `Settings`; Properties/Defaults.antt has the values it begins with.
-- * legacy/old-shashlik/src/launcher, the program that the controller starts for zygote and for
--   applications: Launcher.antt is main.cpp and the callbacks of AppRuntime.cpp, with AndroidRuntime,
--   the Java machine and the log as the record `Android`; Launcher/Command.antt has command lines by
--   their parts, and Launcher/Started.antt puts the launcher behind the controller.
-- * legacy/old-shashlik/src/deps/surfaceflinger and deps/libjni/android_view_Wayland.cpp, the
--   connection to the display's server: WaylandClient.antt is WaylandClient.cpp, with the libraries of
--   Wayland as the record `Wayland`; its events are the calls that are made, those that libwayland
--   forbids too. Below it Window.antt has WaylandWindow.cpp and the calls of Java,
--   and Ledger.antt the objects that are alive by the events. What a dispatch brings is a list of
--   messages.
-- * legacy/old-shashlik/src/deps/installd/installer.cpp starts an installation: Installer.antt has the
--   variables with the directories, the memory that is allocated for them, and the start.
--
-- A field or a local variable of type `int` is an integer in a range: what is computed as an `int`
-- goes through `int_value`, which is undefined out of the range, and a cast to `int` through
-- `to_int`, which wraps around. The 64-bit sums are integers, which for an `int` year stay below
-- 2^57; those of `safe_year`, which takes a 64-bit year, go through `int64_value`.
--
-- Loops are recursions on fuel. The loops of `timegm64` have 500 rounds, more than the 400 years
-- from 1900 - 300 to 1900 + 100 that are left once whole cycles are removed; those of `gmtime64_r`
-- have 401 rounds upwards and 801 downwards, for one cycle and for two, and 12 for the months; that
-- of `seconds_between_years` has as many as the years are apart, and one. A loop that ran out of fuel
-- would be undefined.
--
-- `mktime`, `localtime`, `vsnprintf`, `malloc`, the system calls, Qt and the compositor are parameters.
-- Not modelled: the lock of the graphics module and the floating numbers of its screen; the window of
-- the controller, and the order in which Qt delivers signals; the listeners of Wayland with empty
-- bodies; the hardware composer, whose operations are stubs; the copies of other projects in
-- legacy/old-shashlik, among them launcher/runtime; and the Rust crates.

pub mod Common
pub mod Time64
pub mod Hal
pub mod Log
pub mod AnonymousFile
pub mod Socket
pub mod Gralloc
pub mod Controller
pub mod Properties
pub mod Launcher
pub mod WaylandClient
pub mod Installer

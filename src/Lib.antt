-- ===== src/Lib.antt =====
-- Hawck intercepts the keyboard in two processes. The input daemon (src/KBDDaemon.cpp) reads events
-- from grabbed keyboards and writes to a virtual keyboard; of the keys that are listed in files of
-- passthrough keys it first asks the macro daemon (src/MacroDaemon.cpp), which runs Lua scripts on the
-- event and answers over a UNIX socket with the events to write. This library models that path.
--
-- The files, with the sources they model:
--   Input         src/KBDAction.hpp, src/KeyValue.hpp: the packets that the daemons exchange
--   Effect        methods that change an object and may throw
--   Combo         src/KeyCombo.hpp: the key combination that switches the scripts off
--   Wire          src/UNIXSocket.hpp: recvAll, recv and send, on byte memory and 64-bit words;
--                 Wire.Connect connectTo and the server
--   Csv           src/CSV.cpp, src/CSV.hpp: reading, writing, columns and rows
--   Passthrough   src/KBDDaemon.cpp: loadPassthrough, unloadPassthrough, the watcher's callback
--   Udev          src/UDevice.cpp: the buffer of the virtual keyboard, flush and upAll;
--                 Udev.Create how the device is made; Udev.Release src/Version.cpp
--   Remote        src/RemoteUDevice.cpp: the buffer of the answer, flush and done
--   Macro         src/MacroDaemon.cpp: runScript, notify and a round of run; Macro.Loading the scripts,
--                 Macro.Startup getConnection and initScriptDir
--   InputLoop     src/KBDDaemon.cpp: a round of run; InputLoop.Session has the two daemons together
--   Keyboard      src/Keyboard.cpp: the states of a keyboard while it is locked; Keyboard.Opening
--                 its constructor, isMe, reset, getID and lockSync
--   KbdManager    src/KBDManager.cpp: getEvent, the available keyboards, unlockAll
--                 KbdManager.Hotplug waitForDevice, setup and the callback for a device that appears
--   Permissions   src/Permissions.cpp: permission strings and the check of a file
--   Watcher       src/FSWatcher.cpp: the tables of paths, handleEvent, and the rounds of watch;
--                 Watcher.Threads asyncWatch and stop beside the thread that watches
--   Fifo          src/FIFOWatcher.cpp: watch and reply; Fifo.Config src/LuaConfig.cpp: options
--   Xdg           src/XDG.cpp: the directories of the program, and how they are made
--   Kbdb          src/KBDB.cpp: the names of keyboards from sysfs
--   Daemon        src/Daemon.cpp: daemonize on a table of descriptors, and the pid file
--   Inputd        src/hawck-inputd.cpp: options, the devices, and the pid file around the daemon
--   Macrod        src/hawck-macrod.cpp: options, and the pid file around the daemon
--   Popen         src/Popen.cpp: what a subprocess writes, and how it ends
--   Paths         src/utils.hpp: pathJoin and the tests on strings; Paths.ChDir the working directory
--   Lua           src/LuaUtils.hpp, src/LuaUtils.cpp: values and pointers between C++ and Lua;
--                 Lua.Method methods that Lua calls, Lua.Script code that C++ calls, Lua.Gc references,
--                 Lua.Timeout the limit on time, Lua.Errors texts, Lua.Vectors tables
--   Prelude       shared types, Boolean tests, lists, text and integers
--   Samples       devices, sockets and scripts for the tests
--
-- State and operations. A class is a record of its fields, a method is a function on that record; a
-- method that throws returns the object beside the exception (Effect); the end of the process by a signal
-- or by std::terminate is an error too, which no handler catches. Strings are lists of character
-- codes, maps are association lists, `int` counters are integers, the words of src/UNIXSocket.hpp are
-- numbers modulo 2 ^ 64, `key_visibility` is a function of the key code.
--
-- Interfaces. What the sources call is a parameter: `Uinput` is the kernel's device, `Link` the sending
-- side of the socket, `Scripting` the Lua states and the keyboard database, `Env`, `Disk` and `Files` the file system and
-- the file watcher, `Outside` the keyboards and the socket of the input daemon, `Layout` the bytes of a
-- packet, `Devices` the keyboards' descriptors and `Opens` how they are opened, `System` the databases
-- of users and groups, `Inotify` and `Format` the kernel's watches and the bytes of its events, `Pipes`
-- the two pipes, `Lua` the state with the options, `Dirs` the file system and the environment, `Sysfs`
-- the files of /sys/class/input, `Unix` and `Processes` what a daemon calls,
-- `LuaApi` the stack of Lua and the memory behind it, with the manual's account of each call,
-- `Creation` the calls that make the virtual keyboard, `Sockets` those that connect,
-- `Children` subprocesses and their pipes, `Listing` the directories of devices, `Cwd` the working
-- directory. Their laws say what the log of a device or a socket gains by a write, that a packet is read
-- back from its bytes, and which calls change whether a device is grabbed.
--
-- Loops and fuel. Loops over data are structural. The loop that receives the answer has no bound in
-- the source: it runs on fuel, and the theorems about it hold for any fuel above the length of the
-- answer. So do connectTo, for which as many rounds as attempts are enough, lockSync, waitForDevice, for
-- which 50001 rounds are enough, readOnce, for which two more than the bytes of stderr are, and the
-- loop over the bytes of file events, for which the number of bytes is. Index loops of src/CSV.hpp run on
-- the number of rounds that the bound leaves.
--
-- Not modelled: that the kernel drops the watch of a file that is deleted, the start of a
-- subprocess, file locks, the delays between two events, the opening and closing of a Lua state, and
-- logging. The watchers run on threads of their own in the source; here a callback is one step, and
-- the main loop reads `key_visibility` between steps. The start and the stop of a watcher beside its
-- thread are modelled step by step, in Watcher.Threads.
pub mod Prelude
pub mod Input
pub mod Effect
pub mod Combo
pub mod Wire
pub mod Csv
pub mod Permissions
pub mod Passthrough
pub mod Udev
pub mod Remote
pub mod Macro
pub mod Keyboard
pub mod KbdManager
pub mod InputLoop
pub mod Daemon
pub mod Fifo
pub mod Inputd
pub mod Kbdb
pub mod Lua
pub mod Macrod
pub mod Paths
pub mod Popen
pub mod Samples
pub mod Watcher
pub mod Xdg

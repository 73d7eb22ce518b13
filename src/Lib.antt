-- ===== src/Lib.antt =====
-- A model of the programs of this repository that drive a Bluetooth chip, with theorems about them.
--
-- The parts of the repository and how they interact:
--   bluedroid/bluetooth.c switches Bluetooth on and off for Android: it powers the chip through
--   rfkill, starts the services hciattach and bluetoothd, and brings the HCI device up. The
--   program brcm_patchram_plus makes a Broadcom chip ready for that: it resets the chip over the
--   UART, downloads firmware to it, and sets the speed, the address and the audio interface.
--   brfpatch/brfpatch.c is run on the build machine: it translates a script of HCI commands to the
--   binary firmware of a TI chip.
--   tools/pipetest.c tries what threads that wait on a pipe see when it is closed, and
--   tools/sock_shutdown_test.c what a thread in accept sees when its socket is shut down.
--   tools/socktest.c tries the same and more for five types of sockets, and tools/bttest.c calls
--   the functions of bluedroid from a command line. tools/sock_shutdown_bug_l2cap.c and its like for
--   RFCOMM and TCP lead a socket to where the kernel once went wrong.
--
-- Which file models what:
--   Prelude: names, lists and numbers. Libc: what the sources use of the C library, as its
--   standard says (isspace, atoi, strtoul, sscanf with %x and %d, sprintf with %2.2X, strrchr,
--   strcasecmp).
--   Bluedroid: bluedroid/bluetooth.c. Kernel has the system calls: a `Kernel` is a parameter that
--   answers each call from all calls before it, and the state holds the static variables and the
--   calls made, so that a theorem holds for whatever the system answers. Rfkill has init_rfkill,
--   check_bluetooth_power and set_bluetooth_power; Enable has create_hci_sock, bt_enable and
--   bt_disable; Query has bt_is_enabled; Address has ba2str and str2ba. Runs, Descriptors, Balance,
--   Faults, Search, Switch, Power, Sessions, NoSocket and Status prove; Sessions is about runs of
--   several calls. Tests has runs on some systems.
--   Patchram: brcm_patchram_plus/brcm_patchram_plus.c. Globals has the variables and the table of
--   the speeds, Options the command line with a function for each option, Device the port with the
--   chip behind it, the firmware file and the buffer, Event read_event and hci_send_cmd, Procedures
--   init_uart, proc_reset, proc_patchram and the other commands, Main read_default_bdaddr and main.
--   Event/Framing, Ready, Retries, Readable, Download, Script, Configure, Failures, Flags, Outcome,
--   Settings, Addresses and Parameters prove, Faults for reads that fail, TwoBytes for a chip that sends two
--   bytes more, WellFormed and Packets for the arrays of the commands, and Always for every run, also
--   one that does not end; Tests has chips and command lines.
--   Brfpatch: brfpatch/brfpatch.c. A pointer into the line buffer is what the buffer holds from
--   there to its end, and a run can end with an access outside of an array. Memory has advance and
--   the reads, Line has process_line with its loops and dump_record, Main has fgets and main. Script
--   prints commands in the form that is read. Safety, Bounds, Numbers, Packets and Output prove what
--   holds of every line, Reads, Widths, Arguments, Commands, Lines and Compiles what holds of printed
--   ones; Tests has scripts.
--   Pipetest: tools/pipetest.c, as the calls of its main thread; what pipe and socketpair give is a
--   parameter. Calls has the threads, Scenarios a function for each scenario, Main the table and
--   main. Joins proves, and Interleaves, with the threads as programs; Tests has a system.
--   ShutdownTest: tools/sock_shutdown_test.c, with the system as a parameter. Sockets has the calls,
--   Main do_accept_shutdown and main. Outcome proves; Tests has a system on which bind fails.
--   Threads: what a C program with threads is. Program has a thread as the calls that it makes,
--   System the steps of all threads in any order, with any result of each call; Joins and
--   Completes prove what holds of each program that waits for its threads.
--   Socktest: tools/socktest.c as such programs. Address has get_bdaddr, Calls the functions with an
--   underscore and those of the threads, Scenarios the functions do_, Main the tables and main.
--   Joins, Completes, Faults and Address/Print prove; Tests has a schedule.
--   Bttest: tools/bttest.c. Main has the table and main; Outcome proves; Tests has a system.
--   ShutdownBugs: tools/sock_shutdown_bug_l2cap.c, tools/sock_shutdown_bug_rfcomm.c and
--   tools/sock_shutdown_bug_tcp.c, with the system as a parameter. Calls has the calls, Programs a
--   main for each; LeftOpen proves; Tests has values of the flags.
--
-- Loops and their bounds: the search of init_rfkill has no bound in the source. It takes a number
-- of rounds, and a run that needs more has no result; the theorems ask for more rounds than
-- there are switches. The retry loop of bt_enable has the hundred attempts of the source. The loop
-- that downloads firmware has one round more than the file has bytes, which suffices because each
-- round but the last takes a byte if the file can be read; where it cannot be read, the loop of the
-- source does not end either. read_event recurs on the list of the reads that come in pieces; a
-- read behind the list gets all that it asks for, or waits for ever. The loops of brfpatch have one
-- round more than there are bytes left, and each round takes a byte. The two loops of socktest that
-- need not end have a number of rounds, behind which the main thread has no further step.
--
-- What is not modelled: messages that are printed or logged, the single flags of termios (raw mode
-- with flow control is one setting), the signal handler at other moments than a read that waits,
-- what the thread in accept of sock_shutdown_test does, what pthread_create returns, and asocket_test
-- under tools/, a test of a library that is not here.
-- bluez-clean-headers/ is a generated copy of headers of BlueZ.
pub mod Prelude
pub mod Libc
pub mod Threads
pub mod Bluedroid
pub mod Patchram
pub mod Brfpatch
pub mod Pipetest
pub mod ShutdownTest
pub mod Socktest
pub mod Bttest
pub mod ShutdownBugs

-- ===== src/Lib.antt =====
-- runit: a model of the service supervision suite, and proofs about it.
--
-- The programs. `runsv` supervises one service, and its log service if there is one: it starts `./run`,
-- notices its end, runs `./finish`, and obeys single characters that come through the named pipe
-- supervise/control. It tells its state in the twenty bytes of supervise/status. `sv` reads these bytes
-- and writes such characters. `runsvdir` starts one `runsv` for each directory that it finds. `runit` is
-- process number 1, which runs the stages of the system's life, and `telinit` asks it to stop the system.
-- `svlogd` reads lines and keeps them in log directories of bounded size. `chpst` changes the state of
-- its process, such as limits, user and environment, and becomes another program. `svc.restartd` is a
-- daemon that starts a service's commands one after the other, by the forks and exits that kqueue tells it
-- of. All of them but the last stand on libbyte (bytes and strings), libtime (time stamps) and libunix
-- (buffers and system calls).
--
-- The files.
--   Base            what the library passes on, Boolean tests, lists over native numbers, C's loops
--                   unrolled by hand as a repeated body (Base/Unroll), C's `int` results (Base/Int), the
--                   equality of strings (Base/Text).
--   Byte            libbyte/*.c. Byte/Search: byte_chr, byte_rchr, str_chr, str_len. Byte/Compare:
--                   byte_diff, str_diff, str_start. Byte/Copy: byte_copy, byte_copyr, in one memory.
--                   Byte/Decimal: fmt_ulong, scan_ulong. Byte/Padded: fmt_uint0.
--   Time            libtime/*.c. Time/Tai: tai.h, tai_sub, tai_pack, tai_unpack. Time/Taia: taia.h,
--                   taia_add, taia_sub, taia_less, taia_uint, taia_now, taia_pack. Time/Label: fmt_taia
--                   of fmt_ptime.c.
--   Unix            libunix/buffer_put.c in Unix/Output, libunix/buffer_get.c in Unix/Input. Unix/Stream,
--                   Unix/Deliver and Unix/Ends are about the former, Unix/Draws about the latter.
--   Runsv           runsv/runsv.c. Runsv/Defs: `struct svdir`, and what the system is asked. Status:
--                   update_status. Hooks: classify_signal, signame, custom. Service: stopservice,
--                   stoponeshotservice, startservice. Control: ctrl. Loop: the first state in main and
--                   the blocks of its loop. Round: one round of it, and runs of rounds. The other
--                   modules are about these: Quiet, Tracked, Reap and Reach about process numbers
--                   and signals, Commands and Signals about ctrl, Life about ends of processes, Exit about
--                   the end of runsv, Faults about two sequences of commands.
--   Sv              sv/sv.c. Sv/Get: svstatus_get, the first part of status, control. Sv/Print:
--                   svstatus_print, status. Sv/Check: checkscript, check. Sv/Action: the choice of the
--                   action in main. Sv/Loop: the two loops of main. Agrees and Lsb are about the status
--                   bytes in both programs, Ends, Counts, Tells and Succeeds about the loops' end and
--                   rc, Slash about names with a slash at the end.
--   Runsvdir        runsvdir/runsvdir.c. Runsvdir/Scan: runsv and the loop over the directory. Prune:
--                   the rest of runsvdir, and the collection of children. Loop: the loop of main and the
--                   log. Table, Rescan and Rounds are about the table's invariant, Hangup about the end
--                   and the log.
--   Utils           utils/pmatch.c, svlogd's patterns, in Utils/Pattern; Utils/Matches and Utils/Further are
--                   about it.
--   Pid1            pid1/runit.c and telinit/telinit.c. Pid1/Defs: the state. Stage: startearlysvcrunner, the
--                   start of a stage and the blocks for an ended child. Signals: CONT and INT and the
--                   end of stage 3. Machine: a round of the inner loop, the loop over the stages, the
--                   end of the system, and runs. Telinit: runit_halt, runit_reboot and main of telinit.c.
--                   Path and Moves are about the order of the stages, Ends about the ends of
--                   processes, Stop about the signals, Waits about the end of stage 3.
--   Svlogd          utils/svlogd.c. Svlogd/Defs: `struct logdir`, and the system. Files: rmoldest,
--                   processorstart, processorstop, rotate. Write: buffer_pwrite. Match: logmatch. Input:
--                   buffer_pread and SIGTERM, as the bytes that buffer_GETC gives. Line: the loop of main,
--                   for one directory. Config: ip4_scan, and the file config in logdir_open. Open:
--                   logdir_close, the rest of logdir_open, the times in buffer_pread. Oldest, Equations, Tidy,
--                   Pwrite, Kept and Opened are about files and sizes, Select and Configured about the
--                   configuration, Rendered and Term about lines.
--   Chpst           utils/chpst.c, and libunix/pathexec_env.c in Chpst/Env. Edir: edir. Limit: limit,
--                   slimit. Main: the options and the steps of main. Counts and Variable are about the
--                   environment, Values about edir, Runs and Success about the steps.
--   Restartd        svc.restartd/*.c. Restartd/Defs: svc.h. Pids: pidlist.c and purgepids. Start:
--                   forkexecve and the starts of the commands. PidFile: ReadPIDFile, check_pidfile.
--                   Machine: svc_transition_if_necessary, process_proc_kevents and the loop of main.
--                   Config: stricmp, parseconfig. Settings is about the latter, Clean and OneRun about
--                   the processes, Stuck, Oneshot and Cycle about the states.
--
-- The state. A C struct is a record, a global is a field of a record that is passed along (Proc and
-- Runsv in Runsv, Sv, Dir, Buffer, Reader, Init in Pid1, Logdir and Glob in Svlogd), and what others can see is a list of effects, the last one
-- first. The system's answers are parameters: functions from the number of calls made so far (Os, Fork),
-- or a sequence of answers that is used up (Unix). Macros of sys/wait.h and signal numbers are fields of
-- Os. The only thing asked of them is what the manual pages say: fork gives a positive number in the
-- parent (IsOs), and where a theorem says so, which files there are (HasFiles).
--
-- Numbers are natural numbers. `unsigned long` wraps at 2 ^ 64 and `unsigned int` at 2 ^ 32, written out
-- where it can happen. A byte is a number below 256, a string is the list of the bytes from a pointer to
-- the end of its object, and a read past that end gives `none`.
--
-- Loops. A loop over a list is recursion on the list. The unrolled loops of libbyte run with one round
-- more than the bound `n`, or than the object's length, and each round takes a byte or ends the loop.
-- `put_large` in Unix/Output has the number of bytes as fuel, of which each
-- round sends at least one. `prune_loop` in Runsvdir/Prune has the table's length as fuel, and each round
-- takes an entry from the table or goes to the next one. The retries of fork in `startservice` are as
-- many as the parameter says. The endless loop of runsv is a list of rounds, and that of process number 1
-- a list of what comes in each round. The wait of five rounds for stage 3 in `stop_wait` is recursion on
-- the rounds left and on what the system answers. The waiting loop of sv has its rounds as fuel: two more
-- than there are before the time is over are enough. The loops of runsvdir and svc.restartd are lists of
-- what comes in each round. `main_loop` in Svlogd/Line has fuel for its rounds, each
-- of which is a line; more fuel than lines is enough. The retries of system calls in svlogd are answered
-- by lists or numbers in the parameters.
--
-- What is not modelled: what a forked child does before execve beyond what it is given, the
-- directories, locks and fifos that runsv makes and the fatal exits on them, the options of sv, its
-- fatal messages and those of its check script to the standard error, the system calls of setup_log in
-- runsvdir, the console of process number 1, the options of svlogd, its handlers of CHLD, ALRM and
-- HUP, and when its buffers are flushed (a line is what goes into the buffer; `buffer_pwrite` is what
-- comes out of it), getopt and the lookups of users in chpst and its other names, the parser of ini
-- files in svc.restartd/config.c, which is a copy of another project's library (inih), the other tools
-- (utils, runsvchdir), and the wrappers of single system calls in libunix. The sequence of settings
-- that the parser finds, and that of options that getopt finds, are parameters.
pub mod Base
pub mod Byte
pub mod Time
pub mod Unix
pub mod Runsv
pub mod Sv
pub mod Runsvdir
pub mod Utils
pub mod Pid1
pub mod Svlogd
pub mod Chpst
pub mod Restartd

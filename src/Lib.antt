-- ===== src/Lib.antt =====
-- presto-build: a build tool that runs Lua makefiles.
--
-- The program is a C++ host around a Lua runtime. `main` (make.cpp) runs `pmain` in protected
-- mode. It opens the "make" library (lmakelib.cpp), reads the command line twice, runs the Lua
-- libraries "mkinit" and "mksite", the code that the command line and PRESTO_INIT name, a
-- makefile, and then `make.update_goals`, which starts processes through make.proc and prints what
-- they write. md5.c computes the digests of make.md5 and make.file.md5.
--
-- Files and the code that they are about:
--
--   Base          shared names, lists, Boolean tests, bit operations, tables checked by evaluation
--   Lua           values, argument frames, errors and luaL_checklstring, as the C code uses them
--   Md5           md5.h and md5.c. Word: the macros. Transform: MD5Transform. Context: MD5_CTX,
--                 MD5Init, MD5Update, MD5Final. Reference: RFC 1321 without buffers or unrolled
--                 steps. Compression, Decode, Absorb, Holds, Updates, Final: proofs
--   Hash          lmakelib.cpp: lua_pushhex, make_md5, make_file_md5
--   Proc          lmakelib.cpp: struct process, make_proc_flushio and its helper,
--                 make_proc_exitcode. Output: the helper. Flush: the process and its reads.
--                 Stream: what the lines of a whole output are. Lines, Chunks, Drain, Invariant,
--                 Limits: proofs
--                 Spawn: make_proc_spawn and make_proc_wait. Start: proofs on them. Run: make.run
--                 of lua/mkinit.lua on a process. Whole: proofs on it
--   Pipe          pipeex.c: MyCreatePipeEx, and the handles that calls open and close
--   Env           lmakelib.cpp: the environment block of make_proc_spawn and the one that
--                 luaopen_make reads
--   Path          lmakelib.cpp: lua_getpath, lua_pushpath. Functions: the make.path functions.
--                 Search: make.path.where. Places: proofs on it. Presto, Slashes, Texts: proofs
--   Dir           lmakelib.cpp: __make_dir_md and the make.dir functions. Created: proofs
--   Console       make.cpp: l_message, and lmakelib.cpp: make_message and the like. Texts: proofs
--   File          lmakelib.cpp: the make.file functions and make.now. Times: proofs
--   CommandLine   make.cpp. State: Smain with the Lua tables that the switches write, set_flag,
--                 set_max_jobs, docall, dofile, dostring, dolibrary. Parse: parse_commandline.
--                 Main: pmain and main. Clusters, Passes, Failures: proofs
--   Build         lua/mkinit.lua. Target: the targets. Depends: depends_on, check_for_cycle.
--                 Kinds: phony_target, dir_target. Engine: the state of the build,
--                 make.jobs.start. Update: bring_up_to_date. Jobs: make.jobs.dispatch, make.exit.
--                 Goals: make.update_goals_p. Cycles, Edges, Acyclic: proofs on the dependencies.
--                 Grows, Tally, Safe, Visits, Commands, Concludes, Brings, Rounds, Dispatch,
--                 Starts: proofs on the commands that are started. Ends, Total: the fuel of
--                 bring_up_to_date. Tires, Returns: the fuel of make.jobs.dispatch. Same, Sound,
--                 Decides, Complete: targets for which there is nothing to be done. Steps: the
--                 build as a system of steps. Frames, Once, Matches, Busy: what steps keep. Within,
--                 Refines, Runs, Chains: the code is made of steps. Waits, Waiting, Rests, Settles,
--                 Lessens, Finishes, Fresh, Successes: what runs is waited for by a goal. Spends,
--                 Turns, Tours, Halts, Terminates: fuel for the main loop
--   Interrupt     make.cpp: setsignal, laction, lstop, and signals while Lua code runs. Deaths:
--                 proofs
--   Protect       make.cpp: traceback, docall, report, dofile, dostring, dolibrary on the stack of
--                 the Lua state. Stacks, Failures: proofs
--   Register      lmakelib.cpp: luaopen_make and the arrays of functions, make_dofile; make.cpp:
--                 set_flag and set_max_jobs on these tables. Lookups, Reads, Opened: proofs
--   Tests         runs on concrete inputs
--
-- A loop over a list is recursion on the list. The loop of make.file.md5 is on fuel, and fuel for
-- one read more than the whole reads of 4096 bytes is enough. A word of md5.c has 32 bits and
-- wraps around. What the operating system answers to the reads of a process is a list of events; a
-- call that has used them up is `blocked`. `overrun`, `overran` and `overruns` are writes past the
-- end of an array, which C leaves undefined. Reading an environment is on fuel, one round for each
-- variable and one more. `__make_dir_md` is on fuel, one call for each step up to a directory and
-- one more. `l_message` is on fuel, one round for each byte of its message and one more. The
-- functions on targets and the loops of the build are on fuel; the traversals of dependencies need
-- as much as the dependencies are deep, and how many turns the loops take is for the commands to
-- decide: fuel for the goals, for the yields that are to come, and for twice the targets is enough
-- for the main loop without keep_going.
--
-- The Lua runtime and the operating system are parameters: loading and calling a chunk
-- (`Runtime`), opening and reading a file (`FileApi`), writing a number as text (`LuaApi`). The
-- theorem on make.file.md5 assumes of ReadFile that it gives the bytes asked for or all that are
-- left (`Reads`).
--
-- The calls of make.path, make.dir and make.file are parameters (`PathCalls`, `DirCalls`,
-- `FileCalls`), and the answers to the calls of make_proc_spawn and of MyCreatePipeEx are given
-- beforehand (`SpawnAnswers`, `PipeAnswers`). The command line of a new process is passed on as bytes,
-- without its conversion to UTF-16. A time that is pushed as (double)time * 1.0e-7 is kept as the
-- integer before the conversion; the comparison of the doubles is a parameter, of which it is assumed
-- that it keeps the order of times within 2^50 units of the start (`KeepsOrder`). What CreateDirectoryW
-- does on the way up from a path is assumed in `Creates`, for the states that a predicate holds of.
--
-- CommandLine sees a call of a chunk as a status and a new state; Protect has the same functions with
-- the stack, the console and the signal handlers, and Register has the same switches on the tables.
--
-- Not modelled: luajit (a copy of another project's library), the fixed texts of print_usage and
-- print_version, the parts of lua/mkinit.lua that are not named above (the clean-up of
-- make.update_goals, the table helpers), and tests.lua. A "print" function is
-- taken to return, `atoi` reads numbers that fit an int, and the keys of an environment table are
-- strings.
--
-- In the build the disk and the commands of targets are parameters (`BuildCalls`): a command is a
-- coroutine that comes back with an error, is dead, or yields. The object of the error is one that
-- make.error prints, or one at which make.error raises an error of its own. `target_of` and `register`
-- are target[name] past the check for a backslash, which stands where names come in: in depends_on,
-- phony_target, dir_target and the loop over the goals. An error out of make.update_goals_p is
-- "Stop.", or one of that check, or one of make.error. The order in which Lua visits the
-- keys of a table is the order of a list, a target belongs to one job, names are no field names,
-- and messages are left out.
pub mod Base
pub mod Lua
pub mod Md5
pub mod Hash
pub mod Path
pub mod Dir
pub mod File
pub mod Console
pub mod Pipe
pub mod Proc
pub mod CommandLine
pub mod Env
pub mod Build
pub mod Interrupt
pub mod Protect
pub mod Register
pub mod Tests

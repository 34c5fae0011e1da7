-- ===== src/Lib.antt =====
-- The judger of RunServer (Cjudger), which runs a solution on the tests of a problem and gives a
-- verdict, and the software similarity tester SIM of sim/sim_2_89, which compares solutions.
--
-- The judger runs a solution on each test in its directory, follows it from one stop to the next, and
-- compares its output to the expected one.
--
-- SIM reads its input files as sequences of tokens into one token array, links the places where
-- equal runs of tokens may start by forward references, and compares each new text to the others
-- along these references.
--
-- The files and the code that they model:
-- - Verdict: Cjudger/config.h, the verdicts.
-- - Checker: Cjudger/runner.cc, compare. Its children: Gaps (find_next_nonspace), Tidy and Behind (a
--   reference for what the files have in common), Words (with that reference), SameLines.
-- - Syscalls: Cjudger/runner.cc and okcalls.h, the table of system calls. Its child is Allowed.
-- - Watch: Cjudger/runner.cc, watch_solution. Its children: Memory (a reference for the memory that a
--   report shows), Verdicts (where it ends), Calls (how it comes there), Ends (that it does).
-- - Parameters: Cjudger/runner.cc, init_parameters and the limits of run_solution. Its child is Bounds.
-- - Judger: Cjudger/runner.cc, prepare_files, judge_solution and main. Its children: FileNames, Accepted
--   (the loop over the tests), Results, ExitCodes, Ends.
-- - Compiler: Cjudger/compiler.cc. Its child is Outcomes.
-- - Text: sim/sim_2_89/text.h, the descriptors of the input files.
-- - Language: sim/sim_2_89/language.h, what the comparison asks of a language. The scanners *lang.l
--   supply it, and are not modelled: the interface is a parameter.
-- - Hash: sim/sim_2_89/hash.c. Its children prove it: Codes, Links (the invariant of the two
--   tables), Scan (the first pass), Clean (the second), TableSize and Chains.
-- - Compare: sim/sim_2_89/compare.c. Its children: Match (the two loops over tokens), Texts (the
--   pointer into Text[]), Lcs (one position), Search (the chain), Covers (one text), Files.
-- - Token: the numbers of the tokens in sim/sim_2_89/token.h.
-- - TokenArray: sim/sim_2_89/tokenarray.c; its child Growth follows the tokens that are stored.
-- - Idf: sim/sim_2_89/idf.c, keywords and identifiers. Its children: Search, Codes.
-- - Algol: sim/sim_2_89/algollike.c, the functions of languages like Algol; an instance of Language.
--   Its children: Sets (the tables), Balance (the counts), Sizes (routines), Tail.
-- - AddRun: sim/sim_2_89/add_run.c, the positions of a run. Its children: Positions, Compared (with
--   Compare_Files).
-- - Runs: sim/sim_2_89/runs.c, the set of runs. Its child is Largest.
-- - Aiso: sim/sim_2_89/aiso.bdy, a set as a tree whose nodes are linked into a list. Its
--   children: Order (the tree from left to right), Place (the loop), Links (the list), Sorted (the
--   reference), Items (the iterator).
-- - Newlines: the first pass over a text, in sim/sim_2_89/text.c and pass1.c, on the tokens that yylex()
--   returns. Its children: Lines (the buffer), FirstPass (with the token array).
-- - Pass1: sim/sim_2_89/pass1.c, the first pass over all texts. Its child is Descriptors.
-- - Pass2: sim/sim_2_89/pass2.c with text.c, the line numbers of the positions. Its children: LineNumbers
--   (from the buffer), TwoPasses (from the text).
-- - NewArgs: sim/sim_2_89/newargs.c, the file names on standard input. Its child is Names.
-- - Options: sim/sim_2_89/options.c, the options in front of the arguments. Its child is Skips.
-- - SortList: sim/sim_2_89/sortlist.bdy, the generic sort of linked lists. Its child is Laws.
-- - Percentages: sim/sim_2_89/percentages.c. Its children: Sums (the match list), Printing.
-- - AnyInt: sim/sim_2_89/any_int.c. Its children: Digits, Texts (what is written), Recent (the buffers).
-- - Pass3: sim/sim_2_89/pass3.c, with size_t2string of sim.c. Its children: Columns (the widths), LineSkips
--   (the places in the files), Numbers (what is counted), Tables (the lines), Cells (a reference for
--   what a line looks like), Shown (a run).
-- - Sim: sim/sim_2_89/sim.c. Its children: Checks (on the options), Whole (the passes one after another).
-- - Base: lists, arrays, tests and options over the native numbers. Tests: runs and instances.
--
-- A size_t is a number without its upper bound, since each is a position in an array that has been
-- allocated; the hash codes are 32 and 64 bits wide, and wrap. An array whose length the code keeps
-- apart is a function of the index. A count of tokens or parentheses in an int is a number too, since
-- it is no more than the length of a text; the tables of Algol are of char, and hold less than 128
-- where a theorem speaks of them. A pointer to a text is its index. A loop takes fuel, and a
-- theorem says that the fuel given is enough; `none` stands for a call of fatal() and for an access
-- out of bounds.
-- In the judger, what wait4, the kernel and the files say is an input: a list of reports for each test.
-- The loops of compare take as much fuel as the files are long. The bits of tempmemory are those of a
-- 32-bit int, and the arithmetic of init_parameters and run_solution is `none` where an int overflows;
-- times, which the limits keep below some minutes, are numbers. Undefined behaviour ends a run without
-- a result, but the number that prepare_files returns without a return statement is an input.
-- The arithmetic of C on float is a parameter (Percentages.Floats): the quotient, its order and its
-- percentage. A pointer to a file name is a number.
--
-- Not modelled: the log of the judger and its calls that only act on processes (fork, exec, ptrace,
-- chroot, freopen), the other parts of sim/sim_2_89 (the loop of pass 2 over the texts, the walk over
-- directories, file names in UTF-16, and the wrappers of the allocator), the scanners
-- *lang.l, which are rules for a scanner generator, and the server (main.go, judge.go, zjgsu.go), which
-- is input, output and processes. The memory for the table of forward references is taken to be granted.
-- When the newline buffer is given up at the end of a text, tx_nl_limit of that text, which is not read
-- any more, keeps its value instead of nl_free.
pub mod AddRun
pub mod Aiso
pub mod Algol
pub mod AnyInt
pub mod Base
pub mod Checker
pub mod Compare
pub mod Compiler
pub mod Hash
pub mod Idf
pub mod Judger
pub mod Language
pub mod NewArgs
pub mod Newlines
pub mod Options
pub mod Parameters
pub mod Pass1
pub mod Pass2
pub mod Pass3
pub mod Percentages
pub mod Runs
pub mod Sim
pub mod SortList
pub mod Syscalls
pub mod Tests
pub mod Text
pub mod Token
pub mod TokenArray
pub mod Verdict
pub mod Watch

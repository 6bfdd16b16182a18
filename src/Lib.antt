-- ===== src/Lib.antt =====
-- Verification of the core of mull, a mutation testing system for LLVM bitcode.
--
-- mull instruments the functions of a program, runs its tests, records who called whom, builds the
-- tree of calls, merges what each test reaches, filters functions and instructions, and asks the
-- mutators for mutation points, which are filtered in turn. The files, with the code they model:
--   CallTree                 lib/Instrumentation/DynamicCallTree.cpp: enterFunction, leaveFunction,
--                            createCallTree, extractTestSubtrees, createReachableFunctions
--   Instrumentation          lib/Instrumentation/Instrumentation.cpp: recordFunctions,
--                            insertCallbacks, getReachableFunctions; the index arithmetic of
--                            lib/Instrumentation/Callbacks.cpp; the recording loop of lib/Driver.cpp
--   ReachableFunction        lib/ReachableFunction.cpp: mergeReachableFunctions, selectInstructions
--   Parallelization          lib/Parallelization/TaskExecutor.cpp and TaskExecutor.h: taskBatches,
--                            execute; filterMutations and filterFunctions of lib/Driver.cpp;
--                            lib/Parallelization/Progress.cpp: the loop of the reporter
--   Driver                   lib/Driver.cpp and lib/MutationsFinder.cpp: findMutationPoints with the
--                            tasks that it runs, dryRunMutations
--   Mutators                 lib/Mutators: the kinds, the tables of mutators, getMutations
--   Mutators/Logical         lib/Mutators/CXX/LogicalAndToOr.cpp and LogicalOrToAnd.cpp: finding a
--                            pattern of two branches, rewriting it, getMutations
--   Mutators/Factory         lib/Mutators/MutatorsFactory.cpp: groups, register, expandGroups, mutators;
--                            warning of lib/Diagnostics/Diagnostics.cpp, which exits in strict mode
--   Sandbox                  lib/Sandbox/ProcessSandbox.cpp: the reported status;
--                            lib/Parallelization/Tasks/MutantExecutionTask.cpp: running the tests
--   AstStorage               lib/AST/ASTMutationStorage.cpp: the stored mutations and their hash;
--                            lib/JunkDetection/CXX/ASTStorage.cpp: recordDeclarations, getDecl
--   CompilationDatabase      lib/JunkDetection/CXX/CompilationDatabase.cpp
--   AstSearch                lib/AST/ASTVisitor.cpp, ASTSearchTask.cpp, ASTFinder.cpp and
--                            ASTMutationFilter.cpp: the mutations that a syntax tree has
--   AstSearch/Junk           lib/JunkDetection/CXX/CXXJunkDetector.cpp and its visitors
--   MutationPoint            lib/MutationPoint.cpp: addressFromInstruction, findInstruction
--   Preparation              lib/Parallelization/Tasks/MutantPreparationTasks.cpp and
--                            ApplyMutationTask.cpp, addMutation of lib/Bitcode.cpp: cloning,
--                            deleting and redirecting functions, in the order of lib/Driver.cpp
--   Program                  lib/Program/Program.cpp: addBitcode, lookups, static constructors;
--                            lib/TestFrameworks/CustomTestFramework/CustomTestFinder.cpp
--   Reporters                lib/Reporters/SourceManager.cpp: getLine, getNumberOfLines;
--                            IDEReporter.cpp: the lists and the caret; SQLiteReporter.cpp: the rows;
--                            MutationTestingElementsReporter.cpp: the entries of each file
--   Metrics                  lib/Metrics/Metrics.cpp: begin and end times, sums and means
--   CommandLine              tools/driver-cxx/driver-cxx.cpp and CLIOptions.cpp, lib/Config:
--                            the configuration, filters and reporters that the options choose
--   FilePathFilter           lib/Filters/FilePathFilter.cpp: shouldSkip, include, exclude
--   Base                     shared lists, maps, groups, sets of names
--
-- A state is a record and an operation a function from state to state; `none` is a failed assertion
-- or the end of the fuel. Functions, tests, instructions and mutation points are numbers. Executions
-- of an instrumented program are lists of enter and leave events in any order. The callback index
-- is taken modulo 2^32; numbers of items from 2^31 on, which the conversion to `int` does not keep,
-- are `none`. The fuel of createCallTree bounds a chain of callers, that of the searches the number
-- of nodes, and the depth 5 of expandGroups the nesting of the built-in groups; the theorems say how
-- much is enough. Blocks of a function are known by numbers, and control goes along their last
-- instructions under an assignment of truth values to the locals. Threads work on disjoint ranges
-- with a storage each, so a task is a function from its range and storage to the storage. A syntax
-- tree is the list of the nodes that clang visits; the theorems on it start from the nesting of functions
-- and expressions. The warnings of the factory are followed to the exit in strict mode; those of other
-- parts are messages only. Preparing mutants works on one bitcode file, whose functions are a total map
-- with the first free number.
--
-- Not modelled: LLVM, clang and the library irm (whether a low-level mutation can mutate an
-- instruction is a parameter), the JIT and the object cache, the IR that the callbacks consist of,
-- shared memory and processes, the bytes that the reporters print and the JSON text, parsing of the
-- command line and of compilation databases, the GoogleTest finder, the compilation of mutants, and
-- clocks; they are calls of libraries and of the operating system, or texts.
pub mod AstSearch
pub mod AstStorage
pub mod Base
pub mod CallTree
pub mod CommandLine
pub mod CompilationDatabase
pub mod Driver
pub mod FilePathFilter
pub mod Instrumentation
pub mod Metrics
pub mod MutationPoint
pub mod Mutators
pub mod Parallelization
pub mod Preparation
pub mod Program
pub mod ReachableFunction
pub mod Reporters
pub mod Sandbox

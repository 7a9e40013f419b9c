-- ===== src/Lib.antt =====
-- The static checkers of this repository for code on non-volatile memory, modelled. They are clang
-- plugins: each finds its functions and fields in a translation unit by names and annotations. Three
-- of them collect the units to analyse, and run a dataflow analysis over each unit with a lattice
-- value for each field, reporting the writes that break a rule of ordering. Two run under clang's
-- symbolic execution, with callbacks that keep a state machine in the state of a path.
--
-- The parts and their files:
--   Base        what the parts share: Boolean tests, results with the faults of the source
--               (a failed assertion, report_fatal_error, a null pointer read, fuel used up), and
--               std::map and std::set as lists. A pointer is a number, and null is 0.
--   Clang       what clang says of a translation unit, a record that the definitions take; and
--               include/parser_util/ParseUtils.h (Clang/Parse).
--   Globals     include/global_util: sets of functions (Functions, Functions/Named,
--               Functions/Direct), annotated variables (Variables), units (Units); and the walk that
--               fills a unit (Track), which the global parsers of the checkers share.
--   AutoCl      include/parser_util/AutoCl.h: which fields stand in one cache line.
--   Pair        lib/pairchecker: a field of a pair must be committed before the other one is
--               written. Lattice, Variables, StmtParser, Reporter, Transitions and GlobalParser
--               stand for the headers Pair*.h of these names; PairInfo.h is in Variables.
--   Log         lib/logchecker: a field must be logged before it is written, once, and both inside a
--               transaction. Lattice, Functions (with LogVariables.h), StmtParser, Reporter,
--               Transitions and GlobalParser stand for the headers Log*.h.
--   Flushed     lib/flushedchecker: a pointer must be committed before it is written into a persistent
--               field. Lattice, Variables, StmtParser, Reporter, Transitions and GlobalParser stand
--               for the headers Flushed*.h.
--   Dataflow    include/dataflow_util and include/analysis_util: locations and contexts (Location),
--               what a checker gives the engine (Manager), the merge of states (Merge), functions in
--               contexts and their containers (Contexts, ListMaps), the members of the analysis
--               (Store), its loops over blocks and contexts (Analysis), and the loop over the units
--               (Driver). The Analyzer of each checker is that checker as a manager, with its
--               analyzeTUD.
--   Symbolic    include/util/Graph.h and the lookups of include/util/Helper.h, which the checkers that
--               run under symbolic execution share: the state, transitions and error nodes of a
--               callback (Engine), clang's regions, symbols and values (Memory), declarations and
--               parents (Decls), and the searches for a base region, a field and a function (Regions,
--               Decls).
--   LogX        lib/logxchecker: the log checker under symbolic execution. Identify is what it calls
--               of the missing headers identify/, Functions stands for parser/LogFncs.h, State for
--               the headers of state_machine/, Checker for LogChecker.cpp.
--   PtrX        lib/ptrxchecker: the pointer checker under symbolic execution. State and Written
--               stand for state_machine/Transitions.h, Walkers for parser/AllocWalker.h and
--               PtrWalker.h, Checker for PtrChecker.cpp.
--   Walk        include/parsers and include/main_util: walks over statements. Names stands for
--               NameWalker.h, Mask for MaskWalker.h, NamedDecls for NDWalker.h and
--               parser_util/NamedDeclParser.h, Placement for CachePlacement.h, Order for
--               OrderWalker.h, Main for MainVars.h and MainWalker.h.
--
-- A class is a record of its members, a method a function from the record to the record, with what
-- the method returns. An assertion that fails and report_fatal_error are faults that end a
-- computation. `operator[]` of a map makes an entry where there is none (`touch`). A
-- std::set or std::map of pointers is in the order of the numbers that stand for them. The containers
-- that have contexts as keys (Dataflow/Contexts) are a parameter: `operator<` of PlContext is no strict
-- weak order, so the standard does not say which keys they find. A reference into such a map is the
-- number of its node. Dataflow/ListMaps has containers that find equal keys, to run the analysis with.
--
-- Symbolic execution: a callback takes a record with the state of its path and gives it back with the
-- transitions, the end of the path and the reports that it asks clang for, in their order. Whether
-- clang gives an error node is a function of the calls made before. Regions, symbols and values are
-- numbers in a record that says their kinds and what they are made of.
--
-- Fuel: the walks over statements, calls, regions and symbols are unbounded in the source; the model
-- gives each a bound on its depth, and so it does with the loops of Dataflow/Analysis: `rounds` bounds
-- the loop over the blocks, `depth` how deep calls nest, and `turns` the loop over the contexts. A
-- computation that uses up its fuel is the fault `out_of_fuel`, so a result is never made up. That fuel
-- is enough is said with a rank: a number for each statement, region or node that falls from one to
-- those that the walk goes on with. Any fuel above the rank will do.
--
-- Not modelled: printing, the reports handed to clang, the registration of the checkers, clang's
-- traversal and control flow graphs, which are inputs, lib/expchecker, which prints the statements of
-- a function, FieldWalker of include/util/Helper.h, which nothing uses, and the programs under test and
-- benchmarks. The headers under identify/, states/ and reporting/ that the symbolic checkers include are
-- not in the repository: what the checkers call of them is a record of operations.
pub mod Base
pub mod Clang
pub mod Dataflow
pub mod Flushed
pub mod Globals
pub mod AutoCl
pub mod Log
pub mod Symbolic
pub mod LogX
pub mod PtrX
pub mod Walk
pub mod Pair

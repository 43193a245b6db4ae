-- ===== src/Lib.antt =====
-- ioda: the in-memory backend of the observation data access, the pool of writers, the distribution
-- of observations over the ranks of a communicator, and the index of the records of an ObsSpace.
--
-- How the parts interact. A caller reads and writes a variable through two selections. The backend
-- (src/engines/ioda/src/ioda/Engines/ObsStore) translates each ioda::Selection to a selection of its
-- own, whose iterator gives linear memory indices; VarAttrStore walks both iterators side by side and
-- copies a block of elements at each step. On input a Distribution (src/distribution) says which
-- records, and so which locations, each rank keeps: ObsFrameRead (src/io) goes over the input frame by
-- frame, checks the locations, numbers the records and asks the distribution. A distribution also adds
-- up, gathers and numbers values over all ranks. ObsSpace (src/ObsSpace.cc) then sorts the locations
-- into records, may extend itself by companion records that a replica of the distribution places, and
-- reads channels of its variables through selections of the kind above.
-- On output WriterPool (src/engines/ioda/src/ioda) groups the ranks behind a few writers and finds out
-- where the locations of each writer go in a single file.
--
-- Which file models what:
-- - ObsStore/Counter: class SelectCounter (Selection.hpp, Selection.cpp). `carry` and `advance` are the
--   loop of SelectCounter::inc; Counter/Odometer and Counter/Combinations are about its order.
-- - ObsStore/Selection: class Selection. `select_all` and `select_dims` are its constructors;
--   init_lin_indx, next_lin_indx, end_lin_indx keep their names; `indices` is the loop that a caller
--   writes around them. Nested is the reference, nested loops over the selected positions; Intersect,
--   Point and Whole treat the modes, and Walk a walk that is known to return.
-- - ObsStore/Translate: createObsStoreSelection and the three functions genDimSelects
--   (ObsStore-selection.cpp).
-- - ObsStore/VarAttrStore: class template VarAttrStore (VarAttrStore.hpp).
-- - ObsStore/Groups: Group.cpp and Has_Variables of Variables.cpp; Named is std::map with texts as keys.
--   Paths is about the levels of a path, Tree about the groups, and Create, Variables and Rename about
--   the operations. Pointers to groups and variables are values here: each has one owner.
-- - ObsStore/Attribute: class Attribute (Attributes.cpp).
-- - IoPool: IoPoolBase.cpp and WriterPool.cpp, up to collectSingleFileInfo. Groups is about groupRanks,
--   Assign about assignRanksToIoPool, Totals about createIoPool and setTotalNlocs, SingleFile about all.
-- - Distribution: NonoverlappingDistribution, RoundRobin, ReplicaOfNonoverlappingDistribution,
--   InefficientDistribution, PairOfDistributions, their accumulators, and DistributionUtils.cc.
-- - Distribution/Replica: ReplicaOfGeneralDistribution and GeneralDistributionAccumulator.h.
--   Consecutive is about computePatchLocs, Gathered about what follows it, Uncovered about its error.
-- - Frames: ObsFrameRead, on one rank, for a non-overlapping distribution; its loop is without obs
--   grouping, whose record numbers are in Grouping.
--   Assigned is about applyMpiDistribution, Kept about the checks of locations, Loop about all frames;
--   the loop itself is the one of ObsSpace (src/ObsSpace.cc).
-- - ObsSpace/OrderedMap: std::map as the code uses it. RecIdx: buildRecIdxUnsorted and the accessors of
--   recidx_. Sort: buildSortedObsGroups; its children Order (the comparisons and std::sort), Loops and
--   Maps (the three loops), Records and Missing (the entries of recidx_).
-- - ObsSpace/Extend: the loop of extendObsSpace; Index and Rising are about the numbers it gives,
--   Companions about a ReplicaOfGeneralDistribution that it fills.
-- - ObsSpace/Channels: fillChanNumToIndexMap and createChannelSelections. Numbers is about the map of
--   the channel numbers, Selects about what ObsStore/Translate makes of the selection, Requested about
--   the two together.
-- - Prelude: lists and tests over the native numbers, and results of fallible code.
-- - Examples: the theorems at concrete inputs.
--
-- State is passed explicitly. Code that can fail gives a Result: `undefined` for an index past the end,
-- `exception` for a thrown exception, `no_fuel` for a loop of the model that ran out of rounds. Loops
-- whose end is not visible in their arguments (the walk of a selection, transfer, and the loop over
-- frames) take fuel; one more round than there are indices, or places in the input, is enough, and the
-- theorems about a walk say so.
-- std::size_t has 64 bits, and its sums and products are taken modulo 2 ^ 64 in the selections, the
-- accumulators and the writer pool, whose pairs hold an int (`through_int`). Elsewhere counts of
-- locations and their sums are taken to stay below 2 ^ 64, and numbers of ranks and of locations in an
-- int below 2 ^ 31.
--
-- The MPI calls are parameters (IoPool.Comm and Distribution.Comm): functions of what all ranks pass,
-- with laws that say what the collective operations deliver. What the code does on every rank is put
-- together in one function over all ranks. std::sort is a parameter too (Sort.Order.StdSort): it
-- permutes, and the result is in order for a strict weak ordering. Sort values are of any type with
-- such an ordering.
--
-- Not modelled: the HDF5 and ODC engines (calls of libraries), the bindings, the keys of the obs
-- grouping and the reading of variables in ObsFrameRead, class Variable and the lists of objects of the
-- backend, loadVar and saveVar of ObsSpace, the halo and atlas distributions, the saving of the file,
-- and floating-point arithmetic.
pub mod Prelude
pub mod ObsStore
pub mod ObsSpace
pub mod IoPool
pub mod Distribution
pub mod Examples
pub mod Frames

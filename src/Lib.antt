-- ===== src/Lib.antt =====
-- mem-opt (TAS-OPT): LLVM passes that linearise the control flow of packet processing functions,
-- make batch versions of them, split their loops and count the cache lines that they touch.
--
-- The program works on LLVM's IR through LLVM's API. LLVM is not part of the repository, so it is
-- the parameter `Llvm` (Llvm.antt, Llvm/Syntax.antt): a record with the function in memory, the
-- calls that read and write it, and the laws that these calls are documented to have. Values,
-- instructions and terminators are data types with one constructor for each kind that the passes
-- tell apart. Llvm/Toy.antt is a small function store that meets the laws, so that the theorems
-- can be applied and the definitions run. Llvm/Machine.antt says what a run of a function is.
--
-- Parts, and the files that model them:
--   * src/PacketPathAnalysis.{h,cpp}: PacketPath.antt. The state is MaskIDCounter and the map
--     BlockToMaskID; `calculate` walks the reverse post order that LLVM gives.
--   * src/Util.cpp, getReturnBlocks, getReturnInstList, unifyFunctionExitNodes: ExitNodes.antt.
--   * src/BlockPredication.{h,cpp}: BlockPredication.antt, one function for each method, composed
--     in `linearize_control_flow` as linearizeControlFlow does. The constructor's call of the path
--     analysis comes first, in `run`. movePhiNodeToPredicateBlock and the loop that calls it, which
--     `linearize_control_flow` ends with, are in PhiNodes.antt, over a view of the same function by the
--     PHI nodes of its blocks; IrPhis says how the view and the instructions agree.
--   * src/Util.cpp, the annotations (getAnnotatedFnList to setAnnotationInFunctionObject):
--     Annotations.antt. An instruction is what the code reads of it.
--   * src/CacheUsageInfo.{h,cpp}: CacheUsage.antt, with the fields of the object as state. The data
--     layout is a pair of functions.
--   * src/BatchMaker.{h,cpp}, TASArgAttr and createBatchedFormFnPrototype: BatchMaker.antt.
--   * src/Util.{h,cpp}, searches of a value's users, sizes of types, getPreLoopBlock: Users.antt.
--   * src/IRLoop.cpp, LoopBodyTraverser, and visitSuccessor of src/Util.cpp: Traversal.antt. The recursion
--     runs on fuel, and one more than the number of blocks is enough; for visitSuccessor on blocks
--     without branches, since it visits a loop again and again.
--   * src/ToolUtil.cpp: ToolUtil.antt. `system` is a function from the command to its status, and the
--     commands that were run are a list. Text.antt has std::string.
--   * src/PassWrapper and tools/tasopt.cpp: Passes.antt. The transformations that they call are
--     functions on modules. The analysis of cache lines over a module is in Passes/Cache.antt; LLVM's
--     pass manager runs doInitialization, then runOnFunction on each function, with one pass object.
--   * src/ForLoop.{h,cpp}, IRLoop of src/IRLoop.{h,cpp}, setSuccessor,
--     addIncrementIndexOp, getLoopIndexVar and getLoopTripCount: Loops.antt and
--     LoopVariables.antt.
--     What a loop runs is said with Llvm/Steps.antt, runs from block to block with the stack slots, in
--     which a block may find any values that the code around it computes.
--   * src/LoopSplitter.{h,cpp}, prepareForLoopSplit, run and traverseLoopBody: LoopSplitter.antt and
--     LoopSplitter/Prepare.antt. What addBatchArrayForIntermediateVars makes of the function is a
--     parameter of run there, since it is modelled over use lists (see below).
--     traverseLoopBody runs on fuel, and the number of blocks is enough for a body without branches; on a
--     loop inside the body the program does not end.
--   * src/BatchMaker.cpp, unifyReturnBlock, storeRetValInPtrArg, addBatchLoop and the end of
--     doBatchTransform: BatchLoop.antt. doBatchTransform and run as a whole, from the detection of the
--     arguments to the loop: BatchTransform.antt, with the use lists of the same function (see below)
--     for replaceOldArgUsesWithBatchArgs. What an instruction is, for the annotations, is a parameter.
--   * src/Util.cpp, cloneLoopBasicBlocks and cloneBasicBlocksInto: Clones.antt, with LLVM's cloning as
--     an interface.
--   * replaceUsesWithinBB and createArray of src/Util.cpp, addBatchArrayForIntermediateVars of
--     src/LoopSplitter.cpp, replaceOldArgUsesWithBatchArgs of src/BatchMaker.cpp: Uses.antt, over a second
--     interface of LLVM, `Values`, with the list of a value's uses. The loops run once for each use.
--   * src/Util.cpp, insertLLVMPrefetchIntrinsic: Prefetch.antt, over LLVM's builder.
-- A block is named by its address, a number, and a null pointer to a successor is the address `null`.
-- A DenseMap is an association list in which the newest
-- entry hides older ones. `none` stands for undefined behaviour: an iterator `end()` that is
-- read, a failed cast or assertion, an index past the end. Numbers are natural numbers; where a
-- machine width matters the wrap-around is written out.
-- Each component proves its theorems in child modules, and holds its tests and the instances of its
-- theorems at concrete inputs in a module Examples.
--
-- Not modelled: the cloning of instructions
-- and functions by LLVM, the parsing and printing of IR, clang, opt and
-- llc themselves, LLVM's analyses (dominators, loops, traversal orders), debug output, and the test
-- programs.
pub mod Common
pub mod Llvm
pub mod BlockPredication
pub mod ExitNodes
pub mod PacketPath
pub mod Text
pub mod ToolUtil
pub mod Annotations
pub mod CacheUsage
pub mod Passes
pub mod BatchMaker
pub mod Users
pub mod Traversal
pub mod LoopVariables
pub mod Loops
pub mod LoopSplitter
pub mod BatchLoop
pub mod Uses
pub mod PhiNodes
pub mod Clones
pub mod BatchTransform
pub mod Prefetch

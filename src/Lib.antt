-- ===== src/Lib.antt =====
-- DasHLE
--
-- DasHLE loads ARM ELF binaries into an emulated address space and runs them with a Jit whose
-- imports are functions of the host. This library models its memory manager, the bridge between
-- guest and host, the parser of ELF files, and the virtual machines that load and run a binary.
--
-- The parts, from the bottom:
--
-- Base: tests on numbers, lists, and the results of the code. Base/Errors is `Error` and `Expected`
-- of source/DasHLE/Support/Types.h: DASHLE_TRY_EXPECTED is `>>=`, DASHLE_ASSERT_WRAPPER is
-- `assert_ok`, and an assertion that fails is the outcome `abort`, as in a debug build.
--
-- Word: usize and uaddr are numbers below 2 ^ 64, with the wrap of the operations written out. The
-- host is a 64-bit one, with the low byte of a number first.
--
-- Align: isPowerOfTwo, alignDown and alignUp of source/DasHLE/Support/Math.h.
--
-- SortedSet: std::set of a comparator, which the source uses for its blocks, as the list of its
-- elements in order. An iterator is the element it points at or the list from it on.
--
-- Memory: source/DasHLE/Host/Memory.h and Memory.cpp. `MemoryManager` is the class with its Data,
-- and a method is a function that returns its outcome beside the new manager. Find has the
-- searches, Allocate allocate() in its steps, Release free(), Manager the construction, reset(),
-- setFlags and virtualToHost. Trace is about sequences of calls. Layout says when a manager is
-- valid: the allocated blocks lie apart and in order within the memory, the free blocks are exactly
-- the gaps between them, and the used memory is their total size.
--
-- Bridge: source/DasHLE/Host/Bridge.h and Bridge.cpp. A symbol's name is of any type with a decided
-- equality, the IR of the two dynarmic emitters are types I and J, and an emitter is a function on
-- one of them. The memory manager, which the bridge shares with the rest of the program, is handed
-- on from call to call. Table is about the table of pseudo addresses, Register about
-- registerFunction, Built about what buildIFT leaves, Calls about a guest's call through buildIFT,
-- addressForSymbol and emitCall. HashMap is std::unordered_map, which the source uses for its
-- symbols.
--
-- Elf: source/DasHLE/Binary/ELF.h and ELF.cpp. The buffer is a list of bytes, a wrapper (`Poly`) is
-- an offset in it with the format, and an accessor reads its field there; a read outside of the
-- buffer is the outcome `undefined`. Layout has the structures and gives the fields their offsets.
-- Dynamic has the queries (Walk says what the loop over the dynamic entries is, Only and Names what
-- an entry's and a symbol's name's search finds), Relocs the relocations (Tables says which ones a
-- file's tables describe, Exactly that visitRelocs finds these), Parse ELF::parse (its child
-- modules Class, Verdict, Fields and Errors are about the checks of the header, AllRelocs about the
-- relocations, Described and Exact about the object that parse returns), Segment the place and the
-- permissions of a segment. The loop over dynamic entries runs on fuel, the length of the buffer
-- and one: every step moves on, and past the end the read is undefined.
--
-- Memory/Space is the address space that a manager stands for: at most one block at each address.
--
-- HostBytes is the memory of the host, a byte for each address, which the source reads and writes
-- through reinterpret_cast. IsHostApart says of a manager what malloc promises: the host memory of
-- its blocks lies apart, in 64-bit addresses.
--
-- Guest: source/DasHLE/Guest. Access is ARMVM::Environment of ARM/ARM.cpp, the guest's memory
-- accesses; Arm is the class ARMVM of ARM/ARM.cpp and ARM/ARM.h; ElfVm is the class ELFVM of
-- ELFVM.h and ELFVM.cpp, with loadBinary in Relocate and Load and the calls of the initializers in
-- Run. Action is code that changes a state: `>>=` is DASHLE_TRY_EXPECTED there too. dynarmic's Jit
-- is a parameter, a record of the methods that ARMVM calls over a state of its own, and of what the
-- guest's code changes beside it. IsJit says what ARMVM relies on: registers are cells of 32 bits,
-- and the CPSR keeps the Thumb bit. The loop of execute() calls Run() until the program counter is
-- at the end address: the calls allowed are fuel, and Arm/Calls relates the loop to the runs,
-- however many these are. populateBridge is virtual and a parameter, readFile's result an argument.
-- The debug build's static variables of loadBinary are fields of ElfVm.
--
-- ErrorText is errorAsString of source/DasHLE/Error.cpp, on the numbers of the enumerators.
--
-- Jni: source/DasHLE/Emulated/JNI.h and JNI.cpp, the class JNIContext and GetEnv. The two constants
-- that GetEnv returns, which no file declares, are a parameter. The static context is zero before
-- its constructor, which sets nothing. Laws is about GetEnv, Populate about populateBridge.
--
-- Program is main() of source/DasHLE/Main.cpp.
--
-- The host allocator is a virtual class: it is a parameter, a record of its four methods over a
-- state of its own. KeepsBlock and KeepsSize say that it does not change the fields of a block that
-- the source tells it not to change. default_allocator is the class's own implementation, over
-- malloc and free as parameters. Every other loop but that of execute() runs over a list or a
-- count, so that no fuel is needed.
--
-- Blocks are values here. The source returns pointers into its set of blocks; the pointer is the
-- block at its address. The state beside the outcome `abort` is of no meaning, since the process
-- has ended.
--
-- Not modelled: a second loadBinary on one ELFVM, the Jit, files and logging;
-- source/DasHLE/Binary/JNIDefs.h, which is another project's header of types and tables of function
-- pointers.
pub mod Base
pub mod Word
pub mod Align
pub mod SortedSet
pub mod HashMap
pub mod Memory
pub mod Bridge
pub mod Elf
pub mod HostBytes
pub mod Guest
pub mod ErrorText
pub mod Jni
pub mod Program
mod Tests

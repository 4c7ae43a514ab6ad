-- ===== src/Lib.antt =====
-- JLLVM is a Java virtual machine on top of LLVM. This library models the parts that carry its
-- own logic. Paths are those of the repository, below src/jllvm.
--
-- The parts and how they interact. The reader of class files (class/) takes bytes apart with
-- support/Bytes.hpp, and its descriptors tell the types of fields and methods. The class loader
-- (object/) makes class objects of class files: it gives the methods their slots in the v-table
-- and the fields their offsets. The garbage collector (vm/) reads those class objects to find the
-- references in an object, and copies what the stack and the static references reach.
--
-- The compiler (materialization/) turns the byte code of a method into an LLVM function, with
-- stubs for the classes that are not loaded yet, and makes bridges to native methods. The virtual
-- machine (vm/) fills the v-tables of the classes that the loader has made, and hands the stack
-- maps of compiled code to the collector.
--
-- Which file models what:
-- * Base and its child modules: shared tests on numbers, lists measured by native numbers, and
--   Outcome, the result of code that may fail an assertion, stop the process, or run out of fuel.
-- * Support.Bytes (support/Bytes.hpp): consume and consumeRawString.
-- * Class.Descriptors (class/Descriptors.hpp, .cpp): parseFieldType, parseMethodType,
--   isReferenceDescriptor and the comparison of field types. Its child Print has the grammar.
-- * Class.ClassFile (class/ClassFile.hpp, .cpp): Text has deduceByteCount and toUTF8, Constants
--   the constant pool (with the rounding of an integer to a floating point number in Rounding),
--   Members attributes, fields, methods and Code, and ClassFile itself parseFromFile.
-- * Object.ClassObject (object/ClassObject.hpp, .cpp): methods, fields and class objects.
-- * Object.ClassLoader (object/ClassLoader.hpp, .cpp): Slots has assignVTableSlots and
--   visibility, Layout the loop of add that lays out the fields, Loading add, forName and
--   forNameLoaded.
-- * Vm.GarbageCollector (vm/GarbageCollector.hpp, .cpp): Heap has objects and introspectObject,
--   Marking mark, Sweeping the loops of garbageCollect that copy and replace, StackRoots
--   collectStackRoots and replaceStackRoots, Statics allocateStatic and the loops over the slabs,
--   and GarbageCollector itself garbageCollect and allocate.
-- * Materialization.JniNames (materialization/JNIImplementationLayer.cpp): escape, and the names
--   of native methods.
-- * Materialization.JniBridge (the same file): the bridge that calls the implementation.
-- * Materialization.Types (materialization/ByteCodeCompileUtils.cpp): the types of LLVM for
--   descriptors.
-- * Materialization.Mangling (materialization/ByteCodeLayer.cpp): mangleMethod.
-- * Materialization.Compiler (materialization/ByteCodeCompileLayer.cpp): OpCodes has the
--   enumeration and its decoding, Function the function that is emitted and the splitting of its
--   blocks, State what codeGenBody keeps and addBasicBlock, Pool the resolving of references,
--   Lazy LazyClassLoaderHelper, Steps the cases of the switch, Switch the switch and the loop,
--   Arguments the loop over the arguments, and Body codeGenBody and emit. WellFormed has the
--   invariant of the loop, and Straight the meaning of straight-line code on both sides.
-- * Vm.StackMaps (vm/StackMapRegistrationPlugin.cpp, and the order of entries in
--   vm/GarbageCollector.hpp): the pass that registers entries.
-- * Vm.VirtualMachine (vm/VirtualMachine.cpp, and add of vm/JIT.cpp): the callback for a new
--   class object, and executeMain.
-- In the collector, Collecting puts the theorems together: Heaps has the invariant of the
-- collector and what a collection promises.
--
-- How state is modelled. A byte is a number below 256 and a pointer has 8 bytes. The memory of a
-- space maps the address at which an object starts to the object: its class, its mark, the length
-- that an array has, and the words of its body by their offset. The two spaces have a memory
-- each, and the collector is a record of its members with the stack that the unwinder walks:
-- frames with their registers, and the words of the stack by address. Handlers are functions from
-- that record to an Outcome of it. A reference into a space at which no object starts is
-- undefined in the source, which takes what is there for a header; mark fails when it comes to
-- one, and the invariant of the collector rules them out. A constant pool is a list, an attribute
-- map an association list, and a ClassObject pointer an index.
--
-- Machine integers keep their wrap-around where the code can reach it: the test of allocate, 32
-- bit sizes, 16 bit offsets and slots.
--
-- A function of LLVM is a list of blocks under their names, each a list of instructions with a
-- number; a value is the number of the instruction that gives it, an argument, or a constant. The
-- iterators of the insert points are the numbers of the instructions before them. Reading past
-- the end of a vector, popping an empty operand stack, and an iterator that points at nothing
-- fail an assertion.
--
-- Fuel. Marking has one round for each address of the used space, and each object has at least a
-- byte; the loops over a space have one round for each address; parsing a method descriptor and
-- converting a text have one round for each byte, and so has compiling a method. Loading by name
-- has fuel for the depth of classes that load each other, which nothing in the code bounds (a
-- class that is its own super class is loaded without end); for array types it is the number of
-- dimensions.
--
-- Parameters. llvm::alignTo is a record of the function with its documented behaviour
-- (Object.ClassObject), and the callback that allocates static storage, and the search of the
-- class path, are arguments of loading. The addresses of symbols and what running compiled code
-- does are arguments of the virtual machine and of the bridges, and the loaded classes and the
-- addresses of the static variables in returnConstantForClassObject those of the compiler.
--
-- Not modelled: the set up of LLVM ORC and its layers, the folding of constants in LLVM while
-- instructions are built, the parser of stack map sections, the files of the class path, the
-- command line, and debug output. Floating point constants are the numbers that the conversion in
-- consume gives.
pub mod Base
pub mod Support
pub mod Class
pub mod Object
pub mod Vm
pub mod Materialization

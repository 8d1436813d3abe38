-- ===== src/Lib.antt =====
-- navi-scheme, a Scheme interpreter in C: a model of its objects, its data structures and the builtins
-- that work on them, and what is proved of them.
--
-- The program keeps every Scheme value in a word (`navi_obj`, navi.h), which holds an immediate value
-- under a tag or points to an object in a heap (internal.h, heap.c). Builtins (list.c, vector.c,
-- bytevector.c, arithmetic.c) take their arguments from a list in that heap, check them with the
-- functions of error.h and read and write objects. The evaluator (eval.c) finds variables in chains
-- of scopes (environment.c), hash tables from symbols to objects, and symbols are interned in a table
-- of heap.c, so that the hash and the comparison of a symbol are those of its address.
--
-- The files:
--   Base         shared names, Boolean tests, lists and integers over the native numbers
--   Types        `enum navi_type` and the declared argument types (navi.h)
--   Word         the tagged words (navi.h, internal.h, macros.h): Immediate the tags, Fixnum the sums
--   Object       `Obj` for `navi_obj`, `Cell` for `struct navi_object`, `Store` for the heap. Encode
--                has the words of objects; Run the commands over the heap and the accessors of
--                internal.h, Select the composed ones; Chain lists in the heap, and what a heap
--                keeps; Returns total correctness
--   Lists        list.c: Basic the one-step builtins, Read the functions that measure and check lists,
--                Build those that make them (Copy, Append, Last, Laws), Search those that look into them
--   Checks       error.h: Copy the test of the indices before each copy
--   Array        what vectors and bytevectors share: Slice on lists, Laws and Fresh on the heap
--   Vector       vector.c: Access, Convert, Move
--   Bytevector   bytevector.c: Access, Build, Move
--   Environment  environment.c: Bucket, Scope and Import scopes, Chain, Innermost, Set, Nested and
--                Call chains of them
--   Arithmetic   arithmetic.c: Sum and Compare
--   Symbols      the symbol table of heap.c: Interning
--   Libraries    the checks of binding lists and library names and the table of libraries in
--                environment.c: Names, Table
--   Equal        `equal?` of heap.c: Datum what an object denotes, Laws, Loops, Same and Exact the proof
--   Slab         slab.c and slab.h: Order and Tree the trees of slabs, Invariant and Objects what a
--                cache satisfies, Fresh new slabs, Find the search for the slab of an object
--   RedBlack     rbtree.c and rbtree.h: Invariant, Insert for linking a node, Descent for the way down
--                that slab_insert takes, Remove, Removal and Erase for taking a node out
--   Port         the ports of port.c: Bytes, Chars and Output read and write, Calls has all calls on a
--                port; Passing the checks, Safety (Reads, Writes, Every) and Closed the states of a
--                port, Stream, Drain, Text and RoundTrip what passes through one
--   Strings      string.c and string ports: Content, Compare, Ports
--   Tests        applications of the results to concrete heaps, scopes and words
--
-- A function of C is a function of the model with its name in snake case (`navi_list_copy` is
-- `list_copy`; a builtin `DEFUN(list_copy, ...)` is `scm_list_copy`). A function that works on the heap
-- is a command, from a heap to a run: it returns a value and a heap, raises the error of a
-- `navi_error`, is at fault where C has no defined behaviour, or lacks fuel. A builtin takes its fixed
-- arguments one by one, as values of their types where `check_apply` has checked these, and an argument
-- that may be left out as an `Option`; the check of the number of arguments of variadic builtins is not
-- part of the model.
--
-- A loop over a list runs on fuel, one round for each pair and one for the end: the length of the list
-- and one more is enough. The search through scopes takes one round for each scope, and the address of
-- the first and one more is enough, since a scope is made after the one around it. Words have
-- 64 bits, so fixnums have 63. The counters of type `int` in navi_list_length and
-- navi_list_length_safe have no result past their largest value, the index of navi_list_to_vector wraps
-- around as an `unsigned`, and so do the counts of strings, of type `int32_t`, at 32 bits. The numbers
-- behind other indices and sizes are of type `size_t` or `long` and are not bounded, since the sizes of
-- objects in memory are.
--
-- `equal?` takes fuel for the weight of the first object's datum, a number of its parts, and one more.
--
-- A port is a record with its functions; what these work on (a FILE, a string with a position) is a
-- type of the model's own choosing, and a command on a port returns or raises an error together with
-- the port as it is then. The encoding is an argument: the macros of ICU, or those of unicode.h for
-- ASCII; where the assertion of its encoder fails, the program crashes. Strings are modelled for ASCII
-- only, as records, apart from the heap. The slab allocator works on addresses, and its searches on
-- trees without their colours. RedBlack has the colours and the rotations; there a node in a tree is the
-- tree below it with the path up to the root, which stands for the pointers to parents and for the dummy
-- root.
--
-- Not modelled: the evaluator, the special forms and the control features; the reader and the printer;
-- the garbage collector; the moves of slabs from tree to tree in allocation and freeing; files; case
-- mapping and the conversions between strings and other sequences; the loading of libraries; the
-- interface to the system. The order of allocation of objects is visible only as the next free address.
pub mod Base
pub mod Types
pub mod Word
pub mod Object
pub mod Lists
pub mod Checks
pub mod Array
pub mod Vector
pub mod Bytevector
pub mod Environment
pub mod Arithmetic
pub mod Symbols
pub mod Libraries
pub mod Equal
pub mod Strings
pub mod Port
pub mod Slab
pub mod RedBlack
pub mod Tests

-- ===== src/Lib.antt =====
-- Verification of the C programs of the repository: the stage 3 job dispatcher with its memory
-- allocator and process queues, the thread safe hash map, the unrolled linked list, the office's
-- queue and stack, the minesweeper, the Huffman coder, the simple version control, and the table of
-- sessions of JXServer.
--
-- Memory: Mutli-Level Job Scheduling/Stage3/mab.{h,c}. The doubly linked list of blocks is the
-- sequence of its nodes in link order (`Block`, with the node's address), a pointer that is worked
-- on is a `Cursor`, a pointer that is stored is an address which `seek` follows, so that a dangling
-- one is a fault. memFree uses a node that memMerge has just freed; what then happens depends on
-- the C library, and is the parameter `FreedNode`: `intact` where free leaves the node as it is
-- until the next malloc, as the malloc of Version 7 Unix documents, `lost`, a fault, as the C
-- standard has it. memChk, memSplit, memMerge, memAlloc and memFree are mem_chk, mem_split,
-- mem_merge, mem_alloc and mem_free. Memory/Shape has the invariant (the blocks tile the memory, no
-- two free blocks are neighbours, addresses are distinct), Memory/Walk, Memory/Alloc and
-- Memory/Free what the functions do to it, Memory/Exits when they end the process.
--
-- Pcb: Mutli-Level Job Scheduling/Stage3/pcb.{h,c}. A queue is the sequence of its processes;
-- enqPcb, enqPcbHd, deqPcb, findMaxRemainingTime and removeSpecificJob work on it, startPcb,
-- suspendPcb and terminatePcb on one process. Pcb/Queue has the laws of the queues.
--
-- Dispatcher: main of Mutli-Level Job Scheduling/Stage3/mlq.c. `State` has its variables, and each
-- numbered step of the loop is a function: unload (ii), expire (iii), admit_normal (iv.a), probe
-- (iv.b), swap_out (v), admit_rt (vi), turn (vii), dispatch (viii), advance (ix to xi); one_round
-- composes them in the order of the source and main_loop repeats it. The job file is what fscanf
-- does in turn until feof holds (`Scan`); load_jobs never ends at text that fscanf does not
-- consume. The dispatcher calls Memory for every admission and release, and Pcb for every queue.
-- Dispatcher/Invariant has the invariant: every allocated block is held by one job in memory, pids
-- are distinct. Admit, Swap, Turn and Launch take the steps through it, Freed compares the runs
-- with and without a fault at the use of a freed node, Run is about a pass and the loop, and Exits
-- about the end of the process by exit. Oversize is about a job that is larger than the memory.
--
-- HashMap: Thread Safe HashMap/hashmap.{h,c}. A table is its list of buckets, a bucket its list of
-- entries with its own count. hash_map_new, hash_map_put_entry_move, hash_map_remove_entry,
-- hash_map_get_value_ref, expandIfNecessary and hash_map_destroy are functions on it. HashMap/Table
-- says what abstract map a table stands for (`view`) and when it is in order, HashMap/Update is
-- about one bucket, HashMap/Expand about doubling, HashMap/Words about the hash as an int,
-- HashMap/Methods about the public operations, HashMap/Destroys about the end of a table.
--
-- Unrolled: Unrolled linked list/unrolled.{h,c}. `contents` is the sequence of elements that the
-- nodes hold. unrolled_ll_new, unrolled_ll_append, unrolled_ll_get and unrolled_ll_remove work on
-- the nodes; Unrolled/Contents says when a list is in order, Reads, Writes and Removes what get,
-- append and remove do.
--
-- Office: Office/queue.{h,c} and Office/stack.{h,c}. queue_push_copy, queue_pop_object, queue_free,
-- stack_push_copy and stack_pop_object are functions on the sequence of the data; Office/Fifo is
-- about the order in which the queue hands them out.
--
-- Minesweeper: ND-Minesweeper/minesweeper.{h,c}. The game array is the list of its cells, a cell
-- pointer an index. init_game, select_cell and what they call have their names; Minesweeper/Offsets
-- is about calculate_offset and the coordinates of an offset, Minesweeper/Selects about check_mined
-- and a selection.
--
-- Huffman: Huffman Coding and Compression/huffman.{h,c}. The functions have their names; main is
-- prepare, run_command and run_huffman. Huffman/Bits is about the bit arrays, Trees about the
-- measures of a tree, Heap and Inserts about the array of trees, Builds and Roots about
-- create_huffman_tree, Codes, Paths and Walks about save_codes, Bitcodes about calculate_bitcode,
-- Encodes and Messages about encode_msg and create_dictionary, Decodes and Dictionaries about the
-- readers of what they write, which the repository does not have, and Program about main. qsort and
-- the content of fresh memory are parameters.
--
-- Svc: Simple Version Control/svc.{h,c} and file_processor.c. Svc has the data, the hash and the
-- number of a commit, Svc/Commits svc_commit, svc_add and svc_rm, Svc/Branches svc_branch,
-- svc_checkout, svc_reset, get_commit and get_prev_commits. The disk is a function from paths to
-- contents, and whether a path that is copied back opens for writing is a parameter; sprintf's
-- hexadecimal number and the directory that mkdtemp makes are parameters. Svc/Detects and Svc/Lists
-- are about the detection of changes, Svc/Copies, Svc/Settles, Svc/Saves and Svc/Heads about
-- svc_commit, Svc/Tracks about svc_add, Svc/Restores and Svc/Undoes about undo_file_changes,
-- Svc/Names about names and ids, Svc/Faults about a first commit that removes.
--
-- JxServer: the table of sessions of JXServer/helper_fun.c. session_init, check_sessions and
-- remove_session have their names; the name of a file is a pointer, and the memory behind it is an
-- argument of each call. JxServer/Sessions is about them.
--
-- A C call is an `Outcome` (Base/Outcomes): it returns, ends the process by exit, or faults, which
-- is a failed assertion, a pointer read that is NULL or dangles, or an overflow of an int that is
-- checked by as_int. What malloc and fork return, and the hash map's cmp and hash, are parameters
-- with their documented behaviour as hypotheses.
--
-- Bounds and fuel: main_loop runs at most as many passes as it is given, and its theorems hold for
-- every number. merge_while runs for as many rounds as there are blocks ahead, which suffices since
-- each round takes one away. free_loop runs for the queue's length. select_recursion has a bound on
-- its depth, and `exits` stands for reaching it; no theorem relies on that yet. The loops over a
-- bucket run for its count. update_tree runs for as many levels as there are nodes, the insertion
-- for as many steps, and create_huffman_tree for as many rounds as there are symbols; the end of
-- that fuel is a fault, so that a run that returns has not met it. The number of bits of a message,
-- its number of bytes and the index of encode_msg are ints, whose overflow is a fault. load_jobs
-- runs for as many rounds as there are scans, which suffices unless it gets stuck. Times, sizes and
-- counts are natural numbers that do not wrap. The remaining time stops at 0, where the source's
-- could become negative: step iii ends a process that has no more time left than the quantum before
-- the quantum is charged.
--
-- Not modelled: signals, waiting, printing and the averages at the end of mlq.c; locks and the
-- interleaving of calls of the hash map and of the list, and what their destructors free; stages 1
-- and 2 of the dispatcher, sigtrap.c and random.c; reading and writing the files, printing, the
-- parse of the option and freeing in huffman.c; svc_merge, printing and cleanup in svc.c, files
-- that exist and cannot be read, the failure to open a path in the directory that mkdtemp has just
-- made, and paths longer than its buffers; the rest of JXServer; and the other programs: office.c,
-- Channels, Comms, the lab exercise.
pub mod Base
pub mod Memory
pub mod Pcb
pub mod Dispatcher
pub mod HashMap
pub mod Unrolled
pub mod Office
pub mod Minesweeper
pub mod Huffman
pub mod Svc
pub mod JxServer

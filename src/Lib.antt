-- ===== src/Lib.antt =====
-- AliluOS, a text-mode kernel for x86-64 in Rust, as functions and theorems about them.
--
-- The kernel has one CPU and no processes. Two interrupt handlers change what the main loop reads:
-- the timer counts ticks, the keyboard handler puts the scancode of port 0x60 into a ring buffer.
-- The main loop takes scancodes out of the ring, makes key events of them and hands them to the
-- shell, which works on the file system in memory and writes to the VGA text buffer. All of them
-- allocate from one heap.
--
-- Ports.antt: `outb` as an entry of a log. A routine that programs a device returns what it
-- writes, in order.
--
-- Lock.antt: `Locked`, `Mutex` and `MutexGuard` of src/vga.rs, of which src/fs.rs and
-- src/allocator.rs have copies. A context, the main loop or an interrupt handler, is outside, in
-- the loop of `lock`, or has the guard; `Move` is one step of one. Lock/Exclusion.antt runs any
-- number of contexts in any order, Lock/Interrupt.antt a main loop and a handler on one CPU,
-- where the handler runs to its end before the main loop goes on. That an exchange may fail on a
-- free lock is a parameter of the step.
--
-- Interrupts.antt: src/interrupts.rs. `push` and `pop` are the methods of `ScancodeBuffer`;
-- `timer_interrupt_inner`, `keyboard_interrupt_inner` and `pop_scancode` change `State`, which
-- holds the two statics `SCANCODES` and `TIMER_TICKS`; `setup_gdt`, `setup_idt`, `setup_pic` and
-- `setup_pit` build the tables and the port writes, Interrupts/Gdt.antt the bytes of the
-- descriptor table and `init`, Interrupts/Reports.antt what the fatal exceptions show.
-- Interrupts/Queue.antt is the abstract queue, and Interrupts/Ring.antt compares the ring with
-- it. The ring has 256 entries, one of them always free. Interrupts/Entry.antt has the assembly
-- sequences around the handlers as lists of instructions and what each instruction does to the
-- registers and the stack.
--
-- Keyboard.antt: src/keyboard.rs. `translate` is the method of that name, its `match` in `key_of`,
-- `character_key` and two tables; `read_key` works on the interrupt state of Interrupts.antt.
--
-- Vga.antt: src/vga.rs. `Vga` holds the fields of the struct, the bytes of the text buffer as a
-- function from offsets, and the log of the CRT ports. Every method is a function from state to
-- state. Vga/Bounds.antt says which bytes a method may write, Vga/Scroll.antt also models the CRT
-- controller that reads the log.
--
-- Fs.antt: src/fs.rs. `Node` and `DirectoryNode` are the tree, a `BTreeMap` is the ordered list
-- of its entries (Fs/Map.antt), and the methods of `FileSystem` are functions that return the
-- new file system and a result. Strings are lists of characters, `split` and the comparison of
-- names are in Common/Strings.antt. Fs/Spec.antt is what a user sees, an entry at every path,
-- with which Fs/Refinement.antt compares the tree. `cwd_path` in Fs/Paths.antt is the text that
-- `print_cwd_path` of src/shell.rs prints.
--
-- Allocator.antt: src/allocator.rs. The free list, which the code keeps inside the free memory,
-- is a list of addresses and sizes, and a pool of a size class a list of addresses. `alloc` and
-- `dealloc` are the methods of `GlobalAlloc`, with `none` for the null pointer.
-- Allocator/Clients.antt are the callers: requests in any order over the blocks that were handed
-- out. Allocator/Owners.antt counts how many regions, pool blocks and handed-out blocks have a
-- byte. Allocator/Nodes.antt is the same code with its nodes inside the free memory: a memory
-- gives the word of 8 bytes from each multiple of 8 on, where every access of the code goes,
-- `next_at` and `size_at` are the words of a `ListNode`, in either order, and `head` is the
-- address of the node in the static. Its loops run on fuel, more than the list has nodes; a heap
-- of 5 MiB has at most 327680, each of 16 bytes or more. Allocator/Nodes/Chain.antt and
-- Allocator/Nodes/Pools.antt say which lists a memory has, Allocator/Nodes/Programs.antt are its
-- callers, whose writes, a byte at a time, come between their requests.
--
-- Game.antt: src/game.rs. `canvas_key` is the `match` of `start_canvas`, `turn` one turn of the
-- loop of `start_atari` after it drew, from `move_paddle`, `bounce`, `hit_brick` and
-- `move_ball`; the scancode is a parameter and `none` the end of the program. Game/Chess.antt is
-- `start_chess` with its board and its input line, Game/Drawing.antt what the canvas and
-- Breakout draw, Game/Numbers.antt the digits of the score, Game/Atari.antt `start_atari` as a
-- whole, which stays at the call of `print_num_at` while its guard is alive. The loops of the
-- programs run over the scancodes that they read, by `screen_loop` of Vga/Loops.antt.
-- Game/Scancodes.antt is how one of them is read, over rounds with the bytes of interrupts and
-- ports, and Network/Scancodes.antt the browser's copy of it.
--
-- Shell.antt: src/shell.rs. `Machine` is what a key can change: the shell, the file system, the
-- display and the tick counter. Shell/Commands.antt and Shell/FileCommands.antt have one function
-- for each command of `execute_command`, Shell/Keys.antt the key handlers, with `handle_key_event`
-- and `handle_key_press` of src/kernel.rs; `note_save` and `save_and_exit` are the arms of
-- `handle_ctrl_char`, `write_and_quit` and `quit` those of `handle_enter`. What the code shows is
-- a list of calls of the display, run by the driver's model. The programs that `play`, `draw` and
-- `browse` start are a parameter, `launch`, from the program and the display to the display; the
-- scancodes that a program takes out of the ring stay in the model's. The git commands are those
-- of src/network.rs.
--
-- Programs.antt: `launch` made of the programs of src/game.rs and src/network.rs, on the scancodes
-- that each reads.
--
-- Kernel.antt: src/kernel.rs. `initialize` is the start, `step` one event: a timer interrupt, a
-- keyboard interrupt with its byte, or a round of `run` with the bytes of ports 0x64 and 0x60.
-- Kernel/Start.antt: `_start` and `panic` of src/main.rs. `start` has every driver's start, from
-- what the kernel finds, the record `Hardware`.
--
-- Network.antt: src/network.rs. `pci_find_network_card` scans what `config` answers, `http_get`
-- works on a `TcpSocket` that no packet reaches. Network/Html.antt is `parse_html`, its variables
-- the record `Parser` and a round of its loop `step`; Network/Browser.antt has `WebBrowser` and
-- the search screen of `start_browser`, whose loop runs over the scancodes that
-- `read_scancode_blocking` returns.
--
-- Common.antt passes on the names that the models share: Boolean tests, arrays, texts.
-- Common/Words.antt has the operations of `str` and `String` that the shell and the browser use,
-- Common/Decimal.antt the loop that makes the decimal digits of a number.
--
-- Numbers are natural numbers; where the source's type wraps, the width is written out, and
-- where it subtracts, the models subtract the same operands. Loops are recursions on a list or
-- on a count. The loop of the decimal digits runs on fuel, as much as the number, which is
-- enough since each round divides it by ten, and the loops over the nodes in memory on more than
-- their number. The theorems on addresses bound them below a power of two. Letter case is that
-- of ASCII.
--
-- Not modelled: the sequence of `lgdt` and `ltr` and the instruction `lidt` themselves, and the
-- delays of Breakout. The models of the operations do not take the lock: each runs to its end,
-- as under its guard. The heap that the kernel itself uses while it runs is that of
-- Allocator/Clients.antt, not a part of the state of Kernel.antt.
pub mod Common
pub mod Ports
pub mod Lock
pub mod Interrupts
pub mod Vga
pub mod Fs
pub mod Keyboard
pub mod Allocator
pub mod Game
pub mod Shell
pub mod Network
pub mod Programs
pub mod Kernel

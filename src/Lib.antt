-- ===== src/Lib.antt =====
-- A model of the kernel of this repository, a 32-bit hobby operating system: its frame allocator,
-- its heap, its scheduler, its string routines, its FAT16 file system, its text screen with the
-- kernel log, the line editor behind its keyboard, its shell, its processor tables, and its drivers
-- for the disk, the mouse, the timer, the speaker, the clock, the PCI bus and a network card.
--
-- How the parts interact: kernel/kernel.c starts the frame allocator (drivers/pmm.c), takes one
-- frame of it as the heap (libc/mem.c), prepares the table of tasks (cpu/task.c) and lets the timer
-- interrupt call the scheduler, after it has filled the processor's tables (cpu/gdt.c, cpu/idt.c,
-- cpu/isr.c). The keyboard hands a line to the shell (kernel/shell.c), which calls the file system
-- (fs/fat16.c), which reads and writes sectors of the disk and uses the string routines
-- (libc/string.c) on names and contents; a program is loaded from a file into the heap and becomes
-- a task, whose stack is a frame.
--
-- The files:
--   Base: tests on numbers, arrays, bits and texts that the parts share. An array is a list. The
--     models are partial: `none` stands for an access outside an array, for a pointer to nothing
--     and for a loop whose fuel runs out, so that a theorem that gives `some` excludes all three.
--     A message is kept as `print` puts it out. `c_text` gives that for a buffer printed without
--     further arguments: a `%d` in it, for which `print` reads an argument that nobody passed,
--     shows as the mark 256, and an array without a terminator ends in the mark 257. Neither is a
--     byte, so a theorem that gives a message of bytes excludes both.
--   Pmm: drivers/pmm.c. `memory_bitmap` is a list of 128 words. Pmm.Ownership adds a record of who
--     owns which frame, which the code does not keep.
--   Heap: libc/mem.c. The blocks are a map from addresses to headers. The fuel of `kmalloc` counts
--     blocks visited; more than the list has is enough.
--   Task: cpu/task.c. The stack pointers are numbers, memory a map from addresses to words. The
--     fuel of `next_active` is the size of the table, three, which is enough for any current task.
--     `resume` is the end of `isr32` in cpu/interrupt.asm, which takes a task's registers off its
--     stack.
--   CString: libc/string.c. A `char *` is the list of the bytes from the pointer to the end of its
--     array; `int` is its bit pattern below 2 ^ 32.
--   Fat16: fs/fat16.c. A Volume is the disk as a map from sector numbers to 512 bytes, the global
--     `current_dir_cluster` and the messages printed. Sectors are what drivers/disk.c promises to
--     read and write. `print_chain` has the fuel that its caller gives, since the loop has no
--     bound; `clear_chain` has 258 rounds, one more than a sector of the table can lead through.
--   Keyboard: drivers/keyboard.c. The handler is a function from a scancode and the file's globals;
--     the shell that it calls is a function on the line buffer, which only has to keep its length,
--     and what is printed, executed or written to a port is a sequence of events. Typed, Entered
--     and Recalled follow a line through its keys, Enter and the up arrow.
--   Vga: drivers/vga.c. The frame buffer is a function from offsets to bytes; a coordinate is the
--     bit pattern of an `int`.
--   Screen: drivers/screen.c on top of Vga, with the table of glyphs of include/font.h as an
--     argument.
--   Mouse: drivers/mouse.c, with what the ports give as arguments.
--   Kernel: `main` of kernel/kernel.c as far as it composes Pmm, Heap and Task. The fuel goes to
--     `kmalloc`; two rounds look at the one block and at the end of the list. Kernel.Start is all
--     of `main` up to its idle loop.
--   Ports: drivers/ports.c is the inline assembly of six instructions, so the machine behind the
--     ports is a parameter: a type of states and what each instruction gives and does, the
--     `volatile` accesses of memory included.
--   Drivers: drivers/timer.c, speaker.c, rtc.c, pci.c, disk.c and e1000.c (NetworkCard) over Ports.
--     What a theorem needs of a chip is a record of laws beside it: Ata (Ata), Pit (Sound), Clock
--     and PciBus (Bus). Board and Tests have machines that satisfy them. A wait of Disk has fuel,
--     since the code's has no bound; more than the disk's latency is enough. Transfer, Words and Sectors
--     tie Disk to the sectors of Fat16, Probe is about the search for the network card.
--   Cpu: cpu/gdt.c (Descriptors), cpu/idt.c and cpu/isr.c (Interrupts) and cpu/paging.c (Paging).
--     Segments, Gates and Translation read the tables as the processor does.
--   Shell: kernel/shell.c and `execute_program` of fs/fat16.c (Programs), on a System that is the
--     state of all components. The arguments of a handler are positions in the line, which `strtok`
--     cuts in place. Lookup is about the choice of the handler, Echo and Math about one line,
--     WriteCat about two lines, one after the other. Line and Keeps follow the length of the line
--     through every handler. A division by zero in `math` is recorded as interrupt 0, which the
--     processor raises, and nothing of the handler runs after it.
--   Session: Keyboard on top of Shell. An interrupt of the keyboard runs `keyboard_handler` and
--     then what it called, in that order, on a System; `execute_command` works in the keyboard's
--     buffer. Interrupt is about one interrupt, Lines and Entered about a line, Spoken about
--     `echo`.
--
-- Not modelled: the assembly files but for the end of `isr32`: they enter interrupts, load the
-- processor's registers and switch to user mode; the glyphs of include/font.h; the tasks `task_a`
-- and `task_b`, which print a letter forever. Fat16, Task, Keyboard and Shell record their messages
-- and do not draw them: Shell's screen is drawn on only by the handlers that draw, and
-- Screen.Cursor ties `c_text` to the `print` that draws. Inline assembly in a handler of the shell
-- is recorded as an instruction. The empty loop of `beep` takes time only.
pub mod Base
pub mod CString
pub mod Cpu
pub mod Drivers
pub mod Fat16
pub mod Heap
pub mod Kernel
pub mod Keyboard
pub mod Mouse
pub mod Pmm
pub mod Ports
pub mod Screen
pub mod Session
pub mod Shell
pub mod Task
pub mod Vga

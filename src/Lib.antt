-- ===== src/Lib.antt =====
-- My-Operating-System: a 32-bit x86 operating system in C, loaded by two boot stages.
--
-- The second boot stage (stage2/) reads the kernel from a FAT16 volume over the ATA ports and jumps
-- to it. The kernel (kernel/) sets up segments, interrupts, the interval timer, a heap and a text
-- screen, and runs up to six tasks in turn. The keyboard interrupt fills a buffer, which one task
-- shows on the screen and hands to the line buffer that other tasks read. The timer interrupt
-- switches tasks unless one of them is in a critical section.
--
-- The files and the code that they model. A file's children hold its lemmas and theorems.
--   Base       no code of the repository: numbers, words, lists, bits
--   Memory     kernel/MEMORY_MANAGMENT/memory_managment.c (memset, memcpy), kernel/UTILS/utils.c
--              (memcmp); the memory is a function from addresses to bytes
--   Heap       kernel/MEMORY_MANAGMENT/memory_managment.c: the record `Heap` has the static
--              variables; malloc, free, realloc and zalloc return the new state
--   Screen     kernel/SCREEN_DRIVER/screen_driver.c: the cursor and the video memory
--   Tasks      kernel/tasks/tasks.c, kernel/IDT/ISRs/timer/timer.c, the loop condition of k_sleep in
--              kernel/main.c: a tick is `timer_handler` with the stack pointer that it saves
--   Io         kernel/UTILS/asm_utils.c, the interrupt flag of kernel/IDT/IDT.c: a trace of port
--              accesses, the device a parameter
--   Division   kernel/UTILS/asm_utils.c: the 64-bit divisions, the instructions parameters
--   Pic, Pit   kernel/PIC/PIC.c, kernel/PIT/PIT.c: functions on the trace
--   Gdt, Idt   kernel/GDT/GDT.c, kernel/IDT/IDT.c: tables, and the machine code of the stubs
--   Idt/Exceptions   kernel/IDT/ISRs/exceptions/exceptions.c
--   Keyboard   kernel/IDT/ISRs/keyboard/: decoding by the tables, and the character buffer
--   Stdin      kernel/stdin/stdin.c: the buffer lies in the byte memory, with its counters;
--              Stdin/Line has the outcomes of read_line
--   Ata        stage2/ATA_DRIVER/: actions on the trace, the error variable and the memory;
--              Ata/Init has the reset, the detection and the identification, Ata/Layout the
--              fields of ata_identify_t
--   Text       kernel/STRING/string.c: strlen, strcmp, strncpy, strncat, utf16_to_ascii
--   Text/Split kernel/STRING/string.c: strsplit, on the heap and the memory of Machine; its
--              children follow the array of tokens through the calls of realloc
--   Digits     kernel/UTILS/utils.c, and itoa of kernel/STRING/string.c: integers as text
--   Format     kernel/STRING/string.c: snprintf
--   Machine    the state that the second stage's functions share: drive, heap, memory, errors
--   Fat        stage2/FAT16/fat16.c and fat16_helpers.c: the layout of a volume
--   Fat/Described  where the tables, the root directory and the data of a volume lie
--   Fat/Chain  stage2/FAT16/chain.c, load_clusterd_entry.c: cluster chains
--   Fat/Names  stage2/FAT16/lfn.c: long and short names
--   Fat/Dir    stage2/FAT16/parse_dir.c: directories
--   Fat/Open   stage2/FAT16/open.c, get_file_size.c, fat16.c: files by their paths
--   Boot       stage2/bootloader_stage2.c: from the drive's detection to the jump to the kernel
--   Boot/Console   stage2/SCREEN_DRIVER/screen_driver.c
--   Setup      kernel/main.c: the set-up of the kernel's parts, composed as the source does, from
--              _start on
--   Terminal   stdin_loop of kernel/stdin/stdin.c, the tasks of kernel/main.c, idt_common_isr
--              and idt_print_isr_id of kernel/IDT/interrupt_stub.c: from the keyboard to the screen and the line buffer
--   System     the running kernel: the timer interrupt, the keyboard interrupt and the statements
--              of the tasks as the steps of one state, in any order; System/Start joins it to
--              the kernel's start
--   Examples   runs of the code, and the theorems at concrete inputs
--
-- How they interact: Heap gives k_create_task its stacks and read_line its lines; Memory is under
-- Heap, Screen, Stdin, Text and Ata; Io is under Pic, Pit, Keyboard and Ata. Fat allocates, reads
-- sectors and splits paths through the actions of Machine.
--
-- Integers are natural numbers, cut with `% 2 ^ w` where the C type has w bits. Counted loops are
-- recursions on the count. The ATA polling loops take the number of rounds of the source, 100000.
-- strlen and strcmp have no bound in the source: they take a number of steps, and more steps than
-- the string has bytes are enough. snprintf takes a number of steps as well, and more than the format
-- has bytes are enough; a cluster chain takes more than 2^15, since the 16-bit size of its array is 0
-- then. A line that echo_task prints has fewer than 2^16 bytes, and takes as many rounds of
-- print_string. A 32-bit number has at most 32 digits in any base from 2 on. An array of structures on the
-- heap is a list beside the memory, in which its block is allocated and freed; the loaded file
-- allocation table is a function. A wait for another interrupt (read_char, read_line) is the result
-- `none`. A read behind an array, which C leaves undefined, is the result `fault` in Keyboard. An
-- interrupt comes between calls; what the code protects by a critical section is a sequence of
-- ticks between the two calls. In System an interrupt comes between any two statements of stdin_loop
-- and stdin_insert, and between any two accesses of put_char to the cursor and the cells, for which
-- System/Accesses takes put_char apart: the cursor's variables then hold any byte. What read_line does
-- in its critical section is one step; read_char and peek_char, which no task calls, are no steps.
-- kernel_start is taken without an interrupt before its end.
--
-- Not modelled: the boot and switch code in assembly, which C code calls only, and of the two
-- interrupt entry points and of idt_common_isr all but their port accesses and calls; the words
-- on a new task's stack, which that assembly reads; the headers that only declare. The copies of
-- the kernel's string, memory and number functions under stage2/ have no definitions of their
-- own, since their text is that of the kernel's.
pub mod Base
pub mod Memory
pub mod Heap
pub mod Screen
pub mod Setup
pub mod Tasks
pub mod Io
pub mod Pic
pub mod Pit
pub mod Gdt
pub mod Idt
pub mod Keyboard
pub mod Stdin
pub mod Ata
pub mod Text
pub mod Fat
pub mod Machine
pub mod Digits
pub mod Division
pub mod Format
pub mod Boot
pub mod Terminal
pub mod System
mod Examples

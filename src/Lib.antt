-- ===== src/Lib.antt =====
-- Emulators for small processors, from the repository's folder ysyx-workbench: their instructions,
-- their memory, their loops, and what a program that runs on them does.
--
-- MiniRv is am-kernels/tests/self/C_mini/C_minirv/main.c, an emulator of the minirv instruction set
-- with 1 MB of ROM and RAM. MiniRv/Machine has its globals as the record State, MiniRv/Exec the
-- function inst_cycle with a definition for each case of its switch (exec_op, exec_op_imm, exec_lui,
-- exec_jalr, exec_load, exec_store, exec_system), MiniRv/Boot the function main: `start` up to its
-- loop, `iterate` for a round of it and `loop` for so many rounds. An exit and an array access out
-- of range are outcomes. MiniRv/Spec describes the instruction set on its own, as a data type of
-- instructions with their encoding and a step function; MiniRv/Refine, MiniRv/Range and
-- MiniRv/Program relate the emulator to it.
--
-- Screen is am-kernels/tests/self/C_minirv_screen/main.c, the same processor with 4 GB of RAM and a
-- frame buffer: Screen/Machine has its globals and inst_cycle, Screen/Boot its main. The four cases
-- of inst_cycle that are written as in C_minirv are the definitions of MiniRv/Exec on the registers
-- that the two share. Screen/Simulates and Screen/Loop compare the two emulators, Screen/Counter is
-- about the check on PC.
--
-- Sisa is am-kernels/tests/self/C_mini/C_sISA/main.c, an 8-bit machine with 16 bytes of memory and
-- the program that main stores in it: Sisa/Machine has inst_cycle, main up to its loop (`boot`) and
-- the loop; Sisa/Sum is about that program, Sisa/Bounds about any.
--
-- Nemu is the folder nemu. Nemu/Pattern is the pattern matching of include/cpu/decode.h, by which
-- an instruction set lists its instructions. Nemu/Memory has the host accesses of
-- include/memory/host.h (Host), the I/O spaces and maps of src/device/io/map.c and
-- include/device/map.h (Map), the tables of mmio.c and port-io.c (Mmio, PortIo) and the guest
-- addresses of src/memory/paddr.c and vaddr.c (Paddr): an access goes to the array pmem or through
-- a map to a device, whose callback is a parameter. Nemu/Riscv32 is src/isa/riscv32: inst.c, init.c
-- and the functions of ifetch.h and hostcall.c that it calls. Nemu/State is src/utils/state.c, and
-- Nemu/Cpu the loop of src/cpu/cpu-exec.c over all of these. Nemu/Keyboard is the key queue of
-- src/device/keyboard.c with the device in front of it and its keymap.
-- Nemu/Result says how an operation ends:
-- with a value, with a failed check, or with an access outside a host array.
--
-- Nemu/Devices is src/device with src/utils/timer.c: Clock has get_time, World the state that the
-- handlers share, and Serial, Rtc, Alarm and Card are serial.c, timer.c, alarm.c and sdcard.c, each
-- handler a callback of an IOMap on the registers in io_space. Board is init_device with the init
-- function of every device, and Update is device_update, which hands the events of SDL to the key
-- queue. Nemu/Sdb is the debugger, src/monitor/sdb: Text has parse_uint64 and the functions of the C
-- library that it relies on, Commands a function for each command, Mainloop the loop over the lines,
-- Watchpoint the pool. Its state is the run of Nemu/Cpu and what has been printed. Nemu/Difftest is
-- src/cpu/difftest/dut.c, with the functions of the reference in a record, and Nemu/Difftest/Loop the
-- loop of cpu-exec.c that calls it, with ref.c. Nemu/Mips32 and Nemu/Loongarch32r are the other two
-- instruction sets with a pattern table, src/isa/mips32 and src/isa/loongarch32r, and Nemu/Isa the
-- loop over their instructions. Nemu/X86 is src/isa/x86, whose decoder reads an instruction byte by
-- byte: Decode has the ModR/M and SIB bytes and the operands, Exec the table of isa_exec_once and its loop over the prefix.
--
-- Base has what these share: tests on numbers, machine words with their wrap-around written out,
-- bitwise operations, lists, and byte memories.
--
-- Bounds: a loop that may not end is a function of a number of rounds, and `running` says that they
-- were used up; the theorems state how many rounds are enough. cpu_exec takes its number of
-- instructions from the code. On x86, an instruction has less than 16 bytes, so 16 opcodes are enough
-- for the loop over its prefixes. An array is a function from its index together with its size, and
-- every access checks its range.
--
-- Nemu/Monitor is src/monitor/monitor.c and main: parse_args, load_img, and init_monitor, which calls
-- the start of the memory, the devices, the instruction set, the differential testing and the debugger
-- in the order of the code; nemu_main runs the debugger behind it. Nemu/Devices/Loop is the loop of
-- cpu-exec.c again, with device_update behind each instruction.
--
-- Microbench is am-kernels/benchmarks/microbench: Microbench has what src/bench.c gives to the
-- benchmarks, Microbench/Qsort and Microbench/Sieve are two of them. An array is a function from the
-- index; the recursion of myqsort and the loops of the sieve take fuel, the size of the array, and the
-- theorems show that it is enough.
--
-- Kernels is am-kernels/kernels: Kernels/ThreadOs the scheduler of thread-os/thread-os.c, with the loop
-- of on_interrupt on fuel, for which five rounds are enough, Kernels/ThreadOs/Lock its tasks and their
-- spin lock as steps that interleave, and Kernels/YieldOs the two coroutines of yield-os/yield-os.c.
-- What they call of the abstract machine is an argument.
--
-- Klib is abstract-machine/klib/src/stdlib.c without its stubs malloc and free: Klib has rand, srand,
-- abs and atoi, on ints of 32 bits and an unsigned long whose width is an argument; Klib/Numbers is
-- about what they return. Signed overflow is `none`.
--
-- Not modelled: the text of messages, files beyond their content, traces, the drawing of the screen,
-- and host time, whose readings are an argument. Nemu/Cpu stands for the default configuration for
-- riscv32, where differential testing and devices are off; whether devices are on is a field of Config
-- for memory accesses. Nemu/Devices/Loop has the loop with devices, and Nemu/Difftest/Loop the one
-- with differential testing. The unfinished expr.c, the rest of the abstract machine and the
-- other benchmarks and kernels are not modelled.
pub mod Base
pub mod MiniRv
pub mod Screen
pub mod Sisa
pub mod Nemu
pub mod Klib
pub mod Microbench
pub mod Kernels

-- ===== src/Lib.antt =====
-- Models and proofs for the C code of this repository that keeps data moving between processes: the
-- character driver of the AESD assignments with its circular buffer, the socket server in front of
-- it, the devices of the scull driver, a block device and a pair of network devices. A client sends a line to the server, which writes it
-- to the driver and sends back what the driver holds; the driver keeps the last ten lines in the
-- circular buffer. The FIFO device is the other way in which processes hand bytes on.
--
-- Base holds shared names: lists and tests over the native numbers, signed results, machine words
-- and pointers, and windows of circular arrays.
-- Kernel is what the drivers use of the kernel: a heap of blocks, kmalloc, krealloc, kfree and the
-- copies from and to a process, as a record of functions with laws. Kernel.Sample has two instances
-- of it, which meet the laws.
-- CircularBuffer is assignments-3-and-later-saloni1307-master/aesd-char-driver/aesd-circular-buffer.c
-- and its header: init, add_entry, find_entry_offset_for_fpos and free are the functions with those
-- endings. The search loop runs at most ten times in the source, once for each entry, and the model
-- gives it ten rounds.
-- CharDriver is main.c and aesdchar.h beside it: read, write, open_device, release, init_module and
-- cleanup_module are aesd_read, aesd_write, aesd_open, aesd_release, aesd_init_module and
-- aesd_cleanup_module. They take the heap and the device and give them back. CharDriver.Spec is the
-- abstract view, a log of the last ten lines and an unfinished one.
-- ScullPipe is assignment-7-saloni1307-master/scull/pipe.c: read, write, poll, open_pipe, release and
-- spacefree are the functions with those names, wait_while the two loops that sleep. A call is given
-- the wake-ups that it meets, with the state of the pipe at each; when they are used up it is asleep.
-- The abstract view is the queue of the bytes that wait. Pointers into the buffer are offsets.
-- ScullPipe.Setup has scull_p_init, scull_p_setup_cdev, scull_p_cleanup and scull_p_fasync.
-- Scull is main.c and scull.h beside pipe.c, the memory device: follow, read and write are scull_follow,
-- scull_read and scull_write, over a list of items with their arrays of blocks. Scull.Device has
-- scull_trim, scull_open and the start and the end of the module, Scull.Seek scull_llseek, and
-- Scull.Ioctl scull_ioctl with its commands. The abstract view (Scull.Cells) is the byte at each
-- position, if its block is there; Scull.Life follows the blocks that are made and given back.
-- ScullAccess is access.c beside pipe.c: the opens that bound who holds a device at once, single_open,
-- user_open, blocking_open and clone_open for scull_s_open, scull_u_open, scull_w_open and
-- scull_c_open, with their releases. ScullAccess.Files adds the device that the file gets and its trim:
-- single_file, user_file, blocking_file and clone_file are the whole opens. ScullAccess.Setup has
-- scull_access_setup, scull_access_init and scull_access_cleanup. ScullModule puts the three together:
-- load and unload are scull_init_module and scull_cleanup_module with all that they call.
-- Snull is snull/snull.c beside the scull directory, two network devices that hand their packets to
-- each other: tx and hw_tx are snull_tx and snull_hw_tx, interrupt the handler that the module chose.
-- A loop over a budget is recursion on it. Sbull is sbull/sbull.c beside it, a disk in memory: transfer, request and xfer_bio are
-- sbull_transfer, sbull_request and sbull_xfer_bio, and open_disk, release and invalidate follow its
-- users and its timer.
-- Server is assignments-3-and-later-saloni1307-master/server/aesdsocket.c, as it is built for the
-- character device: thread_func with its receiving and its sending loop, and timespec_add; Server.Main is
-- its main function with the accept loop and the list of threads. A signal ends a round of that loop. A join of
-- a thread that was never created, or is joined already, is undefined. What the
-- system calls give to a thread is a record; each loop goes on as long as its calls give something
-- and waits when they are used up. Reading the file is recursion on the bytes that it has.
-- Echo puts a thread of the server on the driver: the file of the thread is the device.
-- Processes is assignments-3-and-later-saloni1307-master/examples/systemcalls/systemcalls.c: do_system,
-- do_exec and do_exec_redirect, with both processes after a fork.
-- Threading is assignments-3-and-later-saloni1307-master/examples/threading/threading.c: threadfunc,
-- and start_thread for start_thread_obtaining_mutex.
-- Writer is assignments-3-and-later-saloni1307-master/finder-app/writer.c: write_file is its main.
--
-- Locks are taken as what makes the calls atomic: of the lock the model has whether it was got, and
-- whether it is given back. Sizes are natural numbers: the code has no wrap-around below the sizes
-- that an allocation can have. kmalloc of no bytes gives a block of its own here, where the kernel has
-- one address for all of them; a write of no bytes makes one where no bytes wait, and the next write
-- abandons it. Not modelled are the registration of the memory devices of scull with the kernel, the
-- listings under /proc and the signals to asynchronous readers, which are calls into the kernel; the variants of the memory device of scull; the queues, disks and headers
-- that the kernel keeps for sbull and snull; the timer thread of the server, which is not in the build
-- for the character device; the other drivers of assignment-7-saloni1307-master; tests, scripts,
-- recipes of build systems and the Python code of the final project.
pub mod Base
pub mod CharDriver
pub mod CircularBuffer
pub mod Echo
pub mod Kernel
pub mod Processes
pub mod Sbull
pub mod Scull
pub mod ScullAccess
pub mod ScullModule
pub mod ScullPipe
pub mod Server
pub mod Snull
pub mod Threading
pub mod Writer

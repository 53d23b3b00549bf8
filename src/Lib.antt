-- ===== src/Lib.antt =====
-- drawterm: a Plan 9 terminal. It speaks 9P to a remote server and serves local devices to it.
--
-- Ninep (libc/convS2M.c, libc/convM2S.c, libc/convD2M.c, libc/convM2D.c, include/fcall.h): messages
-- and directory entries between their records and their bytes. `Wire` has the macros GBIT and PBIT
-- and the string and qid helpers, `Fcall` the record of a message, `Encode` sizeS2M and convS2M,
-- `Decode` convM2S, `Dir` the entries. A buffer is the list of its bytes from the pointer to its
-- end; `return 0` is `none` of a reader or `fail` of a writer; an access outside an array or a
-- buffer is a `fault`. C strings are lists of the bytes before the NUL, nil pointers are `none`.
--
-- `Ninep.Stream` is libc/read9pmsg.c and libc/readn.c, over a `read` that is an argument, with the
-- state of the file and the bytes that are still to come; `n` rounds are enough for readn, since each
-- takes a byte at least.
--
-- Rune (libc/rune.c, libc/utflen.c): runes and their UTF-8 bytes; a read behind the bytes that are
-- there is `none`. A `long` is an `int`, as include/lib.h has it. The fuel of `utflen` is the number of bytes, and each round takes one at least.
--
-- Lock (kern/qlock.c, kern/rwlock.c): `Lock` has QLock over processes that are linked by qnext,
-- `Lock.Abstract` the same as a holder and a list of waiters, `Lock.Rw` RWLock as a step relation:
-- one step is a call of qlock, canqlock or qunlock, or a section under a spin lock, of one of `n`
-- processes, and `Reach` is every interleaving of steps. procwakeup moves a process from the place
-- where it waits to the place behind the call; it may then stay there as long as it likes.
--
-- Fd (kern/sysfile.c, kern/pgrp.c): the table of open files. `Fgrp` is the struct, a channel is a
-- number, and `State` has the table, the reference count, mode and flags of every channel and
-- whether `panic` was called. -1 of growfd, findfreefd and newfd is `none`, error() is a `Result`;
-- a section under the lock of the table is one step, and whether malloc has memory is an argument.
-- When a count reaches 0 the channel gets the flag CFREE; the close of its device and what chanfree
-- frees are not in the state.
--
-- Mnt (kern/devmnt.c): the tags of 9P requests, as bits of `tagmask`, and the pool of requests.
-- alloctag looks at the 32 bits of a mask, which are enough, since it passes a full mask by. A
-- request is a number; `Mnt.Pool.Call` is one call of mntralloc or mntfree, and `Home` where each
-- request is. What malloc returns is an argument, and an error or a panic is `none`.
-- `Mnt.Mux` has the queue of a mount point: a step is a section of mountio, of one of any number of
-- processes, with mountmux as the code has it; a reply that arrives may be any.
--
-- Aan (aan.c): the filter that keeps a connection alive over network connections that break. One
-- round of `aanwriter`, `aansyncer` or `aanreader` and one `reconnect` are functions of the `Client`,
-- and `Aan.System` is two clients, the messages on their way, and every order of their rounds, with
-- breaks that lose what is on its way. The other end of the protocol, which is a program of the
-- server, is taken to be such a client too. Numbers of messages are 32 bits and wrap round; a client
-- is assumed to keep fewer than 2^31 messages.
--
-- Qio (kern/qio.c, kern/allocb.c): queues of blocks. `Qio.Blocks` has blocks, as bytes with room
-- before and behind them, `Qio` the queue and the operations that do not wait, `Qio.Read` and
-- `Qio.Write` those of processes. The bits of `state` are fields, `rp` and `wp` are 32 bits and wrap
-- round, and so does `dlen`, which is an int. `qwait` is one look at the queue, after which a reader
-- sleeps or goes on; the position at which a writer waits is in the result of `qbwrite`. `qflow` takes
-- what the other processes do during one sleep as an argument, and the number of sleeps; 2^31 are
-- enough where each brings the queue nearer, since a writer that waits is less than 2^31 ahead. Where
-- malloc puts a block is an argument; that blocks are freed is not in the state, and nil is `none`.
-- `wakeup`, `kick` and `bypass` are entries of `signals`. `Qio.Calls` is any sequence of calls,
-- `Qio.Direct` has qaddlist, qremove and qputback by other code among them, and `Qio.Lists` has the
-- operations on other lists of blocks. The rounds of qwrite and qiwrite are bounded by the length.
--
-- Encodings (libc/u16.c, libc/u32.c, libc/u64.c): text in base 16, 32 and 64. An `int` is its 32 bits,
-- so the tests of the digits are the code's, bit by bit; a count of bytes is the list of them.
--
-- Tokens (libc/tokenize.c): strings cut into words. A string is its characters before the NUL, and
-- what a loop leaves is the rest of it. The output of `qtoken` goes over its input and never ahead of
-- it, so the words are lists of their own; the code returns their number.
--
-- Not modelled: the other devices and the device switch, channels, mount tables and path walks,
-- the export file server, path clean-up, attribute lists, IP addresses, authentication and cryptography,
-- drawing, printing, and the code of the hosts and the window systems.
pub mod Prelude
pub mod Aan
pub mod Encodings
pub mod Fd
pub mod Lock
pub mod Mnt
pub mod Ninep
pub mod Qio
pub mod Rune
pub mod Tokens

-- ===== src/Lib.antt =====
-- Models of the C programs of this collection, with the theorems that make them correct.
--
-- The collection holds independent programs; each part below models one of them.
--
-- ThreadPool (20180731threadpoll-test/threadpoll.c, threadpoll.h and main.c): a pool of worker
-- threads with a manager that adds and removes them. `Pool` is `threadpoll_t`. A critical section,
-- from the lock to the unlock or to a wait, is one function: `worker_woken` and `worker_fetch` are
-- those of `worker_thread` up to its task, `worker_done` the one behind it, `manager_round` a
-- round of `manager_thread`, `add_task` that of `threadpoll_add_task` and `disable` that of
-- `threadpoll_destroy`. ThreadPool/System puts them together: a state is the pool, where each
-- worker stands, and what clients and workers have done, and a step is one section of one thread,
-- in any order. ThreadPool/Ring reads the array as a queue, ThreadPool/Sections is about single
-- sections, ThreadPool/Outcome about their ends, ThreadPool/Growth about the manager,
-- ThreadPool/Places about the workers that it adds, among them those that it could not create,
-- ThreadPool/Create about `threadpoll_create` and its failures, and ThreadPool/Invariant and
-- ThreadPool/Safety about every order of steps; ThreadPool/Progress and ThreadPool/Lost are about
-- a task that waits, ThreadPool/Shutdown and ThreadPool/Emptied about the pool behind
-- `threadpoll_destroy`. In ThreadPool/System a sleeper may wake without a signal. ThreadPool/Demo
-- is main.c, whose calls come between the steps of the pool. The ids that `pthread_create` stores,
-- what `pthread_kill` finds and what `malloc` does are parameters. The loop of the manager that
-- adds threads runs for as many rounds as the array of ids has slots, as in the code.
--
-- Memory: nodes with a `next` pointer at addresses, for the list programs. A command ends with a
-- result, in a fault (NULL, or an address that holds nothing), or by using up its fuel.
-- Memory/Chain says which nodes a pointer leads to, Memory/Relink what relinking does to them,
-- Memory/Exchange and Memory/ExchangeSteps what it takes that two nodes change places.
--
-- DevList (20180208/list.c, list.h and main.c): a linked list of devices, and in DevList/Commands
-- the commands of the program that keeps it. The nodes are cells of Memory, and the blocks of
-- device data are the rest of its store. Each loop has fuel, and one round more than the list has
-- nodes is enough; the theorems give the result and so show it. What `malloc` returns is an
-- argument.
--
-- Timer (auto_imi_db_bin/src/miio_timer.c and miio_timer.h): a list of event timers behind a head
-- node, on Memory again. The POSIX timers are a record of functions on a state of the system, about
-- which nothing is assumed. The fuel is as for DevList.
--
-- Queue (20180320queue/src/queue.c and queue.h): a bounded queue of strings, on Memory again.
-- `queue_push` and `queue_pop` are `QUEUE_PUSH` and `QUEUE_POP`. A block of text has no NUL of its
-- own; whether one follows it is the parameter `ends`, and a run where none does is a fault.
-- Queue/Fifo is the bounded queue that it stands for, Queue/Held what the nodes hold, Queue/Refine
-- about one call, Queue/First about any sequence of them. Queue/Calls has 20180320queue/examples/
-- simple.c: its loop that pops runs on fuel, for which one more than the size is enough
-- (Queue/Drain).
--
-- Sem (20180727sem-sig-test/sem.c, sem.h and main.c): wrappers of POSIX semaphores, which are a
-- parameter, and two threads of which one waits and the other posts. Sem/Apple has the branches of
-- sem.c for __APPLE__, Sem/Signals the signals of main.c, and Sem/Interrupts what a
-- signal does to a thread that waits.
--
-- Counter (20170822/main.c): two threads that count without a lock, by single reads and writes;
-- Counter/Bounds is about every state, Counter/Ends about the last.
--
-- Text and Db (auto_imi_db_bin/src/imi_db_mi.c and imi_db_mi.h): settings in four databases, which
-- a key chooses by the hash of its first three bytes. Text has the hash and the search in the
-- factory data. Db has `imi_db_mi_get_value`, `imi_db_mi_set_value` and `imi_db_mi_save_db_file`,
-- Db/Create `imi_db_mi_init` and `imi_db_mi_deinit`, which start and end the timer of Timer, and
-- Db/Keys the tables. Db/Dispatch is about the choice of the database, Db/Values about what is
-- stored, Db/Save about the files, Db/Locks about the order of the calls on them, with the locks,
-- and Db/Life about the end. `nvram_find_mtd` is not called and not modelled. Db/Program is
-- auto_imi_db_bin/main.c, and Db/ReadBack what it reads of the values that it has set. The
-- dictionaries of iniparser are a record of functions, about which Db/Values alone assumes
-- something, `SetThenGet`; a file is its bytes.
--
-- Chat (20170815/server.c and client.c): two programs that talk in turns over TCP. `say` is the
-- loop of `goto _retry`, `talk` a turn to talk up to the result of `send`, and `listen` one of
-- `recv`; a `Chat` is both programs on one connection, which carries bytes in order, and
-- a step is one turn of one of them. `send` may take a part of a message or fail, and `recv` may
-- give a part of what has arrived or fail, unless the connection is `smooth`, as the theorems of
-- Chat/Delivery and Chat/Ending suppose. `say` has fuel, one more than the bytes that the
-- user has still to type, and Chat/Say shows that it is enough. Chat/Phase says whose turn it is,
-- Chat/Delivery what arrives, Chat/Ending bounds the number of turns, Chat/Errors is about failing
-- calls, and Chat/Start about the arguments of both programs.
--
-- Mqueue (20171107/mqueue_system.c): four threads on one System V queue. `thr_fun1`, `thr_fun2`,
-- `thr_fun3` and `main_round` are a round of each thread, or for `thr_fun1` half of one, and a
-- state keeps the messages that went into the queue and those that each thread took. The queue is
-- a record of functions, and Mqueue/Documented the hypotheses on it. A word that `scanf` would
-- write over the end of its buffer ends the model. Mqueue/Order is about who gets what,
-- Mqueue/Removed about the end of the queue, and Mqueue/Refused about a message that the queue
-- does not take.
--
-- MqueueIpc (20171107/mqueue_ipc.c): a POSIX queue into which `main` sends what is typed, and two
-- threads that read it. `main_read` and `main_send` are a round of the loop of `main`, which may
-- wait in between, `thr_fun1` and `thr_fun2` a round of the threads. MqueueIpc/Quit is about the
-- end of the loop.
--
-- RingDemo (20180720ringbuffer/main.c): a thread puts consecutive numbers into a ring buffer,
-- another gets them, and the user stops and starts the first. `pthread_func_1`, `pthread_func_2`
-- and `main_round` are a round of each thread. The ring buffer is a record of functions, with
-- hypotheses in RingDemo/Arrive; its calls are taken to be atomic.
--
-- Ntp (20181212ntp/ntp.c): the SNTP client. `to_bytes` and `of_bytes` are the layout of `struct
-- ntphdr`, `request` and `get_ntp_packet` the request, `get_offset` and `get_rrt` the arithmetic,
-- and `ntp_main` is `main` with what each call returns as an argument. A `double` is a number of
-- microseconds. Ntp/Packet is about packets, Ntp/Offset about times, and Ntp/Failure about `recv`.
--
-- Address (20170831/main.c): the addresses of a network interface as text; `address_main` is
-- `main`. Address/ReadBack reads the hardware address back from what is printed.
--
-- Music (20170626/Arduino_music/Arduino_music.ino): a game on a board with two buttons, a buzzer
-- and a matrix of lights. `game_round` is a game, over the list of the passes of its loop,
-- `loop_call` a call of `loop`; what the clock, the pins, `random` and `map` give are arguments.
-- Music/Playing is about the song, Music/Score about the result, and Music/Screen about what is
-- drawn.
--
-- Sketches (20161109/Indicator/Indicator.ino and 20161121/backdoor/backdoor.ino): two boards with
-- a strip of lights, which is a list of colours. Sketches/Indicator asks another program for the
-- state of an account once a second, Sketches/Backdoor triggers a recorder when a door opens.
--
-- Sqlite (the seven programs of 20170808): what sqlite answers is an argument. `script_main` is
-- `main` of the five that run one script, which Sqlite/Scripts has; Sqlite/Stmt is sqlstmt.c, of
-- which the loop has fuel, and one more than the rows is enough (Sqlite/Steps).
--
-- Numbers: counters and indices are natural numbers without a bound, since the code keeps them
-- within the sizes of its arrays; a subtraction stops at 0 where the code tests before it. Where
-- the code has negative results, or takes a position that may be negative, the model has integers.
--
-- Not modelled: the copies of other projects (cJSON in 20170801, iniparser and dictionary in
-- auto_imi_db_bin, the ring buffer of 20180720ringbuffer, the Arduino libraries for strips,
-- timers, the matrix and Fourier transforms), the sketches of 20161122, which are those of their
-- library, the scripts in other languages, and `nvram_find_mtd` of auto_imi_db_bin, which nothing
-- calls.
pub mod Address
pub mod Base
pub mod Chat
pub mod Counter
pub mod Db
pub mod DevList
pub mod Memory
pub mod Mqueue
pub mod MqueueIpc
pub mod Music
pub mod Ntp
pub mod Queue
pub mod RingDemo
pub mod Sem
pub mod Sketches
pub mod Sqlite
pub mod Text
pub mod ThreadPool
pub mod Timer

-- ===== src/Lib.antt =====
-- OSC_Server: a TCP server that takes room temperatures from sensor nodes, keeps running averages
-- for each sensor, stores every measurement in a .csv file and logs its events. The program is
-- TCP_SensorMonitoringSystem/project; the names of files below are relative to it, unless they start
-- with plab_1-4_solutions, where the exercises stand from which the program grew.
--
-- The main thread starts a connection manager (connmgr.c), a storage manager (sensor_db.c) and a data
-- manager (datamgr.c). The connection manager has a thread for each sensor node, whose records enter
-- the shared buffer (sbuffer.c); the two other managers each read the buffer at their own place until
-- a record with id 0. All threads write messages to a pipe, which a child process copies to
-- gateway.log (sensor_db.c). The data manager keeps its rooms in a doubly linked list (lib/dplist.c).
--
-- The modules:
--   Base              numbers, lists, Boolean tests, C's int, texts as bytes
--   Memory            addresses, stores, and how a call ends: with a value, by undefined behaviour, by
--                     `exit`, blocked, or not within the fuel; Memory.Returns is total correctness
--   Config            config.h: sensor_data_t and connmgr_args_t; Config.Packed: the record as the 18
--                     bytes of a file or of a connection
--   Sbuffer           sbuffer.c, every function; Sbuffer.Readers runs its calls in any order
--   Dplist            lib/dplist.c: creation and reading; Dplist.Update: insertion, removal, freeing
--   Logger            sensor_db.c: write_to_log_process, the log_… functions (Logger.Messages), and
--                     the child's loop (Logger.Child)
--   Storage           sensor_db.c: open_db, insert_sensor, close_db
--   Datamgr           datamgr.c: data_manager_init and its parts, get_running_avg and the window
--                     (Datamgr.RunningAvg), list_element and the callbacks (Datamgr.Element)
--   Connmgr           connmgr.c: client_handler and signal_handler; Connmgr.Wire: client_handler over
--                     the bytes that arrive; Connmgr.Listen: connmgr_listen, the client threads and
--                     excess_client_handler as a step relation, with the waits and the signals of
--                     conn_cond
--   Tcpsock           lib/tcpsock.c: the calls of a server; Tcpsock.Client: those of a client and the
--                     fields of a socket
--   Main              main.c: the checks of the arguments and the order of the calls
--   SensorNode        sensor_node.c; SensorNode.Stream joins it to the thread that serves it
--   System            the two managers as readers of the buffer: System.Stored and System.Measured
--                     what they make of the records, System.Whole with the connection manager
--   FileCreator       file_creator.c and the reading of its two files
--   Plab1             plab_1-4_solutions/startcodeplab1: datamgr.c and main.c, over Dplist and Datamgr
--   Plab3             plab_1-4_solutions/startcode_plab3/startcode_plab3/test_server.c: the thread of a
--                     client; Plab3.Server: main and its threads as a step relation
--   Plab4             plab_1-4_solutions/startcodeplab4/startcodeplab4: sbuffer.c; Plab4.Threads: the
--                     writer, the readers and main of main.c as a step relation that calls the
--                     functions of the buffer, with the wait and the signal of cond_var;
--                     Plab4.OutputTest: output_test
--   Plab2             plab_1-4_solutions/startcodeplab2: Plab2.Gateway: logger.c, sensor_db.c and
--                     main.c of milestone2; Plab2.ReverseCase: ex2/main.c; Plab2.Exercise1: ex1
--
-- How code becomes definitions. A function of the source has a definition of the same name that is
-- a command on an explicit state: stores from addresses to structs, the globals, the bytes in
-- files, the messages handed to the logger. A read through NULL or through a freed address is a
-- fault; the address that `malloc` returns is an argument, NULL if it fails. Calls of other
-- libraries and of the system (sockets, files, pipe, clock, `printf` of a double, `sscanf` of a
-- float, random numbers, floating point) are arguments: a list of what the successive calls give,
-- or a function. Texts are bytes, messages are cut at 255 bytes as `snprintf` cuts them. Pointer
-- arithmetic, unsigned wrap-around and alignment do not occur.
--
-- Bounds and fuel. A loop over a linked list runs on fuel, and the theorems take any fuel larger than
-- the length of the list. A loop over inputs recurses on the list of inputs, and runs out of fuel
-- where the thread would wait for more. sequence_number is an int whose overflow is undefined; a sensor
-- id is printed as a decimal. A clock value, a double and a time_t are their bit patterns.
--
-- Not modelled: buffermain.c, which is the main.c of the fourth lab without its last part; lib/dplist.c
-- of the first lab, from which that of the project differs in one test for an empty list; the files
-- of the third lab that the project has as well (lib/tcpsock.c, sensor_node.c); DEBUG output. Calls
-- run as single steps: the data race of sbuffer_read, which takes no lock, and that of
-- sequence_number are outside the model.
pub mod Base
pub mod Memory
pub mod Config
pub mod Sbuffer
pub mod Dplist
pub mod Logger
pub mod Storage
pub mod Datamgr
pub mod Connmgr
pub mod Main
pub mod FileCreator
pub mod SensorNode
pub mod System
pub mod Plab1
pub mod Plab2
pub mod Plab3
pub mod Plab4
pub mod Tcpsock

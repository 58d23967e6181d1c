-- ===== src/Lib.antt =====
-- Models of a server that stands between devices in a network and a second server part on the same
-- machine.
--
-- A client (client.cpp) connects over TCP, proves who it is, and registers the services of its
-- devices: inputs, which measure, and outputs, which can be set. Its packets (packet.cpp) are
-- encrypted with a session key (sesskey.cpp). The server (Server.cpp) gives each service a number
-- from its table (ServiceTable.cpp). The second part asks for values and sets them by packets in
-- message queues (queuePacket.cpp, AddQueue.cpp, ReadQueue.cpp). The handler (ConHandler.cpp) knows
-- the clients of the configuration and the addresses that have proved who they are; it passes each
-- connection to the client's object, and every 25
-- seconds it walks over them, to disconnect those that are silent.
--
-- The files, each with its child modules:
--   * Base: shared names, tests on numbers, lists measured by native numbers, and `Outcome`, the
--     result of code that can run into undefined behaviour.
--   * Bytes: buffers as lists of bytes, `memcpy` with its bounds, fresh memory, numbers and floats in
--     little-endian order, and texts that end with a zero.
--   * Float32: the comparison of floats, on their bit patterns.
--   * Socket: `readTillDone` and `writeTillDone` of packet.cpp. A `Socket` lists the bytes to come and
--     how many of them the kernel is ready to move in each call, so that every split is covered.
--   * Sesskey: `encrypt` and `decrypt` of sesskey.cpp. The EVP functions are the parameter `Evp`;
--     `IsCbc` names what is relied on: padding to whole blocks, and decryption inverting encryption.
--   * Packet: packet.h and packet.cpp. A packet is its class and its buffer. Send has `send` of both
--     base classes, Factory `packetFactory`.
--   * QueuePacket: queuePacket.cpp in the same way. Queue has `addToQueue`, `packetFromQueue` and the
--     two queues.
--   * Service: Service.h and Service.cpp. Inputs and Outputs have the methods of the two classes.
--   * ServiceTable: ServiceTable.h and ServiceTable.cpp, over any type of addresses. Status has what
--     each operation promises about each number, History sequences of calls.
--   * Server: Server.h and Server.cpp, over a store of services. Receiving has `mqReceiveLoop`, one
--     round for each message, over a list of rounds of any length.
--   * Link: a connection as client.cpp sees it: `nextPacket` of Receiver.cpp, over the list of the
--     packets that will come, and the socket that packets are sent on.
--   * Receiver: Receiver.cpp over a socket, with its pointer to the session key. Scopes is about the
--     time before and after the scope of the key, which is a local variable of client.cpp, is left.
--   * Keys: RNG.cpp, pubkey.cpp and privkey.cpp. What OpenSSL does with a key is a parameter.
--     Files has the constructors.
--   * Client: client.cpp. The root has `getValues`, Setting `setValues` and `setExit`, Registering
--     `registerServices`, Sessions the verification of both sides, `initalize` and
--     `unregisterServices`. Describing, Turns, Looping, Concluding, Enlisting and Membership
--     lead up to Registration, step by step along `registerServices`. Kinds, Owning and Arriving say
--     what each operation leaves of what the addresses lead to.
--   * ClientMock: the client of ClientMock.h. Handshake has it answer the server.
--   * ConHandler: ConHandler.cpp, and the two methods of client.cpp that call it back,
--     `tryDataExchange` and `tryUnregister`. Walking is about `clockWalk`, Admission about `handle`,
--     Leaving about `unregisterClient`. Configuring has the constructor, over the words of the
--     configuration file, and the destructors. Keeping, Serving and Entering carry the invariant of
--     the handler through each operation.
--   * System: the server as a whole, as a step relation: connections, walks of the clock, requests
--     to exit and rounds of the message queue in any order. Starting is about the state that the
--     constructors leave, Safety about all states that come after it.
--   * Log: log.cpp, with a line as its level and its text.
--   * Main: main.cpp. Options has the options, Terminating the thread that waits for a signal; a `Wait`
--     says what the other threads do to the handler meanwhile. What `atoi` makes of a text is a
--     parameter. Startup has `initSocket`, `runMobileServer` and `main` up to its loop, and Ready what
--     holds there.
--   * Tests: the theorems at concrete inputs, and runs of the model.
-- A function, method or class keeps its name, in snake_case. All sources lie in the root of the
-- repository.
--
-- Bounds: numbers are natural numbers; a conversion to `unsigned char` and the arithmetic of
-- `encryptedLen` are written out. No function has fuel: the loops recur on the lists of what the
-- kernel, a client or the other threads do, which may have any length. `time_size` is the size of a
-- time on the platform, and what `new` returns is a parameter, since its content is indeterminate.
-- Each method that holds a mutex is one step.
--
-- Not modelled: what two threads do between the locks of one call of the handler; the masks of
-- signals and the joins of threads at the end of main.cpp; and the thread pool in CTPL, which is a
-- copy of another library. What the calls of the system return, on sockets, queues, files and
-- processes, is a parameter.
-- `delete` of memory that `new[]` gave is taken as harmless. `getService` takes no lock, and runs
-- of it beside other calls are not covered.
pub mod Base
pub mod Bytes
pub mod Float32
pub mod Socket
pub mod Sesskey
pub mod Packet
pub mod QueuePacket
pub mod Service
pub mod ServiceTable
pub mod Server
pub mod Link
pub mod Receiver
pub mod Keys
pub mod Client
pub mod ClientMock
pub mod ConHandler
pub mod System
pub mod Log
pub mod Main
pub mod Tests

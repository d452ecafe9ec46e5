-- ===== src/Lib.antt =====
-- mqttfs shows the topics of an MQTT broker as files. FUSE calls the operations of mqttfs_*.c on
-- one tree of nodes; a write puts a message on the queue of the client in mqtt.c, whose thread
-- sends what is due and hands each message that arrives to a callback, which updates the tree. Here
-- the parts are modelled one by one, from the bytes on the wire to the operations on the tree.
--
-- - Base: names of the library passed on, Boolean tests, lists and bit operations on the native
--   numbers.
-- - Str: str.c. Str.Compare is about the order, Str.Copy about copies and views, Str.Paths about
--   the cut of a path.
-- - Wire: mqtt_impl.c. A socket is what was sent and what has not been read. Wire.Length is about
--   EncodeLength.
-- - Parser: mqtt_parser.c. A longjmp is a result, a read past the buffer is none. Its modules are
--   about growing buffers (Growth), progress (Progress), the packets of Wire (RoundTrip, Delivery)
--   and the bounds of what is given out (Bounds).
-- - Stream: the receive buffer of IoThread in mqtt.c. Stream.Loop is about its end, Stream.Chunks
--   about streams that are cut into reads.
-- - Queue: MqttPublish, MqttCancel and WakeIoThread of mqtt.c, on the array of messages.
--   Queue.Publish and Queue.Cancel are about one of them each. Queue.Drain is DrainMessages:
--   Queue.Drain.Sent is about its sending loop, Queue.Drain.Whole about queues that are due as a
--   whole or not at all, Queue.Drain.Torn about its memmove.
-- - Node: node.c and node.h.
-- - Store: struct Context of mqttfs.h with the nodes behind its pointers. Addresses are numbers, a
--   freed address holds nothing, and using one is none. Elements of the tree have numbers of their
--   own, as callers keep pointers to them. Store.Search reads the tree as a map from paths,
--   Store.Edit, Store.Frame, Store.Memory, Store.Insert, Store.Behind and Store.Replace are about
--   changes of the tree, of the memory, and of a node; Store.Linked, Store.Swap and Store.Exchange
--   about two entries that change places.
-- - Fs.Make: mqttfs_mkdir.c and mqttfs_create.c. Fs.Open: mqttfs_open.c, mqttfs_opendir.c and
--   mqttfs_getattr.c. Fs.Data: mqttfs_read.c, mqttfs_write.c, mqttfs_utimens.c and mqttfs_poll.c.
--   Fs.Remove: mqttfs_unlink.c and mqttfs_readdir.c.
-- - Fs.Rename: mqttfs_rename.c. Fs.Rename.Announce is about what it does to the queue,
--   Fs.Rename.Move and Fs.Rename.Laws about RenameNoreplace, Fs.Rename.Swap and Fs.Rename.Exchange
--   about RenameExchange, Fs.Rename.Replace about RenameNormal.
-- - Client: MqttCreate and MqttDestroy of mqtt.c. What a client holds of the system's is a list,
--   the memory of its queue is another, and a release of what is not held is none.
-- - Io: the loop of IoThread in mqtt.c, by rounds. Io.Incoming and Io.Consume are about what a
--   round does to the bytes from the broker, Io.Rounds about many rounds, Io.Delay about the time
--   that poll is given.
-- - Program: main.c. Program.Options is ParseOptions, Program.Root is CreateRootNode and the
--   cleaning up of the tree at the end of main, Program.Main is MqttfsInit and main,
--   Program.Message is OnMqttMessage: Program.Message.Loop and Program.Message.Chain are about its
--   loop over the parents, Program.Message.Keeping about what it leaves of the tree,
--   Program.Message.Outcome and Program.Message.Crash about its results.
-- - System: the operations of mqttfs_*.c and OnMqttMessage as steps on one state, in any order,
--   against a map from paths to kinds and contents. A run keeps each answer with the state behind
--   it. System.Allowed says what each needs of its surroundings; System.Steps, System.Renames,
--   System.Contents, System.Written and System.Messages are about one step each, System.Clients
--   about the client, System.Runs about many steps.
-- - Tests: runs on concrete inputs.
--
-- What the system answers (clock, locks, memory, system calls) is an argument of each operation, so
-- every failure is a case of it. Operations hold the root mutex from their first use of the tree to
-- their return, so each one is one step on the context; unlocking is not modelled.
--
-- The memmove of DrainMessages counts bytes, so an element of the array can be overwritten in part;
-- what it is then depends on the machine and is a parameter (Torn). An element tells whether its
-- memory is freed; two elements that a memmove of forty bytes or more leaves with the same memory
-- are not told apart.
--
-- Bounds and fuel. A byte is a number below 256. The loop of EncodeLength has the four places of
-- its array, and a write past them would be none. ReadRemainingLength has its four rounds. The loop
-- over the parents of a topic, and that which undoes them, have one round more than the topic has
-- bytes, and each cuts off a byte at least. The loop over the receive buffer has one round more
-- than the buffer has bytes, and each round but the last takes a byte at least.
--
-- What MqttPublish, MqttCancel and the thread allocate and free is not followed one by one: at the
-- end of a session the memory of the queue is taken to be that of the messages and the array that
-- it then has, and MqttDestroy must free exactly that.
--
-- Not modelled: MqttfsChmod of main.c, which does nothing and answers 0; log.h and StrFree, which
-- only print or release. What fuse_main asks for is an argument of main, and what the thread of the
-- client does to the queue meanwhile is no step of a session. inet_addr is a parameter, and so is
-- what tdelete does to the places of the elements that stay, of which no document speaks. The tree
-- of search.h, the string functions and the memory are the C library's and follow its documents.
-- twalk passes every element once, and the order in which it does is that of the list of the tree.
pub mod Base
pub mod Str
pub mod Wire
pub mod Parser
pub mod Stream
pub mod Queue
pub mod Client
pub mod Io
pub mod Node
pub mod Store
pub mod Fs
pub mod Program
pub mod System
mod Tests

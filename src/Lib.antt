-- ===== src/Lib.antt =====
-- iemnet: networking objects for Pure Data. The objects turn lists of numbers into chunks of bytes,
-- send them over sockets in threads of their own, and turn what they receive into lists again.
--
-- How the parts interact, and where they are:
-- - Chunk (iemnet_data.c, iemnet_data.h): chunks of bytes with an address, and float lists, the
--   buffers in which received bytes are output. `Chunk/Loops` has the loops as list functions,
--   `Chunk/Laws` the theorems on chunks, and `Chunk/FloatLists` those on float lists and on the way
--   from a list to a list.
-- - Queue (iemnet_data.c): the queue between the main thread and the thread of a sender, a linked
--   list in a heap. `Queue/Shape` and `Queue/Fifo` relate it to a list of chunks. `Queue/Threads`
--   has the critical sections of `queue_push`, `queue_pop_block` and `queue_finish` as steps of a
--   system of two threads, with `Queue/Threads/Order` and `Queue/Threads/Finish` on all its runs.
-- - Sender (iemnet_sender.c): the sender of a socket, on the list that its queue holds; the loop of
--   its thread is `sendthread`, and `Sender/Connect` is `iemnet__connect`. `Sender/Threads` has the
--   thread against `iemnet__sender_send` and `iemnet__sender_destroy` as a system of two threads on
--   top of `Queue/Threads`, with `Order`, `Destroy` and `Progress` on its runs.
-- - Output, Register (iemnet.c): the messages to the outlets, and the names of the objects.
--   `Output/Reports` has the messages written out.
-- - Hostname, Os: dotted addresses, the operating system's answers, and what an object does
--   outside.
-- - TcpServer (tcpserver.c): the object `tcpserver`. `TcpServer/Table` makes, finds and removes
--   connections, `TcpServer/Send` sends, `TcpServer/Info` reports, and `TcpServer/Control` accepts,
--   receives, listens, and makes and frees the object. A C function `tcpserver_x` is `x` there, but
--   `tcpserver_disconnect`, which is `disconnect_index`. `TcpServer/Live` has the invariant of the
--   table, `TcpServer/Gap` the lemmas on its moves, `TcpServer/Insert` those on a new connection,
--   `TcpServer/Reports` what is reported and given back, written out, and the other modules what each
--   operation does to the table.
-- - Receiver (iemnet_receiver.c): the poll function of a socket, which calls back with a chunk or
--   NULL; `TcpServer/Poll` puts it together with the callback of a connection.
-- - UdpServer (udpserver.c): the object `udpserver`. `UdpServer/Table` adds, finds, removes and
--   expires clients, `UdpServer/Send` disconnects and sends, `UdpServer/Info` reports, and
--   `UdpServer/Control` receives, binds, and makes and frees the object. `udpserver_disconnect` is
--   `disconnect_index`, `udpserver_accept` is `set_accept` and `udpserver_timeout` is
--   `set_timeout`. `UdpServer/Live` has the invariant of the table, the other modules what is done
--   to it, and `UdpServer/Deliver` and `UdpServer/Broadcast` what reaches the clients.
-- - Link: what the other objects do with a socket, its sender and its receiver. Resource: what
--   these are worth in a list of effects, that is what an object holds, and when it has given all
--   back.
-- - TcpReceive (tcpreceive.c): the object `tcpreceive`, an array of slots that are free or taken.
--   `TcpReceive/Slots` counts them, `TcpReceive/Connect`, `TcpReceive/Disconnect` and
--   `TcpReceive/DisconnectAll` fill and free them, `TcpReceive/Poll` receives, and
--   `TcpReceive/Runs` is about an object's whole life.
-- - TcpClient, UdpClient (tcpclient.c, udpclient.c): the objects of one connection that send and
--   receive. TcpSend, UdpSend (tcpsend.c, udpsend.c): those that only send. UdpReceive
--   (udpreceive.c): the one that only receives on a port. In each, `Runs` has the messages an
--   object can get as steps, with `Reach` for the objects that a history of them leaves and what
--   they did. A C function `tcpclient_x` is `x` there, but `tcpreceive_port` is `set_port` and
--   `udpreceive_optionI` is `option_i`; `x_serialize` is `set_serialize`, `x_timeout` is
--   `set_timeout`.
-- - Setup (iemnet_setup.c and the `x_setup` of each object): the classes of the objects and their
--   messages, `Setup/Laws` the theorems.
-- - Prelude: the names and lemmas that all share. Tests: runs at concrete inputs.
--
-- Conventions. Numbers are native; an `int` or `unsigned int` that can wrap has its `% 2 ^ 32`
-- written out. Undefined behaviour of C (NULL dereference, access out of an array, use after free)
-- is `none` where a function returns an Option of its state. A loop over an index is recursion on
-- the rounds that are left, or, where the body changes the bound, on fuel: `all_loop` of
-- tcpserver.c gets one round more than there are connections, and `drain_loop` one more than there
-- are chunks, which the theorems show to be enough; the loops of `UdpServer/Send` get one round
-- more than there are clients, and no round of them adds a client. What `malloc`, `accept`, `bind`,
-- `getsockname` and the like answer is a parameter. A float that Pd passes is an integer, as far as
-- the objects use it as one.
--
-- Not modelled: console output and debugging (`iemnet_log`, `DEBUG`), the socket options
-- (`setsockopt` and the bind of `udpclient_do_connect` to a port to send from), and freeing of
-- chunks and float lists. In the objects the queue of a sender only grows: its thread is modelled
-- in Sender and `Sender/Threads`, and joined when the sender is destroyed.
pub mod Prelude
pub mod Output
pub mod Register
pub mod Chunk
pub mod Queue
pub mod Sender
pub mod Receiver
pub mod Hostname
pub mod Os
pub mod Link
pub mod Resource
pub mod TcpServer
pub mod UdpServer
pub mod TcpReceive
pub mod TcpClient
pub mod UdpClient
pub mod UdpReceive
pub mod TcpSend
pub mod UdpSend
pub mod Setup
pub mod Tests

-- ===== src/Lib.antt =====
-- A video meeting: a desktop client (client), a server that relays between the members of a room
-- (server), and a server for the login (server2). Modelled are the two servers, and of the client its
-- side of the network and what its windows do with it.
--
-- The relay server. A connection (server/include/network/connection.h) reads bytes into a buffer
-- (buffer.h) from which the meeting service (service/meeting_service.h) decodes packets
-- (protocol/codec.h). A packet of a connection without a room creates or joins one through the room
-- manager (meeting/room_manager.h); one of a member goes to its room (meeting/room.h), which sends it
-- to the other members. Closing a connection tells the service, which takes it out of its room; the
-- room of an owner that leaves is closed with all its connections.
-- - Server/Buffer.antt: server/src/network/buffer.cpp, one function per method.
-- - Server/Protocol.antt, Protocol/MessageType.antt and Protocol/Codec.antt: server/src/protocol.
-- - Server/Connection.antt: server/src/network/connection.cpp. An asynchronous operation is split
--   into the call that starts it and its completion, which is a call with what the socket delivers.
-- - Server/Room.antt and Server/RoomManager.antt: server/src/meeting.
-- - Server/Service.antt and Service/Handlers.antt: server/src/service/meeting_service.cpp, with the
--   operations of rooms and connections that call back into it, on one state for the whole server.
--
-- The client. Messages (client/include/network/messageNet/message.h) are queued by priority, encoded
-- and decoded (client/src/network/messageNet/messagecodec.cpp).
-- - Client/Message.antt and Client/Kinds.antt: the messages and their types on the wire.
-- - Client/Queues.antt: client/src/network/messageNet/message.cpp.
-- - Client/Codec.antt: client/src/network/messageNet/messagecodec.cpp, over a record of what it takes
--   from Qt and from `std::stoul`.
-- - Client/Hub.antt: client/src/network/messageNet/messagehub.cpp, with the send loop in steps in
--   Hub/Worker.antt, between which other threads run.
-- - Client/Link.antt: connection.cpp and networkmanager.cpp in the same folder, over what a socket
--   reads and what its writes return.
-- - Client/Meeting.antt: the state of the meeting window (client/include/widget/meeting) and what its
--   slots do to others, as effects in order. Meeting/Partners, Meeting/Session, Meeting/Messages and
--   Meeting/Chat have the slots of client/src/widget/meeting/meeting_widget.cpp, and Meeting/Events
--   the slots as events of one loop.
-- - Client/System.antt: the window, client/src/widget/meeting/meeting_controller.cpp and the network
--   together, with the events that wait. What other threads do meanwhile (which locks are got, what a
--   superseded worker for sending puts back) is an argument. The worker's own steps are in
--   Hub/Worker.antt, and what the connection reads is in Client/Link.antt.
--   Client/MainWindow.antt: client/src/widget/main_window.cpp.
-- - Client/Camera.antt: client/src/message/video/cameravideo.cpp, what the labels of the members and of
--   the main screen show, and with the window in Camera/Session.antt.
-- - Client/Audio.antt: client/src/message/audio/AudioFormatStd.cpp, the change of channels, and in
--   Audio/Devices.antt the blocks of sound of audiocommon.cpp, AudioInput.cpp and AudioOutput.cpp.
-- - Client/TextEdit.antt: client/src/message/text/mytextedit.cpp. Client/Address.antt: the check of an
--   address in client/src/network/messageNet/connection.cpp.
-- - Client/Login.antt: client/src/widget/login.cpp and client/src/configure/user_session.cpp, with the
--   login server in Login/Accepting.antt.
-- - Client/Frameless.antt and Frameless/Window.antt: client/include/widget/frameless_window.h, over the
--   operations of a widget of Qt, whose handler of a double click calls `mousePressEvent`.
--
-- The login server (server2), in Auth: an HTTP session (Auth/Http.antt) reads a request, asks the login
-- (Auth/Login.antt) with a repository (Auth/Repository.antt) over the database (Auth/Driver.antt) and
-- the hash of passwords (Auth/Hash.antt), and answers. The database's driver, JSON, HTTP and SHA-256
-- are parameters.
--
-- Relay.antt follows a text from one client over the server to another, and its child modules the
-- server's answers to the client. Prelude.antt has what all parts share: Boolean tests, lists, words in
-- network order, integers, maps, texts. Tests.antt has concrete runs.
--
-- Numbers are natural numbers, with `% 2 ^ w` where the source's type wraps or a cast cuts. A byte is
-- a number; where a theorem needs it to be below 256, it says so. Pointers to connections and rooms
-- are ids, and the state that they share is passed on. A map is a list of entries in the order of
-- insertion; the order in which the source visits a hash map is not specified.
--
-- Bounds: closing a connection can close others, so Service.antt bounds the depth of these calls by
-- one more than the number of connections. The loop of the client's parser is bounded by the number
-- of bytes, and the read loop of the service by one more than the number of unread bytes. The steps of
-- the thread that sends and the events of the client's parts are counted by an argument; the loop
-- that writes a frame runs over what the socket's writes return.
--
-- Not modelled: sockets, the start and end of threads, waiting on a condition variable, logging,
-- layout and drawing, the rows of the chat and the tiles of members, the devices for audio and video
-- themselves, and the accept loop and the start of the login server.
pub mod Prelude
pub mod Server
pub mod Client
pub mod Relay
pub mod Tests
pub mod Auth

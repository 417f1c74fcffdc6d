-- ===== src/Lib.antt =====
-- Verification of the FIX 4.2 exchange: the server's order book, markets and sessions, the conversions of
-- FIX values, and the client's programs with the messages between them.
--
-- The program. The server reads FIX messages from its clients, checks their headers, and routes them: session
-- messages to the session units, new orders and cancel requests to the market of their symbol. A
-- market has one order book, a unit for new orders and one for cancel requests, each with a
-- worker thread, and a queue of tickets that fixes the order in which the workers enter the book. What the
-- book does to resting orders leaves as events, and what the units answer leaves through the
-- TCP output. Of the client's programs the initiator starts a back end for each front end and gives both a token; the back
-- end lets a front end with the token in, makes FIX messages of its messages, and tells it of the server's reports.
--
-- The files.
--   Base       shared names, texts as lists of character codes, lists and Boolean tests.
--   Core       shared/Core: the enumerations with their values (Enum), the order (Order), and the interface
--              of float (Float), which prices and quantities are.
--   Message    shared/Message-v2: the conversions of FixConvertor.cpp (Convert and its children, from_fix for
--              from_FIX and to_fix for to_FIX), and the messages of Message.hpp as records (Types).
--   OrderBook  server/src/OrderBook.cpp and server/include/Server/OrderBook.inl: the types (OrderBook), the
--              tick (Tick: computeTick, allowTick), the maps (Store: addToBook, cancelOrder,
--              removeFromIdMap), the matching (Match: fillOrder, fillOnBook), and the public members (Api:
--              has, getOrder, add, cancel). Match/* relate the matching to its runs and to a queue of
--              orders; Index and Index/* are about the id maps.
--   Session    server/src/InternalClient.cpp (Client), server/src/ProcessUnit/HeaderValidation.cpp (HeaderValidation)
--              and Router.cpp (Router): what of a client's messages reaches the units (Gate); the checksum of
--              TCPOutput.cpp and TCPInput.cpp (Checksum); the header and the fields of a message (Input:
--              buildHeader).
--   Units      server/src/ProcessUnit/User (Logon, HeartBeat), server/src/ClientStore.cpp (Store), and
--              server/src/ProcessUnit/Network/TCPOutput.cpp (Output): one client's session under the units
--              (Invariant).
--   Thread     shared/Thread: QueueMutex, the queue of tickets.
--   Market     server/src/ProcessUnit/Market and MarketContainer.cpp: one market with its queues (Market), the
--              units (NewOrder, Cancel: onInput as new_order_on_input and cancel_on_input, one round of
--              orderProcessing as new_order_work and cancel_work), the steps of the whole (Step), and what
--              every run keeps (Release to Fairness), its tickets (Tickets), what blocks a worker (Stuck), and the reports of book
--              events (Report: OBEvent.cpp); MarketRouter.cpp (Router: onInput as market_on_input) with all its
--              markets (Router/Delivery, Router/Addressed, Router/System).
--   Network    shared/Network: the buffer (Buffer, Reading), and what a stream receives (Socket).
--   Ipc        client/shared/IPC: the messages (Types), their operators (Wire), the helpers that frame them
--              (Helper, Framing), what is read back (Exchange), and the loop that receives (Transport).
--   Back       client/back: User.cpp (Back), the process units under their names (HeaderValidation, Router as
--              Routing, TcpInput and TcpOutput as Network, Auth with HeartBeat, Execution, FixBuilder), FrontManager.cpp
--              and InitiatorManager.cpp (Front); what passes through them (Delivery), and the numbers of
--              the messages between a back end and the server (Dialogue).
--   Initiator  client/initiator: Session.cpp (Session), SessionManager.cpp (Manager), the handlers of
--              the process units (Handlers), and how a back end joins (Joining), and
--              whom its token lets in (Token).
--
-- How the state is modelled. An object is a record, a member function a function from the object to the object.
-- An iterator into a list of orders is the address of its node, drawn from a counter; a map from prices
-- is the list of its pairs in the map's order, an unordered map the list of its pairs. A call that may
-- throw, or do what C++ leaves undefined, returns an Outcome. Where the code reads an object after its memory was
-- freed (the entry in cancel, the id in fillOnBook), the model reads what a parameter, Freed, gives for it: any value, or for an
-- entry no value. What is proved of the matching holds for every such parameter; what is proved of the id
-- maps says where it needs that freed memory still reads as it was (Unchanged). A lock that does not open is `none`: the thread goes on
-- waiting, and the step does not happen.
--
-- Floats are a type F with the operations of the interface Float. What a theorem needs of them is a hypothesis of its own: a
-- quantity less itself is zero (SubSelf), comparison is that of a line (IsLinear), whole
-- numbers up to 2 ^ 24 are exact (IsExact). The tests run over whole numbers.
--
-- Loops are recursions on the lists they walk. The loop that writes the digits of a number runs on fuel, one
-- more than the number, and the theorems on round trips show that it is enough.
--
-- Threads. The steps of a market are whole calls: a check, a worker's round from the lock to its release, the
-- router's ticket with the append that follows it. Every interleaving of these is a run. A round of the watch over silent clients has two writes
-- with no lock between them: the model has both (open_test, fill_test). Inner
-- mutexes and log lines are left out.
--
-- The messages between a back end and the server, and those of the client's programs, are steps in sequence: a call of the
-- system is an argument, with what it answers. What the parser of FIX-Message gives, times, generated identifiers and the rows of
-- the database are arguments as well. A variable that C++ leaves unset is an argument: the theorems hold for every
-- value.
--
-- Numbers of messages wrap around at 2^32 in the server and at 2^64 in the client; the theorem on their talk is stated for
-- numbers below 2^32 - 1, where the two agree.
--
-- Not modelled: the loops over sockets, the starting of threads and processes, configuration,
-- logs, the database and the graphical and shell front ends, which are input and output; and the library
-- FIX-Message, a git submodule, which parses and prints whole messages.
pub mod Base
pub mod Core
pub mod Message
pub mod OrderBook
pub mod Thread
pub mod Market
pub mod Session
pub mod Network
pub mod Ipc
pub mod Units
pub mod Back
pub mod Initiator

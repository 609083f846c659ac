-- ===== src/Lib.antt =====
-- The client that reports a machine to its manager: its packets, its traffic, its commands and
-- the thread that sends them.
--
-- The program is a daemon. `alive_process_thread` (main_alive.cpp) sends a heartbeat until one is
-- answered, and an alive report each second; a refresh and a report on the metadata follow at
-- longer intervals. Each report is a command: it connects in up to a hundred tries, writes its
-- fields to a CPacket (Packet.cpp), sends it as one frame, and reads the reply from another
-- CPacket. The metadata report asks two web servers first, by RestClient (RestClient.cpp).
--
--   Common     Boolean tests, lists, integers with their patterns of 8 to 64 bits, texts.
--   Bytes      Integers in memory and in network order: memcpy, htons, htonl and their inverses.
--   Trace      What others can see besides the traffic: the lines of WriteLog and WriteErrorLog
--              (MiscUtil.cpp), and the sockets opened and closed; Logs is about runs that only log.
--   Outcome    A value, or a fault that no caller handles: an access out of bounds, the read of an
--              uninitialised byte or pointer, the use of a null pointer, a failed allocation, a lock
--              of a mutex that was never made.
--   Os         The system calls as parameters, and what POSIX documents of read and write; the
--              descriptors that an fd_set has a place for, which are the first 1024.
--   Mutex      The pthread mutexes, as the one thread sees them that uses them.
--   Packet     CPacket: State has its fields and the monad of its methods; Buffer CheckDataExists
--              and CheckDataBuffer; Reads the constructor, InitPacket and the Read methods; Writes
--              the Write methods. Build, Room, Appends and Strings are about a packet under
--              construction, Reading, Texts, RoundTrip, Safe and Typed about one that is read; Memory has the
--              lemmas on arrays, and Quiet is about methods that only log.
--   Wire       ReceivePacket, ReceivePacket_Select and SendPacket. Receive, Accept and Deliver are about
--              ReceivePacket, Select about ReceivePacket_Select, Filled and Body about what they share,
--              Send, Frame and Taken about SendPacket; Quiet is about the lines that all three log.
--   Connect    ConnectToServer, CloseToServer and the loop of tries of main_alive.cpp; Balance,
--              Count and Even are about the descriptors that they open and close, Reached about
--              tries that fail before one succeeds.
--   RestClient get, post, put, del and the two callbacks over libcurl; Upload is about
--              read_callback.
--   Commands   command_heartbeat_report, command_alive_report, command_metadata_report and
--              command_refresh_info, and what they share; Tries is about the end of the tries,
--              Fields about what a report writes, Reply, Answer and Exchange about its traffic, and
--              Connected, Reports, Heartbeat, Metadata and Refresh about the commands as wholes; Served
--              is about a manager that answers.
--   Message    Messages as lists of fields, which no code names but all of it sends: Written and
--              Back are about the two ends, Channel about the way from one to the other.
--   PerfInfo   CPerfInfo, which reports to a monitor over a connection that it keeps; Refused is
--              about a monitor that cannot be reached, Monitored about the connection, Report and Kept
--              about report_perf_thread (main_report.cpp), Locked about the mutexes.
--   MiscUtil   InitLog and ClearOldLog, which delete old log files; Sweep is about their loop. Log
--              has the lines of WriteLog and WriteErrorLog, and OneLine is about them.
--   Alive      alive_process_thread; Rounds is about its counters, Answered about the rounds behind
--              a heartbeat that was answered, Thread about the thread with its own reports.
--   Json       JsonCpp as a parameter, and what its header documents.
--   JsonParser CJsonParser (JsonParser.cpp) over it; Values and Pairs are about what is read back.
--   Main       main (main.cpp) and clean_thread (main_clean.cpp): the configuration here, the facts
--              about the machine in Setup, the threads in Threads. Lines and Ends are about the
--              configuration, Texts and Found about the metadata, Started about the threads,
--              Launched about main as a whole.
--
-- A method of CPacket is a function of a session: the packet, the network and the trace. Where it
-- returns an integer by reference, the model returns an option, which is `none` for FALSE. An
-- array of bytes is a list of cells, and a cell that was never written is `none`. A command is a
-- function of a world: the network and the trace.
--
-- The machine has 64-bit pointers, puts the lowest byte first, and wraps an int that overflows.
-- The pointer of a packet is never negative. Allocation fails for a negative size alone. The
-- destructor of CPacket only frees its array and is left out, as is the sleep between rounds.
--
-- Loops run on fuel. `grow` has 34 rounds: a length doubles in each, and no int is over 2 ^ 31.
-- The loops that receive and send have a round for each byte and one more, since each round moves
-- at least one byte; so does the loop over the configuration, which takes a character at least. The
-- digits of a number have a round for each unit and one more, since each divides it by ten. The
-- loop of tries has its hundred rounds, and the threads, which never end, are modelled by their
-- first rounds, for any number of them.
--
-- Not modelled: libcurl, JsonCpp and the system calls, which are parameters. bak, test and tests
-- hold old copies and test programs, and inc the headers of other projects.
pub mod Common
pub mod Bytes
pub mod Trace
pub mod Outcome
pub mod Packet
pub mod Os
pub mod Mutex
pub mod Wire
pub mod Connect
pub mod RestClient
pub mod Commands
pub mod PerfInfo
pub mod MiscUtil
pub mod Json
pub mod JsonParser
pub mod Alive
pub mod Main
pub mod Message
pub mod Tests

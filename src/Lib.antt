-- ===== src/Lib.antt =====
-- Models of the core of SIPp, the traffic generator for SIP, and theorems on them.
--
-- A task of the scheduler (a call, a listener, a periodic report) runs or is paused in a timing
-- wheel; a call that runs reads a message by the SIP parser, fills the next one from the fields of
-- injection files and from the variables of its scenario, and pauses. Each of these parts is a
-- module; its state is a record with the fields of the class, its operations are functions that
-- take and return it, named as in the code.
--
--   Task       src/task.cpp, include/task.hpp: the run queue and `timewheel`. `running_tasks` is
--              split at the iterator `first_new`; the lists of the wheels are one function on the
--              slots. Task.Slots has the places of the tasks, Task.Invariant what the lists keep,
--              Task.Move the moves between wheels, Task.Fire the tasks that leave them, Task.Rounds
--              the rounds of the loop of `expire_paused_tasks` and Task.Expire the whole of it.
--              Task.Held is the invariant of all the globals, Task.Operations what each operation
--              does to it, Task.Reachable the runs of the scheduler as sequences of steps.
--   Call       src/call.cpp, include/call.hpp: the steps of a call and its timers. Call has `wake`, the
--              retransmissions and the waits, Call.Run `next` and `run` up to the message that
--              `executeMessage` then sends or waits for, which is the result. Call.Wake is about the
--              timers, Call.Retrans about the retransmissions, Call.Within and Call.Steps about the
--              messages a call is at. Call.Match has `matches_scenario` and the searches of `process_incoming`, which
--              Call.Search is about; `regexec` is a parameter.
--   SipParser  src/sip_parser.cpp: searches in a message (`internal_find_header`, `get_call_id`,
--              `get_peer_tag`, `get_cseq_value`, `get_reply_code`); SipParser.Number has
--              `header_number`, SipParser.Header the names and values of headers, SipParser.Join
--              `get_header`, which joins headers or returns the only one in place. SipParser.Find and
--              SipParser.Message are about searches in messages written from their parts,
--              SipParser.Param about parameters, SipParser.Reply about the code of a response,
--              SipParser.Join.InPlace about the two ways of `get_header`.
--   SocketOwner src/socketowner.cpp: the owners of each socket, as the maps of `socket_to_owners`.
--   InFile     src/infile.cpp: `FileContents`, its lines, fields and index; InFile.Load has the
--              constructor and InFile.Loaded what it gives, InFile.Printf the fields of PRINTF files
--              and InFile.Index what `index`, `insert` and `replace` keep.
--   WebSocket  src/websocket.cpp, include/websocket.hpp: SIP over WebSocket. WebSocket.State has the
--              object with `feed`, `frame` and `fail`, WebSocket.Frame `encode`, WebSocket.Utf8 `is_utf8`,
--              WebSocket.Base64 `base64`, WebSocket.Http the texts of the handshake, WebSocket.Handshake
--              `handshake` and WebSocket.Next `next`. WebSocket.Parsed, WebSocket.Delivered and
--              WebSocket.Partial are about frames that are read back, WebSocket.Bounds and WebSocket.Ends
--              about all bytes, and WebSocket.Lines, WebSocket.Opening, WebSocket.Agreed and
--              WebSocket.BothOpen about the handshake of two ends.
--   Listener   src/listener.cpp, include/listener.hpp: the open addressing table of the listeners of keys.
--              Listener.Object has the class `listener`; Listener.Sound says what a part keeps,
--              Listener.Probe what `probe` finds, Listener.Insert, Listener.Grow and Listener.Listen are
--              about a slot that is filled, Listener.Moved, Listener.Free, Listener.Freed and Listener.Unlisten
--              about one that is freed, Listener.Find about `find_slot`. Listener.Refined has the map that the table
--              shows and Listener.Safe the life of one listener. The loops of `probe` and `free_slot` have
--              as many rounds as the part has slots, which a free slot makes enough.
--   Variables  src/variables.cpp: Variables.Value has `CCallVariable`, Variables.Alloc
--              `AllocVariableTable`, Variables.Table `VariableTable` with its reference counts,
--              Variables.Table.References what `putTable` gives back, and Variables.Table.GetVar
--              the two kinds of tables together.
--   UrlCoder   src/urlcoder.cpp.
--   Strings    src/strings.cpp.
--   Tests      runs on concrete inputs and instances of the theorems.
--
-- A C string is the list of its bytes before the NUL, a pointer into it what is left of the list,
-- a null pointer `none`. Numbers are natural where the code's are unsigned or not negative, and
-- integers with `LONG_MAX` and the like written out where it reads them from text; 32 bits of a
-- wake time are a hypothesis. An `ERROR`, which ends the program, and a failed `assert` are values
-- of a fault type or `none`. Warnings are left out.
--
-- Loops that are not over a list take fuel: the loop of `expire_paused_tasks` the number of ms from
-- the wheel's base to the clock, which does not move while it runs; the loop of
-- `internal_join_headers` and that of `internal_find_param` the length of the message, of which each
-- round reads at least one byte; `WebSocket::next` the number of bytes not parsed yet, of which a
-- frame has two at least; `put_table` and `get_var` the number of tables above one.
--
-- Parameters: a task's `wake`, which other classes define; the type `double` with `strtod`; `strtoul`
-- with base 0; what `rand` and `RAND_bytes` return; SHA-1; `std::hash`. A call takes what other parts
-- tell it as arguments: the clock, whether `send_raw` succeeds, the end of the playback and the
-- variables that are set. Not modelled: what a call sends and its actions, sockets, screens,
-- statistics, RTP, TLS and the parser of scenarios, which are input and output or not done yet, and
-- the functions that only print (`dump`).
pub mod Base
pub mod Call
pub mod InFile
pub mod Listener
pub mod SipParser
pub mod SocketOwner
pub mod Strings
pub mod Task
pub mod Tests
pub mod UrlCoder
pub mod Variables
pub mod WebSocket

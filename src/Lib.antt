-- ===== src/Lib.antt =====
-- droidmole: the agent that runs an Android emulator and serves it over gRPC, and its client.
--
-- The agent keeps one emulator. It reaches the device by the adb server, over one connection for each
-- command, and serves the device's files, log and display. A client calls the agent; the state of the
-- emulator and its frames go to every client that listens. The parts, and the files that model them:
--
--   Net        the TCP connection under adb (package net), as a state: the bytes that arrive, how the
--              stream ends, what each write does, and whether it is closed
--   Grpc       a gRPC stream, seen from one end: what arrives, and what becomes of each message sent
--   Go         errors, panics, the early return and defer, as actions on a state: a result (ok, err or
--              panic) and the state that is left, on every way out
--   Adb.Raw    agent/server/adb/raw.go: `write_raw` is WriteRaw, and so on; Raw.Hex is fmt's %04x and
--              strconv.ParseInt in base 16
--   Adb.Dial   the dialled connection that a method of the adb client acts on, and leaves
--   Adb.Client agent/server/adb/client.go, with util.SplitLines and strings.Fields in Adb.Text
--   Adb.Sync   agent/server/adb/sync.go: the four methods and the two streams; the packets' layout is
--              in Sync.Packets
--   Files      agent/server/sync/sync.go: the file requests, between an adb stream and a client
--   Shell      agent/server/shell/shell.go: a turn is a step of one of the two goroutines or of the loop
--   Client     agent/client: Client.Files is sync/sync.go, Client.Shell is shell/shell.go, and
--              Client.Agent the calls and streams of the other files
--   Broadcaster  agent/util/broadcaster/broadcast.go; Schedule runs one broadcaster and any number of
--              listeners in any order of their steps
--   Server     agent/server/server.go and controller.go: the state, the callbacks of the emulator and
--              the guards of the requests; Server.Run takes them in any order
--   Emulator   agent/server/emulator: the scan of the log, the exit and stops of emulator.go,
--              with Emulator.Life for its goroutines, Emulator.Config for config.go and the start, and
--              Emulator.Controller for controller/controller.go, the frames and the touches
--   SysLog     agent/server/syslog/syslog.go, and StreamSysLog of agent/server/controller.go
--   Display    agent/server/display.go (Display.Processor), and RgbToYuv (Display.Yuv) and vpx_img_read
--              (Display.Image) of agent/util/vpx/vpx.go
--   Demo       demo/backend: client/client.go is a browser, and Demo.Server is server/server.go
--   Builder    builder: Ramdisk is cmd/patchramdisk.go, Download is repository/download.go, and
--              Selection is repository/format.go and repository.go and the three commands of
--              cmd/download
--
-- State and operations. A method that mutates its receiver is an action on a record of the receiver's
-- fields, with every early return and deferred call of the source. What is outside the repository is a
-- field or an argument: the connection and the stream have scripts of what their calls return, the
-- emulator and the codec answer by arguments, and the text of an error is a function on errors. A byte
-- is a number; a word has its wrap written out, as in `put_u32`, `u32` and the generation of the
-- broadcaster. Pointers that are shared (the listeners of the log, the codec's memory) are numbers
-- into a store that is part of the state.
--
-- Messages. What a stream carries arrives as it was sent. Where package proto makes a difference that
-- a client sees, the wire is an argument with what it does as a hypothesis: no data arrive as nil
-- (`IsPullWire` of Protocol), and a name in a listing has to be UTF-8 (`IsListWire`). The requests are
-- taken as the agent gets them.
--
-- Loops and fuel. A loop over a connection or a stream gets a round for each byte or message that is
-- still to come and one more, since each round takes one at least; that this is enough is proved for
-- each. Loops over lists are recursive.
--
-- Concurrency. A critical section of a mutex is one step. `Wait` of the broadcaster has two, around
-- the wait for its condition. All orders of the steps are covered by lists of events or turns.
--
-- The demo and the builder. A browser acts on its own record; the agent's client and the device's
-- streams that the browsers share are seen as the calls that one makes, and as the events that all
-- get. What the builder takes from packages cpio, lz4, http, xml and sha1 is an argument.
--
-- Not modelled: the start of the adb server, Connect and Close of the agent's client and its calls
-- that only pass on their arguments, processChannel of the emulator, which splits an output into
-- lines, and the start of the binaries. Timers, logging and the configuration of the codec have no
-- effect in the model. Loop variables of RgbToYuv do not wrap, which takes a side of 2 ^ 32 - 1.

pub mod Adb
pub mod Base
pub mod Broadcaster
pub mod Builder
pub mod Client
pub mod Demo
pub mod Display
pub mod Emulator
pub mod Files
pub mod Go
pub mod Grpc
pub mod Net
pub mod Protocol
pub mod Server
pub mod Shell
pub mod SysLog

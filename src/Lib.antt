-- ===== src/Lib.antt =====
-- claude-share: one machine's Claude Code installation, shared over an encrypted WebSocket.
--
-- A client uploads the files of its project, by hash, to a server. The server keeps their contents
-- in a blob store, writes them into a workspace and starts an agent there. For each prompt the agent
-- works in the workspace; when its turn ends, the server takes a snapshot, compares it with the one
-- before and sends the changed files back, and the client applies them. All that the two say to each
-- other are records on one encrypted channel: envelopes in JSON, and chunks of content streams that
-- an envelope has announced.
--
-- The files, and the code that each is about:
--   Base          shared names: Boolean tests and lists on native numbers, texts as lists of bytes,
--                 errors and results, maps (Dict), stable sorting by a key (Sort), 64-bit integers
--                 (Int64), code that changes a state and may fail (Exec), and one directory of a file
--                 system in which every call may fail (Disk)
--   Domain        internal/core/domain/domain.go
--   Fsutil        internal/fsutil/fsutil.go: HashContent (Hash), Diff (Diff), SafeJoin (SafeJoin),
--                 WalkManifest (Walk), and the functions of path/filepath that SafeJoin calls (Path)
--   Protocol      internal/protocol/protocol.go: message types, data, the framing of records
--   Ws            internal/adapters/transport/ws: codec.go (Conn), notifier.go (Notifier), client.go
--                 (Client, Dial), server.go (Server, with one connection's life in Server/Handle); Sent
--                 joins the messages of both ends with the codec
--   Fsstore       internal/adapters/workspace/fsstore: blobstore.go (Blobs), workspace.go (Workspace)
--   Localfs       internal/adapters/localfs/localfs.go; Open is the part that reads ignore files
--   Session       internal/core/app/session.go, over the ports of internal/core/ports/ports.go
--   ClientApp     internal/core/clientapp/clientapp.go; Upload puts its upload against StartSession,
--                 Inbound is ReadServerMessage of cmd/client/main.go
--   Agent         internal/adapters/agent/claudecli/claudecli.go; Process is the part that starts,
--                 feeds and ends the process
--   Secrets       internal/adapters/crypto: passphrase/passphrase.go and noise/noise.go
--   Terminal      internal/adapters/terminal/terminal.go
--   Programs      cmd/server/main.go (Server, with the banner in Server/Banner
--                 and the session service that main makes in Server/Wiring) and cmd/client/main.go
--                 (Client, with the application that main makes in Client/Wiring)
--   EndToEnd      both programs together: a project from the client to the server's workspace (Sync),
--                 a turn from the server's workspace to the client's disk (Turn), and blobs from the
--                 client to the server's service (Upload)
--   Examples      runs at concrete inputs, and each theorem at one
-- A Go method keeps its name in lower case: Service.SyncDone is Session.sync_done, conn.ReadMessage
-- is Ws.Conn.read_message, BlobStore.Put is Fsstore.Blobs.put. Where one method has several parts (a
-- loop, a deferred call, a goroutine), each is a definition of its own, and the method composes them.
--
-- How the code is modelled:
--   - A struct is a record and its mutable state is passed on; a call that may fail is an Exec, which
--     returns the state that it leaves beside its result, also when it fails.
--   - A Go map is an association list in which a write goes to the front. The program never ranges
--     over a map.
--   - A string or a byte slice is a list of bytes; the texts of the banner are lists of code points.
--     An int64 or a float64 that is only passed on is its bit pattern; stream ids and sequence
--     numbers wrap at 2 ^ 64 and 2 ^ 32.
--   - Paths are those of Unix. sort.Slice is a stable insertion sort; on a list without two equal
--     keys, as the paths of one directory tree are, every sort gives the same.
--   - Goroutines are sequences of steps. What the event pump does between the steps of HandlePrompt,
--     and what the client's reader does while Run waits, are lists that the definitions take as
--     arguments. Where a Go select finds several channels ready, a Boolean argument says which it
--     takes. A call on a nil interface and an index out of range are errors of their own.
--   - A channel of capacity one is an option. A send that would wait is said to wait.
--   - encoding/json, SHA-256, HKDF, the Noise library, the WebSocket connection, the operating system
--     and the readers of network addresses are parameters; what a theorem relies on of them is a
--     hypothesis with a name (RoundTrips, IsSha256, Pushes, Uploads, Yields, Exchange, Placed,
--     OnDisk, InSync, IsCipherLink, IsReadBack, Keeps, Opens, Answers, Serves, CanSync, Starts,
--     InOrder, Shows). For what the two mains make, OnDisk, Shows, Pushes and Uploads are proved, in
--     Programs/Client/Wiring and Programs/Server/Wiring (Pushing, Uploading: with a record, beside the
--     state, of what was sent).
--   - The renderer's methods take pointers: on a nil one they fail, as a call on a nil interface does.
--
-- Bounds and fuel: SendContent's loop runs on the length of the content and one more, and each round
-- takes off at least a byte or is the last. ReadMessage runs on the number of frames that it may
-- read; a caller gives it one for each frame that there is. All other loops go by the structure of a
-- list or a tree.
--
-- Not modelled: the parsing of flags, signals and the end of the two programs, the calls of Info in
-- clientapp, and the setting of file modes.
-- domain.Session and domain.SessionState are types that no code uses.
pub mod Base
pub mod Domain
pub mod Fsutil
pub mod Protocol
pub mod Ws
pub mod Fsstore
pub mod Localfs
pub mod Session
pub mod ClientApp
pub mod Agent
pub mod Secrets
pub mod Terminal
pub mod Programs
pub mod EndToEnd
pub mod Examples

-- ===== src/Lib.antt =====
-- Verification of onedriver, a FUSE file system for OneDrive.
--
-- The parts of the program and the files that model them (paths from the repository's root):
--
--   graph/inode.go        Item, World, Fields: the data of an item and of an inode (DriveItem, Inode,
--                         SerializeableInode, NewInode) and the accessors (Mode, Size, IsDir, Path).
--                         Open: Open on all of its branches. File: Read, Write, Getattr,
--                         Setattr, Fsync, Flush.
--                         Slices: the Go slices that hold contents, with their capacity.
--                         Handlers: Readdir, Lookup, Create, Mkdir, Unlink, Rmdir, Rename.
--                         Remote: RemoteID, and DriveType of the cache. Statfs: Statfs.
--   graph/cache.go        Cache: GetID, InsertID, InsertChild, DeleteID. Cache/Children: GetChild,
--                         GetChildrenID. Cache/Paths: GetPath, InsertPath, DeletePath, MovePath.
--                         Cache/Move: MoveID. Cache/Content: the stored contents and SerializeAll.
--                         Start: CacheDir and NewCache, and NewFS of graph/fs.go.
--   graph/graph.go        Graph: Request with its retry, and the calls that use it.
--   graph/oauth2.go       Auth: ToFile, Refresh and getAuthTokens. Auth/Start: FromFile, getAuthURL and
--                         Authenticate. Auth/Code: getAuthCode of graph/oauth2_headless.go and
--                         graph/oauth2_gtk.go, from the URL at which the user arrives.
--   graph/delta.go        Delta: pollDeltas, applyDelta and one round of deltaLoop.
--   graph/upload_session.go  Upload: NewUploadSession. Upload/Chunks: uploadChunk, cancel, Upload.
--   graph/upload_manager.go  Manager: uploadLoop as a relation between states, with the goroutines
--                         that it starts; QueueUpload is in Upload.
--   cmd/onedriver/main.go Main: main, from the options that pflag has parsed to the mount, with what
--                         main itself asks of the host and how it ends; UnmountHandler of
--                         graph/signal_handlers.go.
--   graph/hashes.go       Hashes: SHA1Hash and QuickXORHash with their texts.
--   logger/logger.go      Logger: StringToLevel, funcName, goroutineID, Caller, pad. Logger/Formatter:
--                         SetLogLevel and LogrusFormatter.
--
-- Calls lists the methods of Inode that go-fuse calls for the kernel, with their arguments; Calls/Mode and
-- Calls/Session are about such calls, uploads and rounds of deltaLoop one after the other, in any order.
-- go-fuse's own tree, from which Rename has its paths, changes outside the handlers: each call comes
-- with the tree that go-fuse has by then.
-- What each operation may do to the World is a file Effects below its own (World/Effects has the
-- rules), and World/Mode is the part of a World that no handler changes.
--
-- How they interact: the handlers, the cache and the calls to the server run in the monad M over one
-- World: the inodes stand in a heap and are shared by their addresses, as the program shares pointers;
-- the cache maps ids to addresses and falls back to the database; Fsync hands a snapshot to the upload
-- manager. A handler ends with a value, with a panic (nil pointer, slice out of range) or with the
-- process (log.Fatal). Each handler runs alone: mutexes are left out, and the only interleavings that
-- are modelled are those of whole handlers (Calls/Session) and those of the upload loop and its
-- goroutines (Manager). What an upload does while it
-- runs is in Upload/Chunks.
--
-- What the program calls and does not implement is the record Host: the bbolt database, the server,
-- the clock, the random numbers, the Unicode tables, the hash functions, the JSON codec and the growth
-- of slices. BucketLaws, HasRoom and ReadsBack say what a theorem assumes of it; Tests has a host that
-- satisfies them. The record System is what the process finds at its start: the user, the files that
-- are there, and whether the database opens and the mount succeeds.
--
-- Bounds and fuel: sizes, offsets and times are natural numbers; the arithmetic that can wrap around
-- (the subdirectory count, the headers of a chunk) is taken modulo its width. The retries of a chunk
-- and the pages of a delta poll have no bound in the program, which loops as long as the server fails
-- or sends pages; the model gives up when its fuel runs out, and says so in its result. One round of
-- fuel is enough for a server that accepts every request, and one more than the errors of a server
-- that fails a bounded number of times; for a poll, one more than the pages that name a next one
-- (Upload/Chunks/Recovered, Delta/Pages). The number of chunks is computed with floats in the program,
-- exactly below 2^52 bytes. Statfs counts free files modulo 2^64.
--
-- A Go map and a sync.Map are association lists. Readdir has the order in which it goes through one as
-- an argument; the other loops take the order of the list, and where the order of the deltas of a
-- round matters, the list is any (Delta/Round, Delta/Order).
--
-- Not modelled: the sums behind the hashes, which libraries compute, the WebKit window
-- (graph/oauth2_gtk.c) and the terminal in which the user authenticates, of which only the text that
-- comes back matters; the parsing of the flags and the usage text in cmd/onedriver/main.go; the
-- delivery of signals and the unmount itself. The upload loop panics at a nil session, which
-- QueueUpload may hand to it; Manager has the steps for the sessions that are there.
--
-- Prelude holds the library names, Boolean tests, lists, text, paths and association lists that all
-- files share; Tests holds a concrete host and world and examples.
pub mod Prelude
pub mod Item
pub mod Host
pub mod System
pub mod Hashes
pub mod World
pub mod Fields
pub mod Auth
pub mod Graph
pub mod Cache
pub mod Slices
pub mod Remote
pub mod Upload
pub mod Open
pub mod File
pub mod Manager
pub mod Handlers
pub mod Delta
pub mod Statfs
pub mod Calls
pub mod Start
pub mod Main
pub mod Logger
pub mod Tests

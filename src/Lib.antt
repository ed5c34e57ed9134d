-- ===== src/Lib.antt =====
-- A verification library for justhttp, an HTTP library for Go.
--
-- The program's parts, from the bottom up:
-- - Bytesconv/Tables: the tables of bytesconv_table.go, as bytesconv_table_gen.go computes them
--   (hex2intTable, toLowerTable, quotedArgShouldEscapeTable, ...), as functions of a byte.
-- - Bytesconv/Uint, Bytesconv/HexInt: the numbers of bytesconv.go. `scan_uint` is the loop of
--   parseUintBuf, `parse_uint` is ParseUint, `append_uint` is AppendUint, `read_hex_int` is
--   readHexInt and `write_hex_int` is writeHexInt, for 64-bit ints (bytesconv_64.go).
-- - Bytesconv/Ipv4: ParseIPv4 and AppendIPv4 of bytesconv.go, over these numbers.
-- - Bytesconv/Quote: AppendQuotedArg and appendQuotedPath of bytesconv.go, decodeArgAppend and
--   decodeArgAppendNoPlus of args.go.
-- - Args: the query arguments of args.go. Args/Slots has the slices of slots with what stands
--   behind their length, since a slot is used again; Args/Scanner is argsScanner and ParseBytes,
--   Args/Query is AppendBytes, Args/Store is setArg, delAllArgs, peekArgStr, copyArgs and others,
--   Args/Typed is GetUint, SetUint and GetBool.
-- - UserData: the user values of a request, userdata.go.
-- - Uri: uri.go. Uri/Path is normalizePath and its loops, Uri/State the fields, Uri/Parse is parse
--   and splitHostURI, Uri/Print is RequestURI, AppendBytes and updateBytes. It decodes paths with
--   Bytesconv/Quote and keeps its query arguments in slots of Args.
-- - Cookie: cookie.go. Cookie/State has the fields, Cookie/Scan is cookieScanner and the request
--   cookies, Cookie/Print is AppendBytes and Cookie/Parse is ParseBytes. Package time is the
--   parameter `TimePackage`.
-- - Header: header.go. Header/Key is normalizeHeaderKey, Header/Value is removeNewLines and
--   hasHeaderValue, Header/Scanner is headerScanner, Header/Line is appendHeaderLine, Header/Parse
--   has the loops that the two parsers share, and Header/Status is status.go. Header/Request and
--   Header/Response have the fields of the two headers and their setters; in the folder of each,
--   Fields is Set, Add, Del and Peek, Print is AppendBytes and VisitAll, and Parse is parse. The
--   headers keep their other lines and their cookies in slots of Args, and read and write cookies
--   with Cookie/Scan; a length is read with Bytesconv/Uint.
-- - Body: readBody of http.go with its three kinds of length, and writeBodyChunked; the sizes of
--   chunks are numbers of Bytesconv/HexInt.
-- - Message/Body: the body of a Response of http.go, its buffer, raw body and stream.
-- - HostClient: the pool of connections of HostClient, client.go. HostClient/Queue is
--   wantConnQueue, HostClient/Want is wantConn, HostClient/Pool has acquireConn, releaseConn and
--   the others, one function for each stretch of code under connsLock, releaseConn in two parts,
--   and HostClient/System the steps that callers, dialing goroutines and the cleaner take, where a
--   cancel may come between the two. A connection and a time are numbers; a dial ends either way.
--   HostClient/Retry is the loop of Do; what the calls of do and of RetryIf return are arguments
--   of it.
-- - Client: Client of client.go. Client/Hosts has the clients of the hosts with mCleaner,
--   Client/Deadline is clientDoDeadline as steps of its goroutine and its caller,
--   Client/Redirects is doRequestFollowRedirects, whose bound is the number of redirects left, and
--   Client/Dial is dialHostHard over the addresses of nextAddr.
-- - Pipe: fasthttputil/pipeconns.go, a direction of a pipe. Pipe/Order has the calls of Write and
--   Read in any order.
-- - ByteRange: ParseByteRange of fs.go.
-- - Fs: the static files of fs.go. Fs/Path has the paths that are served, Fs/Cache the caches of
--   open files with their reader counts, Fs/Cache/System the steps of the goroutines that serve,
--   close and clean, Fs/Reader the small reader, and Fs/Handler is handleRequest. What package os
--   answers to openFSFile and createDirIndex is a parameter.
-- - PerIpConn: peripconn.go and wrapPerIPConn of server.go. PerIpConn/System has the steps that
--   goroutines take, one for each stretch of code under the lock.
-- - WorkerPool: workerpool.go. WorkerPool/System has the steps of Serve, of the workers, of clean
--   and of Stop.
-- - LbClient: lbclient.go. The clients behind it are known by their pending requests.
-- - Base has what these share; Tests has the theorems at concrete inputs, and runs.
--
-- A byte is a natural number and a slice of bytes a list. A slice that is appended to from its
-- start is the list of the bytes it ends with; where an old content shows through, as in the slots
-- of Args, it is part of the state. Machine integers wrap around as written in each definition.
--
-- The buffer of a body starts with no capacity, and grows as round2 computes in 32 bits; where the
-- code slices it out of range, the model gives the error `panicked`. A panic elsewhere is `none`.
--
-- Bounds: a loop that is no recursion on a list has a first argument that bounds its rounds, and
-- gives `none` (or `unfinished`) if the bound is too small. The callers give the length of the text
-- and one more: a round of a scanner takes a byte at least, a round of normalizePath shortens the
-- path, a round of the binary search of clean shortens its interval. For parseUintBuf and
-- AppendUint the bound is the input, or the buffer of 20 bytes.
--
-- A step of the header scanner or of a chunk takes a byte at least; the loops over the queue have
-- its length; the loop of Do has the limit on the attempts; the buffer of readBodyIdentity doubles
-- from 1024 up to 2 to the 31 in less than the 64 rounds given. A round of WriteTo of a file reader
-- writes a byte at least, and dialHostHard makes one round for each address.
--
-- Not modelled: the network, files, compression, timers, the pools of objects, and the parts that
-- drive them: Read and Write of the headers over bufio, the streamed bodies and the messages of
-- http.go, server.go, the requests of client.go and its pipeline client, the opening, listing and
-- compressing of files in fs.go, tcpdialer.go, and the other packages in subdirectories, which
-- mostly move bytes between them and these components.
pub mod Base
pub mod Bytesconv
pub mod Args
pub mod UserData
pub mod PerIpConn
pub mod Body
pub mod Message
pub mod ByteRange
pub mod Fs
pub mod WorkerPool
pub mod LbClient
pub mod Uri
pub mod Cookie
pub mod Header
pub mod HostClient
pub mod Client
pub mod Pipe
pub mod Tests

-- ===== src/Lib.antt =====
-- A verification library for pingfs, a file system whose blocks live in pings that are in flight.
--
-- The program. A file system (lib/src/fs) keeps directories and files as immutable blocks
-- (lib/src/block). A block holds a directory or file, links to further blocks, or a piece of a file.
-- Blocks are created, freed and fetched through a block manager (lib/src/block/block_manager): one
-- keeps them in memory, the others send each block as an ICMP echo request and wait for it to come
-- back (lib/src/ping). A service sends a block again whenever it has come back, until it is freed.
--
-- The files, and the code that each is about:
--   Base               numbers, lists, results, signed results, bits, association lists and sets
--   BlockData          lib/src/block/block_data, lib/src/block/block.cc, proto/block_data.proto
--   BlockManager       lib/src/block/block_manager: IdSupplier for the suppliers of ids, Interface
--                      for the interface and its contract, Memory for memory_block_manager.cc, Async
--                      for async_response.cc and async_block_manager.cc
--   Ping               lib/src/ping: EchoRequest for what is sent, EchoResponse for the parsers,
--                      Receive for the buffer and the loop of ping.cc, Spoof for lib/src/ping/spoof
--   PingService        lib/src/block/block_manager/ping: the translator, the services, in Manager the
--                      managers, and in Network a manager with the requests that are in flight, as
--                      steps in any order. Network/View is what a step does to the lists of blocks,
--                      and Carried, Arrive and Calls show that each step is one of those
--   Fs                 lib/src/fs: FsUtil for fs_util.cc, BlockUtil for block_util.cc, BlockFuse for
--                      block_fuse.cc and, in Revertible and Distributed, for the classes derived
--                      from it. Tree is what the file system promises, as a tree of names that
--                      knows no blocks; BlockFuse/Represents says which blocks stand for which tree
--                      and compares each operation with the tree; BlockUtil/Freeing is about the
--                      freeing of the blocks below one
--   Util               RateQueue for lib/src/util/rate_queue.cc, Publisher for
--                      lib/include/pingfs/util/publisher.hpp
--   Tests              runs at concrete inputs
--
-- How the code is modelled. A class is a record and a method is a function from a state to a result
-- and a state; names are those of the code. What fails returns `fail` with a kind of failure:
-- `thrown` for an exception of the code's own, `out_of_range` and `length_error` for those of the
-- standard library, `undefined` where the code asserts or follows a null pointer. Numbers are natural
-- numbers, with wrap-around written out where the code's types wrap. Strings are lists of bytes, maps
-- are association lists, and sets are lists without duplicates. A method that holds its mutex from
-- end to end is one step.
--
-- Fuel. `get_file_contents` and `recursive_free_children_blocks` run on the depth of the tree of links
-- below a block; `find_path` on the depth of the path;
-- the operations of BlockFuse on the layers of links below a directory or a file;
-- for a fuel of `suc k` the theorems ask that no file has more than `k` layers of links, and those on
-- `rmdir` that the entry has at most `k` generations of blocks below it;
-- `internal_check_notify` on the number of packets in the buffer, plus one round.
--
-- Parameters. The serialiser of protobuf, the logarithm that gives the depth of a tree of links, the
-- endpoints and addresses of boost::asio, what time, getuid and getgid return, and the callback of
-- libfuse that fills a directory. The virtual methods of a file system are a record of functions.
--
-- Not modelled: the loss of requests on their way, the forwarding of callbacks in fuse_wrapper.cc,
-- logging, printing, sockets and threads, and the programs in app.
pub mod Base
pub mod BlockData
pub mod BlockManager
pub mod Ping
pub mod PingService
pub mod Fs
pub mod Util
mod Tests

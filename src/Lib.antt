-- ===== src/Lib.antt =====
-- A model of the fusefs adapter, which mounts an absfs filesystem through FUSE (go-fuse), and what
-- holds of it.
--
-- The program is one Go package. A FuseFS (fuse.go) holds the mounted filesystem, the options, and
-- four stores: inode numbers with two caches (inode.go, over the LRU cache of cache.go), open
-- handles (handles.go), locks (locks.go) and counters (stats.go). The handlers of nodes and of
-- open files (operations.go, access.go, statfs.go, xattr.go and the end of locks.go) are called by
-- go-fuse; each counts the operation, refuses it while the filesystem unmounts if it is a handler
-- of a node, calls the mounted filesystem, maps its error to an errno (errors.go), and keeps the
-- stores up to date. Mount (mount.go) makes a FuseFS and has go-fuse serve it; Unmount stops the
-- handlers and empties the stores. A pool of buffers (pool.go) stands beside them, and an example
-- program (examples/basic) mounts a filesystem of its own.
--
-- The files:
--   Common: what the other files share: tests, lists, association lists for Go's maps, keys.
--   Errno: the numbers of Linux for the errnos that the code names.
--   Errors: mapError of errors.go. An error is the list of the links of its chain.
--   Absfs: os.FileInfo, fuse.Attr, fuse.DirEntry, and a value with an error.
--   Cache: cache.go. The pointers of the map are identities of list elements. Elements,
--     Agreement and Recency are the steps to Refinement (each operation against a list of entries
--     in order of use); Forgetting is about Delete, Bounds and Values about what a cache always
--     is.
--   Inodes: inode.go. Numbers has the validity of the number maps, Stability what a path keeps.
--   Handles: handles.go. Lifecycle has what a handle is good for.
--   Locks: LockManager of locks.go, with Flock in Flocks. Bytes and Modes say who holds what;
--     Exclusion, Held and History show what can never be, Probe, Grants and Release what each call
--     answers and changes, Waiting that a refused request is granted in the end.
--   Stats, Options: stats.go, options.go.
--   Fuse: FuseFS and newFuseFS of fuse.go, the mounted filesystem as a record of operations, and
--     the steps that the handlers share, as a monad on the state.
--   Mount: mount.go. Mounting, Unmounting and Devices are about Mount, Unmount and IsMounted.
--   Pool: pool.go. Classes has what is in the pools, Calls what any sequence of calls may meet,
--     Sharing that users do not share arrays.
--   Operations: fillAttr and mapOpenFlags of operations.go. Entries, Attributes, Directories,
--     Files and Xattrs have the handlers; the model keeps the names of the code, but for Lookup
--     (look_up) and Open (open_node). Flags, Keeping, Unmounted, Access, Listing, Listings,
--     Staleness, Caching, Closing, Making, Linking, Numbering and Lookup are about them, and
--     Answers says what was answered.
--   Session: all handlers and Unmount as the steps of a session. Frames says what a handler
--     keeps if the operations on the stores keep it, handler by handler; Sound and Reports apply
--     it to the well-formedness of the whole state and to Stats; Ended is about the calls after an
--     Unmount, and of an Open that is late for it (Late), and Races about a Readdir with other
--     calls between its halves: open_among and readdir_among are the two handlers with what others
--     do in between, and Open and Readdir those with nothing. Steps takes the calls apart into the
--     steps that goroutines may interleave: each holds one mutex, and any order of them keeps what
--     Frames is applied to (Atomic); Honest says where listings come from, Once that numbers and
--     handles keep their meaning.
--   Basic: examples/basic, an example program: osFS, a filesystem over the os package (Paths),
--     and main, which mounts it (Program, with Ending about how it ends).
-- Tests and witnesses stand in the modules named Examples; Operations/Samples has states for them.
--
-- The mounted filesystem is a parameter: a type of states of its own, a type of its open files,
-- and the operations that the code calls, each a function on that state with any result. Optional
-- interfaces are options: none is a failed type assertion. path.Join is one of the parameters, and
-- so are the user and group of the process. So is what Mount and IsMounted call of the operating
-- system and of go-fuse, on the same state, and what the example calls of the os package. Nothing
-- is assumed of any of them. Of a sync.Pool it is assumed that it gives only what was put in, and
-- removes what it gives, and of Go's limit on the size of a []byte that it is at least 1 MB.
--
-- Choices. Each method that holds a mutex throughout is one step. A session takes each handler as
-- one step too, and Session/Steps the handlers apart. The clock is an argument of the calls that
-- read it, in nanoseconds, and one reading serves a whole handler; a time since is a difference
-- that stops at 0. A map is an association list, and where the code ranges over one the order is
-- an argument (CloseAll) or plays no part (ReleaseOwner). Counters of 64 bits wrap around; where a
-- theorem needs that one has not, it says so. Offsets, sizes, owners and modes are numbers without
-- a bound, except where the code's width shows in a result. A file's time is its number of
-- nanoseconds since the epoch. The size of GetBuffer may be negative, and a panic is none. No
-- definition needs fuel: every loop follows a list.
--
-- Not modelled: go-fuse and the kernel, which call the handlers; the contents of pooled buffers;
-- the rounding of the hit rate to a float64, in place of which Stats has the quotient; atime,
-- which Setattr ignores; sizes of files below 0 and times before the epoch. The attribute cache
-- keeps a copy of the attributes, where the code keeps a pointer to the out parameter of Getattr:
-- what go-fuse does with that memory later is not part of the model.
pub mod Basic
pub mod Common
pub mod Errno
pub mod Cache
pub mod Errors
pub mod Absfs
pub mod Fuse
pub mod Handles
pub mod Inodes
pub mod Locks
pub mod Mount
pub mod Operations
pub mod Session
pub mod Options
pub mod Pool
pub mod Stats

-- ===== src/Lib.antt =====
-- piwheels: the master that hands builds to build slaves, fetches the files that they build, and
-- asks for the pages of the repository to be rewritten.
--
-- The parts and their files:
--   * Ranges: piwheels/ranges.py (consolidate, split, exclude, intersect). Ranges/Members says which
--     offsets the results have, Ranges/Tiling which shape they keep, Ranges/Consolidate when
--     consolidate is right.
--   * Files: FileState and BuildState of piwheels/states.py with their messages; Files/Next is about
--     next_file, which Files/Sorted serves. BuildState.package is `pkg`.
--   * Transfer: TransferState and mkdir_override_symlink of piwheels/states.py. Fetch is about the
--     loop of fetch, Bytes about writing at an offset, Integrity and Progress about whole transfers,
--     Verify and Commit about those methods.
--   * Slave: SlaveState of piwheels/states.py and the slave messages of piwheels/protocols.py. The
--     method `sleep` is `pause` and the property `build` is `current`.
--   * Builds: the two dictionaries of SlaveDriver (piwheels/master/slave_driver.py), `abi_queues` and
--     `excluded_builds`: `refresh` is what handle_build does to them, `delete` what handle_delete
--     does, `take_build` what do_idle does. Deletion is about the queues after a deletion; Handout,
--     Exclusion, Clean and Runs prove what the
--     exclusions are for, over any order of these events.
--   * Armv6: build_armv6l_hack of the same file; Armv6/Names says what it adds.
--   * Driver: SlaveDriver itself, with handle_slave and its do_ methods; Driver/Control has
--     handle_control, handle_build, handle_delete and remove_expired. Invariant, Handlers and Total
--     carry the invariant of the table of slaves; Marks and Upkeep are about the control messages, Expiry
--     about remove_expired, Deletions about handle_delete, and Replies has the slave protocol.
--   * Secretary: TheSecretary (piwheels/master/the_secretary.py).
--   * Juggler: FileJuggler (piwheels/master/file_juggler.py), whose transfers are those of Transfer;
--     Juggler/Client has FsClient and handle_fs_request.
--   * BuildSlave: PiWheelsSlave (piwheels/slave/__init__.py), with handle_reply and its do_ methods.
--     BuildSlave/Session, its Rounds and their Talk say when a slave and the master's record of it
--     are in step; Files/Waiting and Armv6/Waiting serve them. Conversation runs the slave and
--     SlaveDriver together, message by message.
--   * MrChase: MrChase (piwheels/master/mr_chase.py): the imports in the file itself, the requests of
--     the tools in MrChase/Tools, the names of packages with canonicalize_name (piwheels/format.py) in
--     MrChase/Names. Handlers, Answers, Resend, Removal and Aliases have the proofs.
--   * Pypi: PyPIBuffer (piwheels/pypi.py), from the events that a request gives. Sorting, Seeking,
--     Reading and Steps are about one iteration, Batches about many.
--   * Gazer: PyPIEvents of the same file, with its cache of versions (Gazer/Cache); Gazer/Store has
--     CloudGazer.read_pypi (piwheels/master/cloud_gazer.py) as the calls that it makes, and Gazer/Known
--     compares its packages with them.
--   * Seraph: Seraph (piwheels/master/seraph.py) between the clients of the database and its workers;
--     Seraph/Sharing and Seraph/Turns have the proofs.
--   * Tasks: the control messages of the tasks' base classes (piwheels/tasks.py).
--   * AtomicFile: AtomicReplaceFile (piwheels/master/the_scribe.py).
--   * BuildLogs: piwheels/build_logs.py, the paths of the logs.
--   * Prelude and Dict hold what the parts share: tests on numbers and texts, lists, and Python's
--     dictionaries as lists of entries in the order of insertion. Result is what a handler returns,
--     or the exception that ends its task. Tests has the models run on concrete input.
--
-- How they interact: a slave's message reaches Driver, which takes builds from Builds, keeps the
-- build of each slave as a BuildState of Files, and tells the juggler which file to expect (the
-- effect `expect`). The slave then talks to Juggler, whose transfers write the chunks; at the
-- slave's SENT, Driver asks the juggler to verify (the effect `verify`), and a build with all files
-- there is logged and its pages requested (the effects `write_project` and `write_both`), which
-- Secretary buffers. MrChase does for the importer what SlaveDriver does for a slave, and its model
-- calls the juggler's directly.
--
-- Conventions: a text is its list of code points. A time is a number of seconds and a handler reads
-- the clock once, as `now`. Statistics that are floats count thousandths. Offsets and sizes are
-- naturals, which Python's integers do not bound. A dictionary that the source mutates is passed on;
-- where an object is shared, as the slave and the transfer in their tables, the new value is written
-- back to the table. The answers of the other tasks to SlaveDriver (EXPECT, VERIFY, LOGBUILD) are in
-- Env; those of the database to MrChase are a record of operations (Database). The hash is a parameter (Hash of Transfer), of which only the law of updates is used.
--
-- Fuel: the `while True` loop of fetch is given two rounds, since the second one starts at the first
-- range of the map, which it overlaps if it is not empty; the loop of handle_file one round more
-- than the transfer has credit, since each round spends one; the reading loop of verify more rounds
-- than the file has bytes, since each round but the last one reads some; mkdir_override_symlink two,
-- since an alias is unlinked in the first one. Running out of fuel is `none`.
--
-- Not modelled: sockets, logging and messages that cannot be decoded; TransferState.rollback and the
-- permissions of files; other processes that change a package's directory during a commit; the
-- contents of the pages, the database, the other tasks, the monitor, the builds of a slave and the
-- command line tools.
pub mod Prelude
pub mod Dict
pub mod Result
pub mod Ranges
pub mod Files
pub mod Transfer
pub mod Slave
pub mod Builds
pub mod Armv6
pub mod Driver
pub mod Secretary
pub mod Juggler
pub mod BuildSlave
pub mod Conversation
pub mod MrChase
pub mod Pypi
pub mod BuildLogs
pub mod Gazer
pub mod Seraph
pub mod Tasks
pub mod AtomicFile
pub mod Tests

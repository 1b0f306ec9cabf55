-- ===== src/Lib.antt =====
-- logger_cpp: the CommonTools library, its logger with the routing of records to targets.
--
-- A program logs records through one `Logger` object. A record has a level, a set of kinds and a text;
-- the routing rules of the logger (`DispatchKey`) choose its targets, and each target writes it. In
-- asynchronous mode a record is queued, and a thread writes what is queued; `Stop` writes the rest.
-- All paths are below Source/SharedLibraries/CommonTools.
--
-- The parts and the files that model them:
--   - Common has shared numbers, lists, texts as lists of bytes, ordered sets (`std::set`) and bits.
--   - Kinds is `LogKindSet` (Logger.cpp): its bits are a number, `Set`, `Test` and `operator&` are
--     the bit operations of the source. Kinds/Membership has it as a set, Kinds/Names its text.
--   - StringHelpers is include/StringHelpers.h: `trim` and its variants, `split`, `replace_all`. The loop of
--     `replace_all` runs on fuel, one more than the length of the text: each round takes at least one
--     byte off the part that is still searched, and so does each round of `split`. StringHelpers/Wildcard is `matches_wildcard`, whose rounds
--     take from the pattern or from the text after the last star; the fuel is the product of the two.
--   - Schedule is `TimeInterval` (ScheduleUtils.cpp), with the division and the remainder of the
--     source and results that may lie before the epoch. Schedule/Caller is `ScheduledCaller`: its worker, one
--     client and the clock as a step relation with each access of the shared members as a step. The function
--     that it calls is not looked into, but may ask for an early call or a stop.
--   - Records has `LogLevel`, `LogRecord` and `TargetResult` (Logger.cpp, include/Logger.h).
--   - Format is the text of a record: `Format_log_message` and `Format_time` (Logger.cpp). The order in
--     which a `std::unordered_map` is gone through is a parameter. Format/Date is the calendar of the
--     language; its walk over the years has as much fuel as there are days. Format/Pieces and
--     Format/Filling have formats as lists of pieces, Format/Messages the two functions on them.
--   - Target is the class `Target`: its virtual methods are the interface `TargetClass`, over any type
--     of targets and any world outside; `Write_log` is defined over them. Target/Base has the members
--     of every target and the platform under them; Target/Standard is LogTargetStandardOutput.cpp and
--     LogTargetStandardError.cpp, Target/File is LogTargetFile.cpp. A file stream is the name that it has
--     open and its failbit. Target/File/Rotation has `Update_filename`, `Setup` and `Maintenance`, with
--     exceptions as values and the use of an empty `std::optional` as an outcome of its own.
--   - Purge is ProcessName.cpp: `Remove_extension`, and `Delete_regex_older_than_cpp`, which the worker of a file
--     target runs, over a directory with its clock. The pattern is a test of names; exceptions are values.
--   - Logger is the class `Logger`: `Log_entry`, `Write_log` and `Process_logs`. Its state is the
--     members, the heap of shared targets (slots and rules hold addresses, so that a target on several
--     rules is one object) and the world. Logger/Setup has `Configure`, `Get_config`, `Initialize`,
--     `Start`, `Stop` and `Reconfigure`. A run is a list of whole calls (Logger/Queue). The logging
--     thread holds the mutex only while it takes the queue, and writes without it: Logger/Queue/Interleaving
--     has these as steps of their own, with the steps of other threads between them.
--     Logger/Maintenance is the maintenance thread: a round of it, and its steps beside `Start` and `Stop`, of which
--     `Stop` waits for it with the mutex.
--   - Serializer is include/SerializerJSON.h over an interface to nlohmann::json and its validator
--     (`JsonLibrary`, with the behaviour relied on in `JsonLaws`): a member has the branch of the operators
--     for its type, an object is its list of members. Configs has the configuration classes as JSON (Logger.cpp,
--     LogTargetFile.cpp), with their exposed members, schemas and comparisons; a configuration of a target is
--     an object of `TargetConfig` or of `FileTargetConfig`.
--   - ConfigFiles is `Save_config`, `Load_config` and `Backup_config` of Logger.cpp over a file system; the
--     names that `Backup_config` tries are on fuel, and a loop without an end is an outcome of its own.
--   - Examples has concrete targets and runs.
--
-- Not modelled: the parts of the serializer that these classes do not use (durations, CString, character
-- arrays, buffers, raw pointers, `GetSchema`, members by their names), the macros that build a record
-- from a stream, and what the platform does (the clock,
-- the streams, the heap, JSON values), which is a parameter.
pub mod Common
pub mod Kinds
pub mod StringHelpers
pub mod Schedule
pub mod Serializer
pub mod Records
pub mod Format
pub mod Target
pub mod Purge
pub mod Logger
pub mod Configs
pub mod ConfigFiles
pub mod Examples

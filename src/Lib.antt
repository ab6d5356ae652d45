-- ===== src/Lib.antt =====
-- pdnsd, the caching DNS proxy that the Android service runs, whose C code stands in
-- library/orbotservice/src/main/jniLibs/pdnsd/src. A query comes in with a name, which is read from
-- the message (dns.c) or from a configured text (helpers.c) into length-byte notation; the cache
-- (cache.c) keeps an entry per name with RR sets by type, links the RR sets by age in the list rr_l
-- so that the oldest can be purged, and is guarded by a readers-writer lock of its own.
--
-- The parts, with their files in that directory:
-- - Prelude: numbers, lists, and `Run`, the outcome of code that may read or write outside an
--   object or fail an assertion. A buffer is a list of bytes, and every read and write is checked
--   against its length.
-- - Name (helpers.h, helpers.c, dns.h): rhnlen, skipsegs, skiprhn, rhnsegcnt, rhncpy,
--   isnormalencdomname, rhnicmp. Name.Labels has the names themselves as lists of labels.
-- - Text (helpers.c): str2rhn, parsestr2rhn and rhn2str. Text.Spelling has the texts of names.
-- - Message (dns.c): decompress_name. Message.Denotes has the reading of RFC 1035, section 4.1.4.
-- - Header (dns.h): dns_hdr_t as fields and as bytes, GETINT16 and the like. Header.Layout has the
--   words of RFC 1035.
-- - Query (dns_answer.c): decode_query, decode_query_additional, process_query up to its call of
--   compose_answer, mk_error_reply, add_opt_pseudo_rr, remove_opt_pseudo_rr. The messages of the
--   debug output are left out.
-- - Answer (dns_answer.c): the records of an answer. Answer itself has add_rr; Answer.Rounds randrr and
--   the loops over the records of an RR set; Answer.Sets sva_add, add_ar, add_rrset, add_to_response,
--   follow_cname_chain, add_additional_rr, add_additional_rrs and add_additional_a. The loops with
--   wraparound run on fuel, the number of the records. Answer.Compose has the parts of compose_answer
--   around its answer section; what other threads do to the cache in each round is a parameter.
-- - Cache (cache.c): the cache by name; in Cache itself del_cent, del_cache, invalidate_record,
--   set_cent_flags, getlocalowner and lookup_cache_local_rrset, in Cache.Purges purge_cent, in
--   Cache.Lookup lookup_cache. The entries are a list; what other threads do between its two locks
--   is a parameter of lookup_cache. Cache.Ancestors has what entries say of the names below theirs.
-- - Disk (cache.c): the disk cache file; in Disk itself write_disk_cache from the opened file on, in
--   Disk.Reader read_disk_cache up to its sort_rrl. add_cache is a parameter there; a write fails
--   where the file has no room, a read where the file ends. Numbers stand in the file lowest byte
--   first, as on the processors of Android; the sizes of time_t and unsigned long are parameters.
-- - Arrays (list.c, list.h): da_grow1 and da_resize; in Arrays.Items dlist_grow and the loop by
--   dlist_next, where sizeof(size_t) is 8.
-- - Records (dns_query.c): in Records itself the data of a record by its type, in Records.Cents
--   rr_to_cache, in Records.Answer rrs2cent, which fills the array of entries that the cache takes
--   over. All types of rr_types.h with IS_CACHED are there; RFC2181_ME_HARDER is not set.
-- - Machine (dns_query.c): p_query_sm, the state machine of a query to one server, and in
--   Machine.Ports bind_socket. What the system calls give is a function of the number of the call,
--   and a call on a socket that is not open halts.
-- - Lock (cache.c): lock_cache_r, unlock_cache_r, lock_cache_rw, timedlock_cache_rw,
--   unlock_cache_rw, yield_lock_cache_rw and the soft versions. A critical section under lock_mutex
--   is a function, cut where it waits on a condition. Lock.Threads has the interleavings.
-- - RrList (cache.c): get_rrlent_ts, insert_rrl, listmerge, sort_rrl on the list by age.
-- - Cent (cache.h, cache.c, rr_types.h): dns_cent_t, with getrrset and the index macros in Cent
--   itself, and in Cent.Add init_cent, create_rr, add_cent_rrset_by_index, add_cent_rrset_by_type,
--   add_cent_rr_int, add_cent_rr; in Cent.Delete remove_rrl, del_rrset, del_cent_rrset_by_index,
--   free_cent, negate_cent; in Cent.Copy copy_cent and its helpers; in Cent.Purge purge_rrset and
--   purge_all_rrsets; in Cent.Conflicts cr_check_add with the table rr_info, and in its Lifetimes
--   adjust_ttl, adjust_dom_ttl and ans_ttl (dns_answer.c). The sizes of the C types and the time are
--   parameters.
-- - Compress (dns.c): domain_match and compress_name, with the list of names as a list.
-- - Hash (hash.c, hash.h): dns_hash, the loops over a chain, and the functions on the table, whose
--   chains are lists. The entry behind an element is a number. The width of unsigned long is a
--   parameter.
-- - Tests: runs on concrete inputs.
--
-- Loops over a buffer run on fuel that the buffer's length bounds; the theorems say that they end
-- normally, so the fuel is enough. The configuration is that of pdnsd/config.h: IPv4 only. Numbers
-- that the code keeps far below the bounds of their types, such as sizes, counts and time stamps,
-- are natural numbers; bytes are numbers that the code masks where the source does.
--
-- Not modelled: the lists of llist_grow in list.c, which stand as lists; purge_cache, add_cache and
-- the reports of cache.c; the answer section in compose_answer; the choice of servers, the recursive
-- resolution, and the sockets of the clients; the configuration's parser, the control program, the
-- copied library libancillary, and the Java and Kotlin code around the native programs.
pub mod Prelude
pub mod Name
pub mod Text
pub mod Message
pub mod Header
pub mod Query
pub mod Cache
pub mod Answer
pub mod Disk
pub mod Arrays
pub mod Records
pub mod Machine
pub mod Lock
pub mod RrList
pub mod Cent
pub mod Compress
pub mod Hash
mod Tests

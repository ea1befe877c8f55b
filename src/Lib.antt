-- ===== src/Lib.antt =====
-- The OpenCage foreign data wrapper of PostgreSQL: a foreign table whose rows are the results of a
-- geocoding query.
--
-- The program has three parts. ocgeo_fdw.c holds the callbacks of the wrapper: the validator of
-- options, the planner's callbacks, the scan, the rate limiter and the statistics per user.
-- utils.c takes the restrictions out of the clauses of a plan. ocgeo_api.c and ocgeo_api.h are the
-- client of the service. A scan merges the options, takes the query and the least confidence from
-- the clauses, looks up the user's counters, and hands the request of the client to the limiter,
-- which waits for a permit, sends it and counts it; the scan then goes through the results of the
-- reply.
--
-- Prelude: shared names, tests on numbers, the integers (int32 and int64 wrap around), the result
-- type Exec (a value, a crash, a reported error, or no fuel left), and what C reads from and
-- prints to texts (strtol, atoi, "%d").
-- Foreign: what is not of this repository, as parameters: doubles, cJSON, sds, curl.
-- Server, World: what the wrapper uses of PostgreSQL, as parameters: expression nodes, bitmap
-- sets, catalogs, hash tables.
-- Samples: concrete values for all of these, on which tests and examples run.
-- Api/Types: the structures of ocgeo_api.h. Api/Url: ocgeo_is_valid_latlng and
-- ocgeo_server_request_uri_impl. Api/Reply: parse_latlng, parse_response_json and
-- ocgeo_response_cleanup; Api/Reply/Shape says what a document of the service looks like.
-- Api/Path: str_to_maybe_int, get_json_field, ocgeo_response_get_str, _int and _dbl. Api/Request:
-- ocgeo_init, write_callback, do_request, ocgeo_forward, ocgeo_reverse. Api/Memory: what each of
-- these functions acquires and releases, as a list of events. All of ocgeo_api.c.
-- Limiter: TIMEVALDIFF, Counters and submitRequestWithRateLimiter in ocgeo_fdw.c. The readings of
-- the clock and the request itself are arguments. Limiter/Bucket holds the abstract token bucket,
-- which Scan/Session/Granted refines for each user.
-- Options: the table of valid options, ocgeo_fdw_validator, ocgeoGetOptions in ocgeo_fdw.c.
-- Stats: ocgeoGetCounters and ocgeo_stats in ocgeo_fdw.c.
-- Quals: canonicalOpExpr, extractClauseFromOpExpr, extractRestrictions, swapOperandsAsNeeded,
-- unnestClause and colnameFromVar, which nothing calls, in utils.c.
-- Scan: ColumnMappingHash, ocgeoBeginForeignScan, ocgeoIterateForeignScan, ocgeoReScanForeignScan,
-- ocgeoEndForeignScan, ocgeoExplainForeignScan in ocgeo_fdw.c. Scan/Session: a backend, whose
-- steps are these callbacks for any number of open scans in any order. A rescan has a plan of its
-- time, with the parameters and the clock read anew. Scan/Planned: a table from its plan to its
-- rows. Scan/Memory: what a scan acquires and releases.
-- Planner: ColumnList, ocgeoGetForeignRelSize, ocgeoGetForeignPaths, classifyConditions,
-- ocgeoGetForeignPlan, isAttrInRestrictInfo, clausesInvolvingAttr, findPaths in ocgeo_fdw.c;
-- Planner/Printing: printRestrictInfoList.
-- Setup: _PG_init, exitHook and ocgeo_fdw_handler in ocgeo_fdw.c; Setup/Query: a query through the
-- callbacks of the handler, from the first call of the planner to the end of the scan.
--
-- State is passed explicitly: counters, the hash table, the state of a scan and a response are
-- arguments and results. A pointer that may be NULL is an Option, and a dereference of NULL, a
-- write past an array, a read of memory that nothing was written to, a division by zero, and a
-- node that is read as one of another type (which a debugging build stops at and a release build
-- does not) are crashes: a crash is undefined behaviour, whether or not the process goes down.
--
-- Requests: a call of the service is given the queries that were sent before it and returns those
-- sent by then, the latest first. The limiter, a scan and a backend (Scan/Session) pass this list
-- on, and the requests of a scan are those by which it has grown.
--
-- Fuel: how many rounds the loop of the limiter may make is an argument; three are enough where
-- pg_usleep does not return before the time that was asked for. The server lets it return early on
-- a signal, and then more rounds may be needed, of which nothing is said. The statistics have one
-- call for each entry of the table and one for the end; the rows of a scan one call for each
-- result and one for the end.
--
-- Memory: a kind of block for each variable or field that holds one, and a count of those held.
-- What the server allocates is freed with its memory contexts and not counted, and neither is the
-- text that cJSON_PrintUnformatted returns, which the scan frees where it was printed.
--
-- Not modelled: cJSON and sds, copies of other projects; log output (but the text that
-- printRestrictInfoList makes for it); the server's Assert, which checks in debugging builds only;
-- the SQL scripts and the build.
pub mod Prelude
pub mod Foreign
pub mod Samples
pub mod Api
pub mod Limiter
pub mod Options
pub mod Stats
pub mod Server
pub mod Quals
pub mod World
pub mod Scan
pub mod Planner
pub mod Setup

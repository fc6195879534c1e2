-- ===== src/Lib.antt =====
-- Verification of revelt: server-side rendering of components by supervised Node processes behind
-- Go handlers, with the middleware packages for those handlers.
--
-- A render goes through Renderer.Render (renderer.go), which answers client-only components itself
-- and sends the others to the pool (pool.go); the pool chooses a slot in turn, replaces a dead worker
-- and delegates to the worker (worker.go), which multiplexes the calls over one process by ids. The
-- component map comes from the discovery of config.go. Handlers return errors to Adapt (app.go) and
-- are wrapped by the middleware; app.go also builds pages from several renders, serves the static files
-- and runs the server, and http.go has helpers for handlers. The command revelt (cmd/revelt) generates
-- components for that discovery and restarts the server while its sources change.
--
-- Files, with the code that they model:
--   Base, Text      shared names, lists, maps from numbers, and what is used of package strings;
--                   Text/Maps has the laws of maps from texts.
--   Protocol        protocol/wire.go: RenderRequest, RenderResponse.
--   Worker          worker.go. The state is the worker's fields, the store of pendingCall objects and
--                   the stage of each goroutine in render; step is one step of one goroutine, with
--                   register, write_request, leave for the parts of render, dispatch for dispatch,
--                   drain_pending for the end of readLoop. Reach is reachability by such steps.
--     Worker/Invariant, Worker/Held, Worker/Delivery   what holds in every reachable state.
--   Pool            pool.go: new_pool, close_range, stats, pick (the choice in render), and workerAt
--                   as fast and replace. A worker is any type with the three answers the pool asks
--                   for; newWorker is a function from the number of the attempt.
--     Pool/Lifecycle, Pool/Replace, Pool/RoundRobin   their properties.
--   Config          config.go: extract_mode, read_mode_annotation, discover (the walk's callback on
--                   the entries that fs.WalkDir visits). Config/Annotation, Config/Discovery.
--   Renderer        renderer.go: render, escape_html. Renderer/Escape, Renderer/Modes; the options and
--                   New in Renderer/Construction.
--   Http            what the handlers use of net/http: a handler is a function from the request and
--                   the header map to the calls it makes on its writer and how it ended; exec gives
--                   the response of such calls; adapt is Adapt of app.go. Http/Exec and
--                   Http/Handlers have its laws.
--   Middleware      one module for each package below middleware/. A wrapping writer is a function
--                   from each call to the calls on the wrapped writer. In Etag, `other` is what other
--                   requests have put into the pooled buffer; in Ratelimit a token is a billion units,
--                   the clock counts nanoseconds and the arithmetic is exact where float64 rounds;
--                   Ratelimit/Concurrent takes the calls apart.
--   Health          health/health.go, over the statistics of Pool.
--   App             app.go: the options, the construction, the middleware chain and the end of Run. A
--                   middleware is any function on handlers of some type.
--     App/Page      PageBuilder: the goroutines that render the slots end in the order of a list.
--     App/Probes    the health endpoints.
--     App/Routes    the registration of handlers, over the conflicts that http.ServeMux finds.
--     App/Static    the static handler and its gzip writer, over the calls of http.FileServer.
--   Command         cmd/revelt/main.go: validateConfig, the generate and the clean command.
--     Command/Init, Command/Build, Command/Update   the other commands, as the steps that they do on
--                   the disk and the processes that they run, over a record of what they call.
--     Command/Templates   cmd/revelt/template.go: the replacement of placeholders. Tokens has the
--                   templates as their authors mean them, Order the replacement of all at once.
--                   Config/Project has the configuration that they read, with LoadConfigFromFS.
--   Dev             cmd/revelt/dev.go: the watching loops by their ticks, and the restarting loop as steps
--                   on the command, the goroutines that wait for it and the buffers of both channels.
--                   Dev/Frontend has the Node watcher, and which files the watchers match; Dev/Hashes the
--                   frontend's watcher, over the hashes of contents.
--   Reader          what http.go uses of package io: a source is its bytes and then an error or none.
--   Json, Query, Upload, Download, Respond
--                   http.go, by its sections: DecodeJSON over a decoder that is called at an offset,
--                   SaveUploadedFile over a map from paths to contents, FormFiles over the handles that
--                   are open.
--   Examples        the theorems at concrete inputs.
--
-- Text is a list of code points. Ids and the cursor are uint64 and wrap at 2^64; theorems that need
-- them distinct say so by a bound on the number of calls. All loops run over a list or count down, so
-- no fuel is used. Header names are compared as they are spelled: every access in the modelled code
-- spells a header one way, and the canonical form of net/http is left out. A handler does not see the
-- results of its writes, so errors of the connection are left out. An informational status leaves the
-- response open; a switch of protocols (101) is taken as a status like any other, and theorems on
-- wrapping writers ask for statuses of 200 or above.
--
-- In Worker the lookup of dispatch and its send are one step, and so are the drain of the map and the
-- store of the read error. Times are arguments, in nanoseconds.
--
-- In CookieAuth the store is a parameter that reads and writes sessions; in Flash the message on the
-- request's context is an argument of the handler; in Logger the lines that go to slog are a result.
-- Http/Jar has the cookie that a client holds after some calls.
--
-- Not modelled: the choice of a route by the mux of app.go, ReadLines of http.go, the
-- operating system's side of processes and signals, the text of the embedded templates, what the
-- commands print, encoding/json, and the compressors (parameters with the law that
-- decoding inverts them).
pub mod App
pub mod Base
pub mod Command
pub mod Config
pub mod Dev
pub mod Download
pub mod Examples
pub mod Health
pub mod Http
pub mod Json
pub mod Middleware
pub mod Pool
pub mod Protocol
pub mod Query
pub mod Reader
pub mod Renderer
pub mod Respond
pub mod Text
pub mod Upload
pub mod Worker

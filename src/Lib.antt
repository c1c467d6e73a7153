-- ===== src/Lib.antt =====
-- dockerdynomesh: Traefik routes and certificates for the containers of a docker host.
--
-- The discoverer (cmd/discoverer) inspects the running containers, asks the certificate service
-- (internal/certgen, over internal/certclient) for a certificate that names their compose projects,
-- and then writes Traefik's dynamic configuration (internal/render) for those that can be routed
-- (internal/inspect). It does so at its start, and then behind each burst of docker's events. A third
-- service (cmd/welcome, internal/welcome) hands out the root certificate and a script that installs it.
--
-- Which file models which part:
--   Certgen/San.antt          internal/certgen/san.go: ValidateLabel is `validate_label`, SANs is `sans`
--   Certgen/Reissue.antt      internal/certgen/reissue.go: Reissue is `reissue`, currentSANs is
--                             `current_sans`; an error is a constructor, and the files are a function
--                             from paths, taken and returned
--   Certgen/Api.antt          internal/certgen/api.go: handleReissue is `handle_reissue`, handleStatus
--                             is `handle_status`, Routes is `serve`
--   Certgen/Server.antt       the same handlers as threads that take their steps in any order, under the
--                             mutex of Server: a step of a thread is `act`, what it does at its place
--                             is `move`, and `advance` is what Reissue does next
--   Certclient.antt           internal/certclient/client.go: New is `new_client`, Client.Reissue is
--                             `client_reissue`
--   Inspect.antt              internal/inspect/inspect.go: FromContainer is `from_container`, ProjectsOf
--                             is `projects_of`, LabeledMissingNetwork is `labeled_missing_network`
--   Render.antt               internal/render/render.go: Render is `render`, tmpl is `template`
--   Discoverer/Reconcile.antt cmd/discoverer/reconcile.go: reconcileWith is `reconcile_with`, reconcile
--                             is `reconcile`, listEligible is `list_eligible`; the calls that the
--                             reconciler makes are recorded in a trace; sanSummary and the line that is
--                             logged in front of a request stand in Discoverer/Reconcile/Summary.antt
--   Discoverer/Misconfig.antt logMisconfigIfNeeded is `log_misconfig`
--   Discoverer/AtomicWrite.antt  atomicWrite is `atomic_write`
--   Discoverer/Boot.antt      bootReconcile is `boot_reconcile`
--   Discoverer/Suffixes.antt  cmd/discoverer/main.go: parseTakeoverSuffixes is
--                             `parse_takeover_suffixes`
--   Discoverer/Debounce.antt  cmd/discoverer/debounce.go: newDebouncer is `new_debouncer`, bump is `bump`
--   Discoverer/EventLoop.antt run of cmd/discoverer/reconcile.go is `run`, its select is `step`
--   Discoverer/Subscription.antt  the filters of the two subscriptions of run
--   Discoverer/Start.antt     main of cmd/discoverer/main.go is `start`, envOr is `env_or`, envOrInt is
--                             `env_or_int`
--   Discoverer/System.antt    the reconciler over the client, the service, Render and atomicWrite, as
--                             main wires them; Discoverer/Certified.antt is the interface between the
--                             reconciler and the certificate that it relies on
--   Discoverer/Process.antt   main of cmd/discoverer/main.go as a whole: the start, then `run` over
--                             attempts to reconcile, each in the next of a list of worlds
--   Certgen/Start.antt        cmd/certgen/main.go and internal/certgen/install.go: main is `start`,
--                             InstallCA is `install_ca`; the calls to the operating system are a list
--   Welcome.antt              cmd/welcome/main.go and internal/welcome/handlers.go: validateConfig is
--                             `validate_config`, main up to its servers is `start`, Routes is `serve`,
--                             templates/install.sh.tmpl is `install_script`
--   Welcome/Serving.antt      main of cmd/welcome/main.go behind its listeners: the goroutines that
--                             serve and that shut down, the two wait groups and the signal; what the
--                             main goroutine does next is `main_step`
--   Text.antt, Files.antt     what the program uses of package strings, strconv, unicode and os
--   Prelude.antt              shared lists, sorting, integers and results; Examples.antt holds inputs
--
-- The child modules of these files hold the theorems; Discoverer/Coverage.antt relates host names to
-- the names of the certificate.
--
-- Texts are lists of code points. A Go map is an association list with distinct keys, in the order in
-- which a range visits it. A nil pointer is `none`. Times are nanoseconds. The loops are structural
-- recursions and need no fuel; printing a number takes its own value plus one as fuel, which is enough
-- since each step divides by ten, and `atoi` refuses what does not fit 64 bits.
--
-- Parameters, for code outside of the repository: mkcert, x509 with pem, filepath.Dir, os.MkdirAll and
-- the injected Rename (`Tools`), the JSON codecs, the docker client, `sort.Slice`,
-- `nat.Port.Port`, docker's test of an event against a filter, `net.Listen` (an address can be bound or not according to
-- those bound before it), the path cleaning of `http.ServeMux` and its redirect, how the other calls of
-- the certificate service's start end, and the Unicode table of `strings.ToLower` beyond ASCII. The
-- models of the reconciler and of the whole program take each handler of the certificate service as one
-- step on the files, which is what Certgen/Server.antt is about. The world changes between reconciles,
-- not within one.
--
-- An exchange between the discoverer and the certificate service is answered, or does not reach the
-- service, or loses its answer behind it, as by a timeout (`Link`); each reconcile of the whole program
-- meets one of the three. `in_doubt` notes that an answer was lost since the last one that told of
-- success: the service may have put a certificate on disk of which the discoverer does not know.
--
-- The event loop has its time in nanoseconds; what the select receives and the steps of the clock are
-- a list of moves, in any order that the timer allows. Whether `Stop` of a timer discards a tick that
-- waits in its channel depends on the version of Go, and is a parameter (`discards`).
--
-- For the certificate on disk, mkcert is assumed to write a certificate for the names it is given
-- where it succeeds, the codecs to read what was written, and the four paths to differ (`IsSound`).
--
-- The bound on the rounds of the certificate service's threads is nine for each request, since a request
-- takes nine steps at most and one thread at least can move in each round.
--
-- Not modelled: how long the boot waits between its attempts, the fatal log line of the discoverer's
-- main behind the return of `run`, what net/http does inside Serve and Shutdown, which return at any
-- time after they are called, requests to the pages by the method CONNECT or without a path,
-- html/template (the index page is a parameter), the parsing of the command line by package flag, the
-- text of log lines, and a client that is given another socket than the service (`Platform` has one
-- for both). Shell scripts, images and Traefik's static configuration are outside of the Go code.
pub mod Prelude
pub mod Text
pub mod Certgen
pub mod Inspect
pub mod Render
pub mod Files
pub mod Discoverer
pub mod Certclient
pub mod Examples
pub mod Welcome

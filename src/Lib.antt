-- ===== src/Lib.antt =====
-- external-dns-openwrt-next: an ExternalDNS webhook provider that keeps the `domain` and `cname`
-- sections of an OpenWrt router's dhcp configuration in step with the cluster.
--
-- The program, and the module for each part:
--   pkg/openwrt/types.go      records, their canonical spelling, key and checks: OpenWrt/Types
--   pkg/openwrt/index.go      the index of sections, and the search for a CNAME loop: OpenWrt/Index
--   pkg/openwrt/openwrt.go    reading sections (OpenWrt/Sections), and ApplyDNSRecords with the
--                             removal, the addition and the adoption of a record (OpenWrt/Apply)
--   pkg/ubus/ubus.go          errors (Ubus/Errors), one exchange (Ubus/Wire), sessions
--                             (Ubus/Session), and goroutines that share a client (Ubus/Threads)
--   New of pkg/ubus, pkg/openwrt and internal/provider
--                             the clients that a configuration makes: Setup
--   pkg/webhookapi/types.go, internal/provider/provider.go
--                             endpoints and their translation (Provider/Endpoints), AdjustEndpoints
--                             (Provider/Adjust), cancelOut (Provider/CancelOut), and the calls
--                             of a run, with router and tracker (Provider/Runs)
--   internal/provider/status.go, pkg/status/status.go
--                             the tracker behind the status mirror (Provider/Tracker and its
--                             Observe)
--   pkg/webhook/webhook.go    requests and answers (Webhook/Http), the four handlers (Webhook), what
--                             was dropped (Webhook/Dropped)
--   cmd/webhook/main.go, pkg/logger/logger.go
--                             the webhook over the provider (Webhook/Served), the order of the start,
--                             the choice of the logger and the end of the process (Main)
--   pkg/metrics/metrics.go    the registry (Metrics) and the text of a scrape (Metrics/Text)
--   pkg/router/router.go      the request counters, the probes and the shutdown (Router), the two
--                             servers and how they end (Router/Servers)
--   pkg/status/syncer.go      one pass over the mirror (Status/Syncer), the names of its objects
--                             (Status/Names), and Publish and Run side by side (Status/Queue)
--   pkg/status/client.go      the client and its requests (Status/Client/Wire), the calls of the
--                             Kubernetes API (Status/Client)
--   pkg/config/config.go      Read (Config) with strconv (Config/Parse), and the defaults of all the
--                             config.go files (Config/Defaults)
-- OpenWrt/Dnsmasq is no code of the program: it says with which records dnsmasq starts, and the
-- reconcile is proved against it. Strings, NetIp, GoMap, Sorting and Exec are the parts of Go and of
-- its standard library that the program calls, and Tally counts in a map. Fixtures, the modules
-- named Examples and OpenWrt/Apply/Trials are tests.
--
-- How the code is written here. A text is the list of its code points, since every text that reaches
-- the program was decoded from JSON and is valid UTF-8; `len` counts the bytes. Unicode's lower case
-- mappings past ASCII are data that the program links, and stand as the instance argument
-- `CaseTable`, with the facts about them that the code relies on. A Go map is an association list
-- whose order is the order of iteration. A function that returns an error is a step of `Exec`: the
-- state comes back beside the result or the error. Errors are the cases that the code tells
-- apart, those of the ubus client with their texts (less the user's name and the texts of other
-- packages); logging is left out. The field `record` of an indexed section is `dns`.
--
-- What is not under the repository is a parameter. The ubus client that pkg/openwrt calls is the
-- record `Client` over any state; Ubus/Session gives one, over a `Transport` that answers a request
-- in a session with what came back from HTTP. `rand.Text` is a field of the record `OpenWrt`. The
-- webhook's provider is a record over any world, with the one of Webhook/Served, and so are the
-- syncer's client, with Status/Client as one, and the `Platform` below that: files, HTTP, URLs and
-- JSON. JSON decoding (`Json`), float64 (`Float64`), SHA-256 in hexadecimal (`Digest`) and the
-- environment with upper case (`Environment`) are records as well, the last three taken as
-- instances.
--
-- State that goroutines share is kept in one of two ways. The registry's operations, and a change set
-- under `applyMu`, hold their lock from start to end and are one step each. Publishers and the writer
-- of the mirror interleave, and Status/Queue has a step for each access to what they share; so do
-- calls of one ubus client, and Ubus/Threads has a step for each method under its mutex and for
-- each exchange. The goroutines take their steps in the order of a schedule, which may be any.
--
-- What a router makes of the calls is assumed where a statement needs it: OpenWrt/Apply/Transaction
-- has what is documented of staged and applied uci changes, OpenWrt/Apply/Written that `uci add`
-- makes a section of the type and the options that it is given, and OpenWrt/Apply/Trials routers
-- that meet this. The index is followed through a pass, and not the sections of the router beside it:
-- no statement on the reconcile is about a second pass, which reads the router again.
--
-- Bounds. The worklist of `closesCNAMELoop` runs on fuel, 1 + n * (n + 1) rounds for n sections: the
-- target and the values of the sections are each expanded once, and an expansion pushes at most n
-- names. The loop over the groups of an IPv6 address runs on eight rounds, of two bytes each.
-- The digits of a number n are found in n + 1 divisions at most.
--
-- Not modelled: logging, signals and the goroutines of the process, how the mux and the
-- listeners of net/http work, the end of Run by its context, and a Reset beside other calls in
-- the statement on logins.
mod Prelude
pub mod Strings
pub mod NetIp
pub mod GoMap
pub mod Tally
pub mod Exec
pub mod Ubus
pub mod OpenWrt
pub mod Sorting
pub mod Provider
pub mod Metrics
pub mod Webhook
pub mod Config
pub mod Status
pub mod Router
pub mod Setup
pub mod Main
mod Fixtures

-- ===== src/Lib.antt =====
-- ble-usage-meter counts the uses of a Bluetooth device by the writes that are observed on its
-- link, and reports the counts, signed, to a backend that stores them and answers licence queries.
--
-- The gateway (gateway/*.py) matches each observed write against the rules of its configuration,
-- logs it, and counts it where a rule matches. Counts, log and a report sequence are in SQLite;
-- `report` signs one report per device and posts it. The backend (backend/*.py) verifies the
-- signature under the key that was registered for the device, refuses a sequence that is not new
-- and a count that has fallen, appends the report and moves the device's high-water marks; a
-- licence is decided from a policy row and the usage in a rolling period. Two tools make a
-- gateway's key pair and find the writes that are worth a rule in a capture.
--
-- Gateway.Counter models gateway/counter.py, Gateway.Signer gateway/signer.py, Gateway.Config
-- gateway/config.py from the parsed YAML on (Gateway.Config.Settings is `load_gateway`),
-- Gateway.Matcher gateway/matcher.py, Gateway.Store gateway/store.py, Gateway.Pipeline the class
-- Pipeline and `_load` of gateway/cli.py, Gateway.Reporter gateway/reporter.py with the reports of
-- one run, Gateway.Observer gateway/observer.py, Gateway.Proxy gateway/proxy.py, and
-- Gateway.Command the commands of gateway/cli.py: `cmd_report` in the module itself, `cmd_observe`
-- and `cmd_proxy` in Watch, `cmd_status` in Status, and `main` from the parsed command line on in
-- Main. Backend.Models models backend/models.py, Backend.Wire how a JSON object becomes one of its
-- models, Backend.Db the tables of backend/schema.sql, Backend.Migrate backend/db.py,
-- Backend.Verify backend/verify.py, Backend.App backend/app.py, Backend.Service the same endpoints
-- on the database file, which `get_conn` migrates for each request, and Backend.Policy
-- backend/policy.py; Backend.TimeText has the texts of times that the two share. Tools.Snoop models tools/parse_snoop.py and Tools.Keygen
-- tools/keygen.py. System puts parts of several programs together: the reporter's attempts and the
-- endpoint over a network that loses requests and responses (System.Once, System.Lost, and
-- System.Recovery for the window after), the JSON object that the one posts and the other reads
-- (System.Named, System.Accepted), a key pair from the tool to the gateway and the backend
-- (System.Provisioned), the proxy with the pipeline for its meter (System.Metered), runs of all
-- commands one after the other on the same tables (System.Commands), and those runs with the
-- requests that reach the backend (System.Billing).
--
-- The functions have the names of the source; what a function of several statements does after each
-- of them is a definition of its own (`logged`, `counted` and `saved` of `handle`; `post_verified`
-- and `store_report` of `post_report`; `with_counter`, `with_key` and `run_all` of `cmd_report`).
-- The child modules hold the proofs, named for what they prove, and Tests the examples.
-- Backend.Example is their data.
--
-- State is passed explicitly. A function that can raise returns a `Result` with the class of the
-- exception; where a statement raises after others have written, what those wrote is in the state
-- that is returned. Each statement of the gateway's store is its own transaction; `post_report`
-- writes both of its rows or none; a migration can be broken off after any statement.
-- Gateway.Pipeline.Runs also has processes that are killed after logging and start again;
-- Backend.App.Concurrent has threads whose transactions come between another thread's verification
-- and its transaction.
--
-- Integers are unbounded, as in Python, and what does not fit in 64 bits raises where the source
-- packs or binds it. Texts are lists of code points and bytes lists of numbers. Common holds what
-- the source uses of the standard library: UTF-8, base64, big-endian packing, dicts, the proleptic
-- calendar with `isoformat`, `strftime` and `date.fromisoformat`. A datetime is the reading of its
-- clock and its offset. The loops are structural recursion; only the month of a day is found on
-- fuel, and the twelve months of a year are as much as it needs, and the records of a capture are
-- read with as many turns as the file has bytes, of which each takes 24 or more. A file system is a
-- dict from absolute paths to entries, without links.
--
-- Code of other packages is a parameter: Ed25519 (Common.Ed25519 states what is relied on, and
-- gives an instance), pydantic's conversions of JSON values (Backend.Wire), the reading of PEM and
-- YAML files, home directories, `git rev-parse`, and what comes of a request or of a call of the
-- Bluetooth stack. The HTTP server that a report is posted to is a function from the number of the
-- attempt to what comes of it; System makes that function from the endpoint. System.Lost and
-- System.Once post a report as the endpoint has parsed it; System.Named has the object that is
-- posted in fact.
--
-- Not modelled: how argparse reads a command line, logging, and the layout of what is printed;
-- scanning for devices; the clock's text in backend/db.py and its PRAGMAs; and the firmware, which
-- has the gateway's parts again in C++. `str.lower` is modelled on ASCII letters and `int` of a
-- text on ASCII digits; a prefix length or a number of rows in tools/parse_snoop.py is a natural
-- number. The characteristics of an observed device have different pairs of UUIDs. How a run of
-- `observe` or `proxy` ends, by Ctrl-C or by what a call of the Bluetooth stack raises, is a
-- parameter (`Await`), and so are the notifications and the writes that reach it until then.
pub mod Common
pub mod Gateway
pub mod Backend
pub mod Tools
pub mod System

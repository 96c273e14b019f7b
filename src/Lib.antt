-- ===== src/Lib.antt =====
-- A model of the SafeHarbor server (src/safeharbor/server and src/safeharbor/apitypes): its object
-- store, access control lists, sessions, the access decision, users, groups, realms, and the
-- handlers that authenticate a request and change users, groups and permissions, verify email
-- addresses or delete what a repo owns.
--
-- The program. Server passes a request to Dispatcher.handleRequest, which makes an InMemClient, runs
-- the handler with the name of the request (Handlers.go), and commits or aborts. A handler calls
-- authenticateSession and authorizeHandlerAction (HandlerUtils.go), which ask AuthService (auth.go),
-- and then operations of InMemClient and of the object types (InMemory.go). InMemClient keeps the
-- request's caches in front of Persistence, which keeps what outlives the request.
--
-- The files.
--   Store: InMemClient's caches and Persistence's maps with InMemoryOnly set, as one record Store;
--     the operations are actions, functions of the store to a result (a value, an error or a panic)
--     and a store. Store/Objects has the object types, Store/Monad the actions, Store/Client the
--     operations on single objects. Store/View (what is found under an id), Store/Places, Store/Runs and
--     Store/Steps (runs that go well), Store/Reads (what only reads) and Store/Fresh (ids) are what
--     proofs about actions build on.
--   Acl: entries and the operations setAccess, addAccess, deleteAccess and their kin.
--   Auth: masks, session ids and the session map, partyHasAccess and authorized. Auth/Rules states
--     as relations the access rules, by an entry for a resource or its parent, and the documented ones,
--     by an entry for any owner, which are wider; Auth/Spec is the decision on the view of the store
--     alone, between the code and the access rules.
--   Parties, Realms: InMemParty, InMemUser, InMemGroup, InMemRealm, and the creation of objects;
--     Parties/Logins, Membership and Joining and Realms/Deletion and Failure have the proofs.
--   Contents: what a repo owns, and the events. Contents/Find has the getters and the searches by name,
--     Create, Link, Parameters and Remove the operations; Names, Adding, Refusal and Kept the proofs.
--   Handlers: the parameters of a request, the checks of a session and of an action (Identity), the
--     handlers, and handleRequest (Dispatch); Gate, Guarded, Removal, ReadOnly, Entrance and Transactions
--     have the proofs.
--   Email: EstablishEmail.go (Establish), the handlers that use it (Requests) and the proofs (Tokens).
--   Json: the text of persistent objects in the redis mode. Json/Tokens, Simple and Parse are the parser
--     of DBjson.go, functions of the bytes from the position on (Json/Reader); Json/Reconstitute is
--     ReconstituteObject of Persistence.go, Json/Methods the Reconstitute methods and Json/Print the
--     asJSON methods of InMemory.go. Json/Ends and RoundTrip have the proofs.
--   Base: names of the libraries, tests on numbers, lists and maps. Utilities: the package that is
--     a submodule. Tests: concrete runs.
--
-- The correspondence. A definition has the name of its function in lower case with underscores; the
-- comment above it names the function where the names differ. A string that is only compared is a
-- number, 0 for the empty one (Store/Objects); a session id is its list of bytes. A pointer to an
-- object is the object's id: in this mode no two structs share one. A write through a pointer
-- changes the heap at once, as in Go, whether or not the object is written back. Log output and the
-- texts of errors are left out; a FailureDesc keeps its HTTP status.
--
-- Outside the model's code, as parameters: the salted hash, the packages utilities, rest and docker,
-- url.QueryUnescape, the JSON of time.Time (with rest, the record Codec), the bytes of the numbered
-- strings (Spelling), which strings Sanitize lets pass, whether an email is sent, and the file system.
--
-- Taken as given: the counter of ids, an int64, does not overflow; the functions of utilities return
-- lists and do not shift those that they are given, where loops of InMemory.go may run over one.
--
-- Bounds and fuel. decimal_text produces a digit for each round of fuel; n has at most n + 1 digits,
-- which is the fuel. A value that parseJSON reads has fuel for two calls for each byte and two more,
-- the fields one for each byte and one more: every call but that of an array comes after a token. Every
-- other loop runs over a list. The clock of a request is one instant,
-- and login times are its whole seconds.
--
-- Not modelled: the redis mode beyond its JSON text, the creation of events, most handlers that post
-- files, build, scan or describe what a repo owns, the server's start and configuration, and the JSON
-- that is sent. GoRedis is another project's.
-- Requests are run one at a time.
pub mod Base
pub mod Store
pub mod Utilities
pub mod Acl
pub mod Auth
pub mod Parties
pub mod Realms
pub mod Handlers
pub mod Contents
pub mod Email
pub mod Json
pub mod Tests

-- ===== src/Lib.antt =====
-- my-eink-library: the core of a small library server for e-readers, src/internal.
--
-- The program keeps SQLite databases behind Go packages and serves them over HTTP. Modelled
-- here are its accounts and permissions, the sessions that sign requests in, the settings, the
-- index of books with its scans, merges, enrichment and listings, the choice of what a provider
-- says of a book, the shelves of books, and the queue of background tasks:
--
--   Users/        internal/users: accounts.go (Accounts, Listing), permissions.go (Permissions),
--                 tokens.go (Tokens), settings.go and credentials.go (Settings). The rows are in
--                 Users.antt: Store holds the tables users and user_permission_overrides.
--   Auth/         internal/auth: session.go (Session), middleware.go (Middleware).
--   Shelves/      internal/index/shelves.go: names and slugs (Slug), creating, renaming, sharing and
--                 deleting (Manage, Members), what a user sees (Visible), the books (Contents). Db
--                 holds the tables shelves, shelf_books and shelf_members.
--   Library/      internal/index, the books: scan.go (Files, Prune, Scan), dedup.go (Files, Merge),
--                 enrichment.go (Patch, Status, Enrich), queries.go (Like, Filters, Queries), db.go and book.go
--                 (Library.antt, Scan). Index holds the tables books, book_locations, book_enrichment
--                 and shelf_books. Sound says when they fit together; Steps are the calls in the order
--                 of their arrival.
--   Provider/     internal/hardcover/search.go (Hardcover) and internal/chaptarr/match.go (Paths): which
--                 search result is the book, and which book of a catalog a file belongs to.
--   Epub/         internal/epub/opf.go: the metadata of a book from its OPF document, which a scan takes as
--                 a parameter (Epub.antt).
--   Tasks/        internal/tasks/tasks.go: the store of runs and the loop of the worker (Queue),
--                 the registry of tasks (Registry), the summaries and services (Services). TaskDb holds
--                 the table task_runs. A turn of the loop takes what handlers return, and the calls on
--                 the store made beside it between claiming a run and ending it, as a list of events.
--   Encoding/     what sessions use of strconv, strings and encoding/base64: numbers in decimal,
--                 SplitN, and base64 in its URL form without padding; and the UTF-8 bytes of a text.
--   Common/       texts, tables as lists of rows with SELECT, COUNT, UPDATE and DELETE, and sorting.
--
-- A function of the model has the Go function's name in snake case. A text is the list of its code
-- points, so strings that are not UTF-8 are left out; what sessions sign, and the errors of tasks, are
-- lists of bytes. A method takes the tables last and returns its result beside the new tables; a call
-- that fails returns an error value and the tables as the code leaves them. The clock is an argument
-- (Unix seconds, for tasks milliseconds), and so is what the random source gave. The middleware asks a
-- session who the user is (Auth.Session), and the permissions what the user may do
-- (Users.Permissions), on the Store of the moment of the request.
--
-- Parameters stand for code outside the repository: Bcrypt for golang.org/x/crypto/bcrypt, of which
-- only is asked that a password fits the hash made from it; mac for HMAC-SHA256 under the secret of
-- the server, of which is asked where stated that it gives bytes; beyond for what strings.ToLower
-- does beyond ASCII (beyond_upper for ToUpper); saver for the CoverSaver of a scan; fold_eq for
-- strings.EqualFold; split_re and parse_float for the regular expression that separates authors and
-- for strconv.ParseFloat. A walk of filepath.WalkDir is the list of its entries, each with what
-- os.Stat and epub.ParseFile give. The flag foreign_keys of delete_user and of the index says
-- whether SQLite enforces ON DELETE CASCADE, which the connection strings do not ask for; a theorem
-- that takes it holds for both. A float is given by its bits, and is not NaN. What the queries use
-- of SQLite is written out: LOWER and TRIM, LIKE with and without ESCAPE, COALESCE, and NULL as
-- none.
--
-- Bounds: the loop of shelfSlug has as much fuel as there are shelves and one more, which is enough
-- while the numbers fit an int64. An expiry is printed and read as an int64, where stated.
--
-- Not modelled: failures of the database driver, opening databases and migrating old schemas, HTTP
-- parsing and templates, ZIP and XML of EPUB files and their covers, KEPUB files, mail, thumbnails,
-- the requests to Chaptarr and Hardcover and the decoding of their answers, the file watcher's
-- timers, ListAuthors, and how goroutines wait for each other.
mod Common
pub mod Encoding
pub mod Users
pub mod Auth
pub mod Shelves
pub mod Tasks
pub mod Library
pub mod Provider
pub mod Epub

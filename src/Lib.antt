-- ===== src/Lib.antt =====
-- A model of kyb, the server of a knowledge base with incidents and tasks, and theorems about it.
--
-- The parts, and the files of the repository that they are about:
--
-- Auth (`src/auth.rs`): who may do what. `Auth.antt` has the roles, the need of a route, the
-- decision on a request and the settings of the environment; `Auth/Book.antt` the book of
-- principals and their tokens; `Auth/Cached.antt` the copy of the book that the server holds and
-- reloads when the file's modification time changes. A decision asks the book that is in force
-- for the actor of a token. `Auth/Attribution.antt` has whom a commit names, in its author and in the
-- trailers of its message. `Auth/Decisions`, `Adding`, `Revoking` and `Keeping` hold the proofs.
-- SHA-256, the random source, the clock and the JSON parser are parameters.
--
-- Semantic (`src/embed.rs`): the vectors of the entries. `Semantic/Tickets.antt` has the
-- generations under which vectors are awaited and installed, `Semantic/Steps.antt` the
-- interleavings of writes, deletions and rebuilds with vectors that land late, and
-- `Semantic/Cache.antt` the cache on disk with its format, byte by byte. The embedding model, which
-- can fail, and the hash of a text are parameters; a float is its 32 bits. A hash of 20 bytes cannot
-- tell all texts apart; what is shown of the cached vectors asks it of the texts in use.
--
-- Secrets (`src/model.rs`, `secret_res` and `find_secret`): the scan for credentials, with the
-- regex engine as a parameter. The rules of a deadline call it.
--
-- Deadline (`src/deadline.rs`): `Deadline.antt` has the fields of a deadline, what is accepted and
-- how a request changes them; `Deadline/Items.antt` the lateness of a task, the order of tasks and
-- the block that a response carries. A date is the number of its day and an instant the number of
-- its second; what chrono parses is a parameter.
--
-- Entry (`src/model.rs`, `Entry`): `Entry.antt` has the fields and what is asked of an entry's kind
-- and status, `Entry/Validation.antt` the checks of `validate` in their order, with those of the
-- deadline and the scan for secrets, and `Entry/Comparing.antt` the test whether a write changes
-- anything. `Entry/Markdown.antt` has the file of an entry: a front matter, whose YAML is a
-- parameter, and the body. `Entry/Accepted`, `Entry/Lifecycle` and `Entry/Reading` hold the proofs.
--
-- Diff (`src/model.rs`, `line_diff`): what changed between two bodies, by a table of longest common
-- subsequences or, beyond 2000 lines, by counts.
--
-- Keys (`src/model.rs`, `key_shape`, `edit_distance_within`, `similar_keys`): the existing keys that
-- the author of a new one should see. The cap for a length, a product of floats, is a parameter.
-- `Keys/Distance` and `Keys/Similar` hold the proofs.
--
-- Brief (`src/brief.rs`, `src/brief_api.rs`): what is live. `Brief.antt` has the scope, the ranks and
-- the orders of rows, `Brief/Sections.antt` how the endpoint makes the sections of incidents, work
-- and deadlines from the hits of the index; `Brief/Qualifying.antt` says apart from the code which
-- incidents are reported, in which order and with what, `Brief/Orders` holds the proofs. The index is the list
-- of hits, and the store's answer whether an entry is archived is a parameter.
--
-- Links (`src/links.rs`): what entries point at. `Links.antt` has the links of a body, the edges of an
-- entry and the index that is built from the tree and the archive, its maps as functions, in which
-- a missing key has no brief and no edges; `Links/Outgoing`, `Reversed` and `Rows` hold the proofs.
-- The matches of a regular expression are a parameter.
--
-- Store (`src/store.rs`): the entries as files. `Store.antt` has the paths of a key and the operations
-- `get`, `upsert`, `delete` and `archive` over an interface for the working tree and git, in which
-- each call can fail: a write, which makes the directory of the file as well, gives what it leaves, and the
-- state after another failure is that of the step before; `Store/Writing.antt` names
-- what is asked of the files, and `Store/Memory.antt` has a repository in which it holds. A
-- failure of git after a file was written or removed leaves the tree so, as in the code.
-- `Store/History.antt` has the index of all versions, which is extended by the commits since,
-- `Store/Served.antt` the one that the server holds (`AppState::history_index` of `src/main.rs`), and
-- `Store/Walk.antt` the walk over the versions and the retractions of knowledge. A history is a list
-- of commits, each with one parent, as the service makes them, and with what git's diff says of its files.
-- `Store/Effects`, `Removing`, `Paths` and `Extending` hold the proofs.
--
-- AsOf (`src/index.rs`): what is current at an instant. `AsOf.antt` numbers the documents of the walk
-- as a rebuild does and decides by the numbers and the retractions which version of a key is
-- current; `AsOf/Commits.antt` has the content of a key in the tree after a history, against which it is
-- held. `Numbers`, `Snapshot`, `Following` and `Instants` hold the proofs.
--
-- Service (`src/main.rs`): the routes that write. `Service.antt` has the stored version of a key and the
-- stamps; `Service/Parents.antt` the walk along the parents of a task; `Service/Requests.antt`,
-- `Building.antt` and `Moving.antt` what each route builds under the writer's lock, of its request and of
-- the versions that the store and the history give; `Service/State.antt` and `Commit.antt` the locked
-- section itself, which validates (Entry), checks the parents, writes (Store), tells the index,
-- archives what is closed (Store) and counts the generation of the history; `Removal.antt` the route that
-- retracts knowledge and archives the rest. What is read of the history in git
-- and the writer of the index are interfaces (a call of the index that fails gives the state that it
-- leaves); the ticket that is drawn before the lock is dropped is
-- in Semantic. `Forest`, `Timeline`, `Closing`, `Transitions`, `Landing`, `Writes`, `Refusals`
-- and `Removals` hold the proofs.
--
-- Common: lists, texts (a text is the list of its code points), results, integers, orders and
-- stable sorting.
--
-- Bounds: the 64-bit generation counter of the tickets has its limit written out, and a step that
-- would pass it is none; the counters of the server wrap around; a word of the cache file is below 2^32 where a theorem needs it.
-- The walk along the parents of a task, `climb`, runs on fuel: with one round more than there are
-- keys with a stored version it ends, since it stops at a key that it has seen. Every other loop
-- is a recursion on a list.
--
-- Not modelled: the migration of old layouts, the schema, queries and ranking of tantivy,
-- the inference of candle, HTTP and MCP glue, the knowledge that a brief reports as changed
-- or retracted, the places of incidents, exports and pages, the file locks and the text of messages.
pub mod Common
pub mod Auth
pub mod Semantic
pub mod Secrets
pub mod Deadline
pub mod Diff
pub mod Entry
pub mod Brief
pub mod Keys
pub mod Links
pub mod Store
pub mod Service
pub mod AsOf

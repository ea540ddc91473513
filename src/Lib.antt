-- ===== src/Lib.antt =====
-- A model of ragamuffin, a memory server for agents: it splits the files of a vault into chunks,
-- stores their vectors with a payload, and answers queries over chunks and facts.
--
-- Which file models which part:
--
-- Base: numbers, tests, lists. Text: Go strings as sequences of runes, with the functions of the
-- packages strings and unicode/utf8 that the program calls (TrimSpace, Fields, Split, Index, Join,
-- HasPrefix, ValidString).
-- Chunker: internal/chunker/chunker.go and internal/tokenutil/tokenutil.go. ChunkFile is
-- `File.chunk_file`, chunkMarkdown and chunkPlain are in `Split`, enforceMaxTokens and
-- splitSentences in `Limit`, extractLinks in `Links`, extractFirstParagraph in `Paragraph`. A Go
-- string is taken to be valid UTF-8. The loop over words of enforceMaxTokens is on fuel; as many
-- rounds as the text has words are enough for every limit but 1.
-- Store: internal/embeddedstore/store.go and facade.go, with the getters of
-- internal/qdrantutil/payload.go. `Payload`, `PointId`, `Vector` are the encodings, `Filter` is
-- filterMatches, `Table` the SQL statements on one table, and `Database` the operations: Upsert,
-- GetPoints, the deletions and counts in `Points`, Scroll and ScrollFiltered in `Scroll`, Search in
-- `Search`. A database is a value; a failure of SQLite is not modelled. A float is its bit pattern,
-- and the arithmetic on floats is the parameter `Floats`.
-- RateLimit: internal/ratelimit/ratelimit.go. SetLimit and Allow are `set_limit` and `allow`; amounts
-- are exact, in parts of a token, where the code has float64, and the time to retry at is left
-- out. The mutex makes a call one step.
-- Auth: internal/auth/auth.go and apikey.go. Modes, claims and the middleware are in `Auth`, the static
-- keys in `ApiKey`; the environment is an argument. `Jwt` is internal/auth/jwt.go: the cache of keys of
-- GetJWKS, parseJWK, and Authenticate, over the answers of the package golang-jwt and of the address of
-- the keys, which are parameters.
-- Retrieval: internal/retrieval/rerank.go (`Rerank`) and the fusion of ranked lists of
-- internal/retrieval/retrieval.go (`Fuse`). The answer of the language model is an argument.
-- Extraction: CooldownTracker of internal/extraction/cooldown.go.
-- Pruner: parseVersionedKey and supersedeKeyPattern of internal/pruner/supersede.go, as the list of
-- facts that are marked.
-- Events: uuidV7 of internal/events/events.go (`Uuid`), and the broker of internal/events/broker.go
-- (`Broker`); a channel is a bounded buffer.
-- Indexer: indexFile and fullReindex of internal/indexer/indexer.go, and internal/indexutil (`Path`). The
-- store is the interface `FactStore`, which the embedded store fills; files, the embedding service and
-- the hash of point ids are the record `World`. `Manager` is internal/indexer/manager.go, the registry
-- of vaults.
-- Graph: the weighted graph of internal/graph/community.go, as DetectCommunities builds it of the
-- entities and edges of a vault, with denseLabels and aggregate. Its weights are whole numbers, as the
-- code's are below 2^53. `Louvain` is louvainOnePass, with the float operations of the gain as the
-- parameter `Gains`, and `Levels` is louvain.
-- Server: the handlers of facts and of their review, internal/server/facts.go and review.go, over a store
-- that is a parameter (`Contract` has what is relied on of it, and a store that keeps to it). A write
-- that fails may have changed the store. Whether the second read of handleFactsPost comes through is an
-- argument. `Facts` is
-- handleFactsPost, `Facts.Update` handleFactsPut and handleFactsDelete, `Facts.Patch` handleFactsPatch,
-- `Version` the versioned keys, `Older` supersedeOlderVersions, `Migration` migrateFacts, `Recall` the
-- stamps of recalls and reconsolidation, `Review` handleReviewPost, `Review.Reasons`
-- pointToReviewEntry. A request reads the clock once, and RFC 3339 is a parameter of the settings.
--
-- Not modelled: the other HTTP handlers and the MCP handlers, the clients of Qdrant, embedding services
-- and language models, git, file watching, logging, and the program's wiring, which are input and output.
-- OIDC, the link index, the sending of events over HTTP, the store of the graph, the log store,
-- consolidation and configuration are left out too.
--
-- A loop of the program is recursion on the list or the text that it runs over. Six loops are on
-- fuel. Of two no bound is proved, and running out is a result of its own: the rounds of louvainOnePass,
-- `pass_not_over`, and the pages of the migration, `out_of_fuel`, whose end depends on how the store
-- pages. The others are the words of enforceMaxTokens, with as many rounds as there are words; the
-- batches of a file, with as many as it has chunks; the pages of a client's scroll, with one more than
-- there are rows; and the levels of louvain, with one more than there are nodes. Each of these is
-- proved to be enough. The decimal forms of numbers take 20 digits, enough for a uint64.
pub mod Auth
pub mod Base
pub mod Chunker
pub mod Events
pub mod Extraction
pub mod Graph
pub mod Indexer
pub mod Pruner
pub mod RateLimit
pub mod Retrieval
pub mod Server
pub mod Store
pub mod Text

-- ===== src/Lib.antt =====
-- A model of the core of slang-server, a language server for SystemVerilog, and theorems about it.
-- Paths are from the repository's root.
--
-- The program's parts. A reader thread takes JSON-RPC messages from the input and queues them, and
-- a worker thread handles them in order (include/lsp/JsonRpcServer.h); a cancellation skips the
-- queue and reaches the worker through the flags of a request's context
-- (include/lsp/RequestContext.h). The handlers pass the notifications about documents to a driver
-- (src/ServerDriver.cpp), which keeps the documents, binds a file that is only included by others
-- to its owners, and finds the trees that an analysis needs through an index of the workspace
-- (src/Indexer.cpp); a document holds the editor's text and edits it (src/document/SlangDoc.cpp).
-- They turn slang's diagnostics into messages to the editor (src/ServerDiagClient.cpp) and build
-- the texts of their answers: snippets (include/lsp/SnippetString.h), Markdown
-- (src/util/Markdown.cpp), tidied declarations (src/util/Formatting.cpp), completions of system
-- tasks (src/completions/SystemTaskCompletions.cpp) and URIs (src/lsp/URI.cpp).
--
-- Which file models which part. A definition has its function's name in snake case, and takes the
-- object that the function changes as an argument and gives it back.
--
-- - Base and its children: numbers, lists, bytes and decimal numerals. A char is a number below 256
--   and a std::string a list of them (Bytes) where its characters are looked at; elsewhere it is a
--   String.
-- - MultiMap: std::unordered_map from names to vectors, as a list of entries; no theorem depends on
--   the order of the entries.
-- - Rpc.Defs: contexts, their flags and the two maps under cancellationMutex. Rpc.Replies:
--   processMessage and handleMessage, a handler being a parameter. Rpc.Loop.Defs: run, as a state
--   with one step function for each thread; a worker's step is the taking of a message, its start,
--   or its end, with any outcome of the handler, so that the reader's steps fall between. A run is
--   any sequence of these steps (Rpc.Loop.Runs).
-- - Indexer.Defs: the index, its updates and queries; what the parser finds in a file is a
--   parameter. Indexer.Consistency and its children: what the index must hold for the files that
--   are recorded in it.
-- - Indexer.Collect: which files are indexed, a file system being a tree. Indexer.History: the
--   index against a map from files to the entries of their last texts. Indexer.Offers and
--   Indexer.Queries: what the queries find, said of the texts.
-- - SlangDoc.Defs: onChange, reloadBuffer and textMatches on the text of a buffer with its NUL;
--   computeLineOffsets of slang is a parameter, of which the theorems use that a NUL at the end of
--   a text starts no line. An edit that passes the end of the buffer is a result of its own.
--   SlangDoc.Splices and SlangDoc.Edits: the edits as changes of the text. SlangDoc.Protocol: the
--   protocol's reading of positions, in UTF-16 units of a line, where that and the reading in bytes
--   agree. SlangDoc.Fragments, SlangDoc.Union and SlangDoc.Perspectives: the diagnostics of an
--   include fragment, from the trees and analyses of its owners.
-- - Driver.Trees: what is read of a syntax tree. Driver.Dependencies and its children:
--   getDependentTrees, whose loop recurs on fuel, one round for the tree and one for each location
--   of a symbol in the index; what getDocument gives for a file is a parameter there, and its
--   exception for a file that cannot be read is left out.
-- - Driver.Documents, Driver.Opening and Driver.Handlers: the documents with their owners,
--   openDocument, and the notifications; the reload that SlangServer.cpp starts where a
--   configuration or build file changed is left out. A document is a position of a store. The
--   record World holds what slang, the source manager and the file system give: the texts and
--   parses, among them those that the buffers synced into an owner lead to, and the files whose
--   documents an analysis asks for. What is put into an owner's buffer is an entry of the log. A
--   file can be read whenever it is asked for, and an analysis is not cancelled between its parts;
--   a change that is superseded is. The recursion of analyzeDocument along the owners recurs on
--   fuel. Driver.Owners gives ranks that fall from a document to its owners, which bound it, and
--   says when a state is well-formed; Driver.Making, Driver.Binding, Driver.Known and
--   Driver.Buffers are about the steps that make, bind, find and edit documents, Driver.Refresh,
--   Driver.Adoption, Driver.Adopted, Driver.Opened, Driver.Saving, Driver.Watching and
--   Driver.Serving about the operations that analyze them, and Driver.Fuel about runs that end with
--   any fuel that is enough.
-- - Diagnostics.Defs: the client, whose messages to the editor are a list; slang's engine and
--   source manager are the record Engine, a parameter. Diagnostics.Locations: what getLocation
--   shows; the order of slang's source locations, by buffer and then by offset, is written out.
--   Diagnostics.Sync says what the editor shows.
-- - Snippet.Defs, and Snippet.Reader, which reads snippets by the grammar of the LSP specification;
--   Snippet.Numbering, what a history of appends writes.
-- - Uri.Codec and Uri.Layout: percent-encoding, and the text of a URI with the spans of its parts;
--   the branches for Windows are left out, and the regular expression matcher is a parameter.
-- - Markdown.Escape, Markdown.Paragraph, Markdown.Document; Markdown.Reading, Markdown.Blocks and
--   Markdown.Spans describe what CommonMark reads in the result.
-- - SystemTasks.Text, SystemTasks.Signature and SystemTasks.Completion:
--   src/completions/SystemTaskCompletions.cpp, from the text of a task's signature to its snippet;
--   the character classes of slang are parameters. Positions in a text are the rests of the text.
--   The two loops of stripOptionalArgMarkers recur on fuel, the length of the text: each round
--   takes a byte off.
-- - Formatting.Defs: src/util/Formatting.cpp, the functions on plain text. Formatting.Spaces says
--   what a line with its runs of spaces made one is.
-- - The modules called Samples run the definitions on small inputs and apply the theorems there.
--
-- Integers are natural numbers: the counters of contexts, tab stops and positions are far below the
-- width of their types. Each other loop recurs on its list, and the two threads are a relation on
-- states.
--
-- Not modelled: logging, sockets and files, the registration of routes, what the handlers compute
-- with slang (which is a submodule), the other completions, the building of a compilation, the
-- definitions, references and renames found in it, the hierarchy views, and the plugins for the
-- editors under clients/.
pub mod Base
pub mod Diagnostics
pub mod Driver
pub mod Formatting
pub mod Indexer
pub mod Markdown
pub mod MultiMap
pub mod Rpc
pub mod SlangDoc
pub mod Snippet
pub mod SystemTasks
pub mod Uri

-- ===== src/Lib.antt =====
-- Verification library of fastlint, a linter for JavaScript and TypeScript in C++.
--
-- The linter parses a file into a grammar tree, lowers it, runs rules over it and reports problems
-- that directive comments do not suppress; for rules with types it talks to a server over a pipe, in
-- frames that hold JSON. Modelled are the parts of that path which carry its own logic:
--
-- - Base: Boolean tests, lists and texts on native numbers, which every other module uses.
-- - Syntax, source/fastlint/syntax/tree.h and tree.cc: Tree is the builder of the grammar tree
--   (beginNode, addChild, endNode are begin_node, add_child, end_node on a record of the vectors), and
--   Lines is lineOf. The parser calls the first, the scanner fills the line starts. Scanner is
--   scanner.h and scanner.cc with tokens.h, tokens.cc and tokens.def: the parent has the members that
--   reading changes and the character helpers, Loop the loops over the position, Skip is skipTrivia,
--   Words identifiers and keywords, Numbers, Strings, Templates (with JSX and regular expressions) and
--   Punctuation the routines of those names, Run is scanOne and Run.Rescan the rescans, state, rewind
--   and scanAll; Moves is about how they move the position, and Run.Lined hands the line starts that
--   scanAll leaves to lineOf.
-- - Lint, source/fastlint/lint/: Registry is registry.cc (rules by name), Text and Directives are
--   directives.cc (Collect is collect and addDirective, the parent module is advance and suppressor),
--   Glob is glob.cc. A directive finds its rule in the registry and its line by lineOf. Regex is the
--   matcher of regex.cc; of its children Escape, Quantity, Bracket and Compile are the compiler.
--   Schema is option_schema.cc, validate and, in Options, validateOptions over the values of JSON.
--   Columns and Messages are utf16Column, utf16Offset and interpolate of linter.cc, by which a report
--   gets its column and its text.
-- - Ast, source/fastlint/ast/: Node is what precedence.cc reads of node.h and its kinds, Levels and
--   Precedence are precedence.cc (expressionPrecedence, startsWith, needsParens), which the printer asks.
--   Fixpoint is runToFixpoint of fixpoint.cc, the loop of parsing, fixing and printing a file.
-- - Types, source/fastlint/types/type_graph.h and type_graph.cc: Hasher is the hash, Graph the interning
--   of texts, symbols and types with its indices. What the server says of types is kept there.
-- - Cache, source/fastlint/cache/closure.h and closure.cc: Paths is joinPath and dirOf, Resolve is
--   resolveImport, Graph is ImportGraph (setFile, file, closureHash), Freshness is lookup and
--   commitFile of FileCache. A file's results are kept as long as the hash over the files that it
--   imports stays.
-- - Rules, source/fastlint/rules/flow.cc: Flow is completesNormally with its walks for jumps; its
--   child Semantics says what runs of a statement are.
-- - Tsgo, source/fastlint/tsgo/: Msgpack is msgpack.cc (the frame), Json is json.h and json.cc (Strings,
--   Numbers and Parse are the parser, Value the accessors, Writer is JsonWriter).
--
-- A vector and a string are lists, a byte is a number, and uint8_t casts keep their remainder. A
-- function that changes an object takes its state and returns the new one; a mutable position in a
-- text is the text that is left. A map by hash is a table, the newest entry first. An error keeps its kind, where the source keeps a message.
--
-- Fuel: the parser of JSON has three units for each byte of the text, since a byte that is passed is
-- met by at most three calls; a string has one for each byte; the search of a line has one for each
-- line, as its interval shrinks in every round; and the expansion of groups in a glob has one for each
-- byte of the pattern, as a group loses its two braces. The compiler of regular expressions has two
-- units for each byte of the pattern and two more; a repetition has its minimum and one for each byte
-- of the text, since an iteration that reads nothing only counts towards the minimum; the fix loop has
-- the passes that it is allowed; the walk over the import graph has one for each file and one more; the
-- loops over a line's characters and over a message's placeholders have one for each byte; scanAll has
-- two units for each byte and two more, since a token moves the position and a closing brace of a
-- template may be read twice. The other loops of the scanner recurse on the bytes that are left. The
-- check of a schema has one unit more than the schema weighs, one for each value in it.
--
-- Not modelled: what the C library makes of a number's spelling (strtod, snprintf), so that a JSON
-- number is its spelling and what the check of options asks of it is a parameter; Vector::remove
-- and the sort of a vector of the library litestl, which are parameters, the first with two laws;
-- the generated tables of the categories of a node kind and of Unicode identifier characters,
-- parameters too; the file system, of which resolveImport takes the test whether a path is a file;
-- the store, whose calls FileCache makes. The parser, the rules, applyFixes and printAst are the
-- parameters of the fix loop: a callback with state is a function of the pass. A count in a
-- regular expression is the number it spells, where an int would overflow. Left out are the
-- messages of the scanner's diagnostics, the parser, lowering, printing, fixes on nodes, the facts
-- about types, the loading of a closure and the store itself, the driver that joins the parts, the
-- other rules, the client of the server, the configuration, and all input and output.
pub mod Ast
pub mod Base
pub mod Cache
pub mod Lint
pub mod Rules
pub mod Syntax
pub mod Tsgo
pub mod Types

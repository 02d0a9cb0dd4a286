-- ===== src/Lib.antt =====
-- A verification library of Goliath SIEM's core: how the texts of Sigma rules become
-- patterns, how resolved rules ask values of an event, and how an engine evaluates many rules
-- against one event, and what else its pipeline rests on. Paths are from the repository's root.
--
-- The program's parts. crates/goliath-sigma parses Sigma rules; crates/goliath-rule resolves them
-- to typed conditions over the fields of OCSF events; crates/goliath-match decides which rules
-- match an event, with a reference evaluator for one rule at a time and an engine that groups
-- rules by class, finds the literals of all of them in one pass, wakes the rules that a found
-- literal triggers, and evaluates each predicate once. The server, crates/goliath, feeds events
-- to one engine and keeps its working memory from event to event. Its roles pass records to one
-- another through topics of crates/goliath-pipe, each read by groups that acknowledge what they
-- have handled. crates/goliath-graph decides which of the identifiers that events show are one
-- entity.
--
-- Which file models what.
-- - Sigma/Pattern.antt: `Pattern` of crates/goliath-sigma/src/value.rs (parse, from_parts,
--   as_literal, matches). Its children hold the meaning of a pattern and the proofs. The loop of
--   `matches` runs on fuel: one more than the characters and one times the parts and one, enough by
--   Pattern/Decide.
-- - Sigma/Wildcard.antt: `Target::matches` and `wildcard_matches` of
--   crates/goliath-sigma/src/condition.rs, on fuel in the same way.
-- - Sigma/Span.antt, Sigma/Lexer.antt and Sigma/Parser.antt: span.rs, lexer.rs, parser.rs and the
--   tree of condition.rs there. The parser's fuel is five for each token and five more, enough by
--   Parser/Steps and Parser/Ends.
-- - Rule/Fold.antt: crates/goliath-rule/src/fold.rs. Rule/FieldPath.antt: path.rs there, with the
--   values that `walk` visits as a list, and FieldPath/Segments on its parsing. Rule/Resolved.antt:
--   the types of resolved.rs, `Network::contains`, `Expr::all` and `Expr::any`.
-- - Json.antt: the values of serde_json. Crates.antt: the parameters that stand for crates and
--   for floating point numbers. Match/Laws.antt: what is relied on of them.
-- - Match/Semantics.antt and Match/Reference.antt: semantics.rs and reference.rs of
--   crates/goliath-match/src. Match/Meaning.antt: what a condition means, without compilation.
-- - Match/Engine.antt and its children: engine.rs there. Builder is `GroupBuilder` (source,
--   literal, string, predicate, node), Compile is `wake_cost`, `trigger`, `build` and
--   `Engine::new`, Hits is `Source::gather` and the scan, Evaluate is `Group::evaluate`, `Context`
--   and `Engine::matches_into`. State that a method changes is passed in and out. The other children
--   are proofs: Shapes and Occurrences (literals in texts), Gather (the texts of a source),
--   Denotation and Grow (what a predicate stands for, and that a growing builder keeps it),
--   Additions to Members (what is compiled is right), Triggers and Placement (a rule that holds is
--   woken), Marks to Layout (the scan), Memory (each predicate once), Scratch and Reuse (working
--   memory), Answer to Selection (one group), Grouping to Equivalence (the engine).
-- - Pipe.antt: lib.rs of crates/goliath-pipe/src. Pipe/Memory.antt: memory.rs there, a function
--   from state to state for each method that takes the lock, with the loops of `send` and `receive`
--   by one round. Its children: Release, Groups, Rounds and Bounds (one operation), History,
--   Safety, Batches, Errors and Skipped (what each operation keeps and gives), Waking and Observed
--   (who is woken), Steps, Runs and Capacity (any operations in any order, as a step relation).
-- - Graph.antt and Graph/Ranks.antt: identifier.rs of crates/goliath-graph/src. Graph/Groups.antt:
--   the union-find `Groups` of resolve.rs there and the loop that follows the claims; its children
--   Forest to Moved keep the forest and the members in agreement, Together to Following say who is
--   together. `root` has as much fuel as there are indices, enough by Groups/Together.
--   Graph/Resolve.antt and Graph/Resolve/Rows.antt: the rest of resolve.rs (shared, edges, resolve,
--   aliases), with Partners, Sharing, Sorting and Claims on which claims are followed, and Entities,
--   AliasRows and Outcome on what a resolution says.
-- - Base.antt and its children: tests, lists, texts and integers that the parts share.
--   Match/Samples.antt has concrete parameters for the tests, Match/EngineRules.antt a set of rules.
--
-- Bounds. Offsets of a topic are numbers that do not wrap: they count the records ever sent.
-- A text is a list of characters, and offsets into texts count characters. The generation
-- of the working memory is 32 bits and wraps as in the source. The 64 bit cost of waking a rule
-- does not wrap: it only chooses among triggers that are all right.
--
-- Not modelled. The literals that a regular expression requires (required.rs) are a parameter,
-- with the hypothesis that a matched text contains one of them. Regular expressions, the
-- automaton of aho-corasick, Unicode folding of one character, floating point numbers, and the
-- printing of JSON are parameters. The engine's theorems assume of the printing only that it
-- tells the rules' own leaves and classes apart. Error messages, the buffers that save
-- allocations, the server, storage, transport over a disk or Kafka, and reading events and
-- decisions for the graph are left out. The waiting of `send` and `receive` is not: a round says
-- whether it waits, and an operation whether it wakes.
pub mod Base
pub mod Sigma
pub mod Json
pub mod Rule
pub mod Crates
pub mod Match
pub mod Pipe
pub mod Graph

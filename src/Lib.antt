-- ===== src/Lib.antt =====
-- Tolquane Web: the flow model that the canvas edits, the store that holds it, the run that the page
-- shows, the session, and the assistant. The code is TypeScript under web/src.
--
-- A flow is a tree of blocks (web/src/model). The canvas edits the tree by pure functions that take
-- a path and draws it as cards and edges (web/src/editor/buildGraph.ts); the flow store
-- (web/src/store/flow.ts) calls them through `edit`, keeps snapshots to undo, moves the positions of
-- the sidecar with their blocks, and validates the new model. The run store (web/src/store/run.ts)
-- reduces the events of a running flow; web/src/run/keys.ts finds the names of a run for the cards
-- and edges of the canvas. The history store (web/src/history/store.ts) holds the commits of the
-- open flow. The diff (web/src/ai/diff.ts) shows what the assistant changed. The conversations
-- (web/src/store/ai.ts) take the events of the assistant's answer; applying its flow
-- (web/src/ai/apply.ts) is an edit of the flow store.
--
-- Base: names of the libraries, Boolean tests, lists and texts measured by native numbers
-- (Base/Tests, Base/Lists, Base/Int, Base/Text), and the laws of numerals and of splitting a text
-- (Base/Text/Laws).
-- Model/Types: web/src/model/types.ts. `null` is `none`; a field that holds a list of trees, a tree
-- or null, or a tree, `false` or null has a type of its own beside `Tree`.
-- Model/Tree: children, paths, `walk`, `getAt` of web/src/model/tree.ts. `preorder` is the recursion
-- that the walks share, on fuel: the number of blocks, which no path in the tree is longer than.
-- Model/Tree/Walk, Keys, Lookup and Paths are about the recursion, keys, steps and paths.
-- Model/Update: `replaceChild` and `updateAt` of web/src/model/tree.ts. An update says whether it
-- gives the same object, another block or null, where the source compares objects.
-- Model/Edits: the edits of web/src/model/edits.ts, with Stages, Wrap and Remove for their laws.
-- `removeAt` runs on fuel: the number of steps of the path, one of which each call takes away.
-- Model/Params: the parameters of `build()` in web/src/model/edits.ts.
-- Model/Nodes: nodes by id, and the words of web/src/model/describe.ts.
-- Model/Problems and Model/Validate: web/src/model/validate.ts, with the text of every message.
-- Model/Layout: web/src/model/layoutPaths.ts. The identity of a block is an address, given for the
-- block at each path. Members of `Object.prototype` are found as the code finds them; the text of a
-- function is the one that V8 gives. Alive and Foreign are its laws.
-- Model/Json and Model/Normal: web/src/model/normalize.ts, with Trees for trees, models and the
-- sidecar; Print is the JSON of a model, Loads and Counts are its laws. The fields of a tree are
-- read before the tree, where the source calls itself on a field. A number is whole.
-- Store/Flow: the state and the history of web/src/store/flow.ts; Store/Flow/Server what the server
-- and the code editor send; Store/Flow/Edit the edits of the tree; Store/Flow/Actions all actions,
-- with one function `step` for them. A call returns or throws.
-- Editor/Geometry and Editor/Canvas: web/src/editor/geometry.ts and web/src/editor/buildGraph.ts.
-- Sizes are whole pixels; the dip of a loop's edge is in tenths. Editor/Canvas measures, Nodes makes
-- a node or an edge, Place the parts of a container, Build `place` and `buildGraph`; a drawing is a
-- value, `none` when the code throws. Pieces, Links and Known (what a drawing names), Ended and Room
-- (the room of a container) carry the laws in Ends, Fits, Total and Even.
-- Store/Run: the events, the console and the problems of web/src/store/run.ts.
-- Store/Session: the token and the refusals of web/src/api/token.ts; Store/Session/Auth: the session
-- of web/src/store/auth.ts, its calls and the server's answers as steps in any order.
-- History: web/src/history/store.ts. A call of the server is a request and an answer that may come
-- late, to any request that was made.
-- Run/Keys: web/src/run/keys.ts, the index of the expanded graph and the names of a block; Aliases
-- for `runAliases`, Nearest for `pathOfNode`, Known with Added and Safe for what the aliases stand
-- for.
-- Run/Trigger: `parseTrigger` and `retryChain` of web/src/run/format.ts, with Order for the sorted
-- runs, Pieces for the chains and Chain for the chain of a run. The order of the start times,
-- `localeCompare`, is a parameter; a number of a trigger is exact.
-- Ai/Threads: the conversations of web/src/store/ai.ts, with Actions for its actions. A map is a
-- function of the key, and a controller is a number.
-- Ai/Send: `sendTurn` of web/src/ai/send.ts and the guard of web/src/ai/AiPanel.tsx, alone and as
-- steps in any order. The events of an answer, and whether the request throws, are parameters.
-- Ai/Apply: web/src/ai/apply.ts, on the flow store. A text is measured in characters.
-- Ai/Stream: the parser of the event stream of web/src/api/ai.ts, with Lines and Chunks for its
-- laws. `JSON.parse` is a parameter. The loop's fuel is the buffer's length and one, enough since
-- each line takes a line feed off the buffer. The decoder of bytes is outside: a chunk is text.
-- Ai/Diff: web/src/ai/diff.ts. The table is a list of rows, built from the last line to the first.
--
-- Not modelled: the rendering of React, the server's routes, the third-party editor and layout
-- libraries, the measures of nodes and edges in the run store and the options of a run, and the
-- Python library. Numbers that the code only stores (coordinates, times) are whole numbers.
pub mod Base
pub mod Editor
pub mod Model
pub mod Store
pub mod Run
pub mod Ai
pub mod History

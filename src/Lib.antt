-- ===== src/Lib.antt =====
-- Piperine: verification of the event-driven core, the analog derivatives and the trust
-- decisions of the simulator.
--
-- Piperine compiles a hardware description language (crates/piperine-lang) into devices
-- (crates/piperine-codegen) that an in-house solver (crates/piperine-solver) simulates. The analog
-- solution advances step by step; logic nets change by events. This library models the parts that
-- decide which event happens when.
--
-- Digital (crates/piperine-solver/src/digital): `Logic` and `Event` are the values and the events of
-- events.rs, `State` is `DigitalState` of state.rs, `Interface` the event sink of interface.rs with
-- the digital methods of `Element` (core/element.rs) as a record over the state of an element,
-- `Scheduler` is `evaluate_until_stable` and `Dag` is `evaluate_dag_ordered` of scheduler.rs,
-- `Topology` is `DigitalTopology::build` of topology.rs. `Circuit` is the seam of core/circuit.rs that
-- seeds the events and runs either of the two.
-- History (crates/piperine-solver/src/math/circular_array.rs): the ring of the latest solutions, of
-- which the accept hooks of the elements read a copy.
-- EventQueue (crates/piperine-solver/src/analyses/events.rs): the unified queue of times at which the
-- transient analysis must land. `Entry` has `EventEntry`, `Queue` every operation of `EventQueue`.
-- A step of the transient analysis takes a checkpoint of the digital state and of the event queue, and
-- commits or rolls back.
-- Analog: the expressions of contributions. `Ast` and `Operators` are the types of
-- crates/piperine-lang/src/parse/ast.rs, the operators of crates/piperine-codegen/src/resolve/expr.rs
-- and the functions of crates/piperine-lang/src/math.rs; `Constructors`, `Diff` and `Diff.Passes` are
-- the differentiation of crates/piperine-codegen/src/resolve/diff.rs, from which the Jacobian and the
-- distortion kernels are made; `Machine`, `Structural` and `Emit` are the values that the code emitted
-- by emit/analog_expr.rs computes. `Derivative` has the rules of calculus, as an inductive relation,
-- that `Correct` and `Jacobian` compare the two with, by way of `Names`; `Powers` is where they part.
-- `Walk` is the walk of expressions in crates/piperine-lang/src/parse/ast.rs and the collection of the
-- branches by it; the lemmas on these are in `Keeps`, `Collected`, `Transport` and `Once`.
-- Fused (crates/piperine-codegen/src/kernel/digital): the layout of the banks (layout.rs) and the
-- network that evaluates a cone of gates as one element (network.rs).
-- Lockfile (crates/piperine-project/src/lockfile.rs): the locked dependencies and trusted plugins, and
-- `Store`, which reads and writes the file. Strings are lists of codes.
-- Plugin (crates/piperine-plugin/src/trust.rs): the trust decisions over the lockfile.
-- Release (crates/piperine-project/src/release.rs): release coordinates, and the cache of binaries.
--
-- Parameters. `F64` stands for the type f64 with `total_cmp`, `<=` and `+`; `BinaryHeap` for the heap of
-- the standard library, of which only the documented behaviour is assumed: `pop` takes a least entry,
-- and which one of several is open. `BinaryHeap.Selection` and `F64.ticks` meet these assumptions and
-- run the tests. An element is any value of the record `Element`.
--
-- `Arithmetic` stands for the instructions and functions on f64 that the emitted code runs, and `Ideal`
-- for the laws of exact numbers, which f64 meets but for rounding, signed zeros, infinities and NaN;
-- arithmetic modulo two meets them all and runs the tests. A literal is its bit pattern. What
-- Cranelift compiles of a cone is a function on the nets and banks. `Toml` prints what it parses back;
-- SHA-256 is any function; the host of releases is any value of the record `ReleaseClient`.
--
-- State passing. A method that takes `&mut self` is a function to the new state. An index out of
-- bounds, a panic of the program, is a result of its own. Multisets are compared by the number of
-- entries that pass a test (`Common`, `SameItems`).
--
-- Loops. The loops that empty a heap run on its size, of which each round takes one. The delta-cycle
-- loop runs on the cap of delta cycles and one more; the passes over the DAG are the source's own
-- bounded `for`, and the depth-first search runs on the number of elements and edges that it can meet
-- (`Topology`, `weight`). `decimal` runs on the number and one more, since each round divides it by ten.
--
-- The settling of a cone runs on its own cap, and the sort of the lockfile and the differentiation on
-- the structure of their argument.
--
-- Not modelled: the other floating-point numerics, since they call linear algebra; machine code,
-- network and bindings, which are input and output or calls of libraries; the language front end, the
-- flattening of modules and the rest of the package manager. The rules of calculus leave out
-- `%`, `^`, asinh, acosh, atanh, atan2 and hypot.
pub mod Common
pub mod Analog
pub mod F64
pub mod BinaryHeap
pub mod Digital
pub mod EventQueue
pub mod Fused
pub mod History
pub mod Lockfile
pub mod Plugin
pub mod Release

-- ===== src/Lib.antt =====
-- The verification library of the SLURM shim: the parts of the program that compute, stated and
-- proved about. The shim turns SLURM commands into Grid Engine's. srun reads the layout of its
-- job, takes the next step id from a counter file, places the ranks of the step on the nodes,
-- sends them to a stepper on each node, and writes the output that the steppers send back. The
-- layout comes from a fabricator, which runs when the job starts and also writes the SLURM
-- variables of the job as a shell script; srun changes it when a spare takes the place of a lost
-- node. An installer wires the shim into a cluster.
--
-- Which file is about what:
-- - Plan: internal/plan and the records of internal/layout/schema.go. Plan.Select is selectNodes,
--   inListOrder and capacities, Plan.Spread is spread, countPositive and dropEmpty, Plan.Devices
--   is AssignDevices, Plan.Distribute is distribute, Plan.Place is Place, and Plan.Policy is
--   ApplyPolicy with the three geometries.
-- - Layout.StepCounter: internal/layout/stepctr.go, on the content of the counter file.
-- - Encoders.Rle: internal/encoders/rle.go, the counts of nodes in run-length form.
-- - Encoders.Nodelist: internal/encoders/nodelist.go, the bracketed host lists, and
--   Encoders.Nodelist.Expand: internal/encoders/expand.go.
-- - Fabricator: internal/fabricator. Fabricator.Env and Fabricator.TableA are helpers.go,
--   Fabricator.Unsets the variables cleared first (with DeviceVars of internal/config/config.go),
--   Fabricator.Assemble is assemble and what it calls (fabricate.go), and Fabricator.Quote is
--   quote.go and RenderExports of emit.go, with a reader of POSIX shell words in
--   Fabricator.Quote.Shell.
-- - Srun.Spares: internal/cli/srun/elastic.go, the hot spares of a job: takeSpare, and in
--   Srun.Spares.Replace the loops that relaunch a lost node's tasks on them.
-- - Proto.Frame: internal/proto/frame.go, the frames between srun and a stepper, on bytes.
-- - Mux.Demux and Mux.Pattern: internal/mux, the output of the ranks at srun.
-- - Gedata.Tasks: internal/gedata/arraytask.go and tasklist.go, the tasks of an array job.
-- - Submit.Geometry: the geometry part of internal/submit/submit.go and memory.go, and
--   ParseSlotsRule of internal/config/config.go.
-- - Install: internal/install. Install.Selection and Install.Planning are MakePlan and what it
--   calls (plan.go), Install.Apply is apply.go, Install.State is Intend and Record of state.go,
--   and Install.Ownership and Install.Uninstall are PlanUninstall and what it calls (uninstall.go).
-- - Text: what these use of Go's strings and strconv; Common: lists, options, results and tests.
--
-- How state and numbers are modelled. An `int` is an integer with its 64-bit range written out
-- where the code can leave it (Text.Int64); counts that the code only tests for being positive are natural
-- numbers. A pair of a value and an error is a Result. A host name in Plan is only compared, so it
-- is a text; elsewhere a string is its bytes, and white space and letter case are those of ASCII.
-- A file is its content, a stream the bytes still to be read, a map of the demultiplexer the list
-- of its entries. A mutex or a file lock makes an operation one step. The administration interface
-- of the cluster is a parameter: a state, and for each call its answer and the state behind it. An
-- environment is a lookup function. A step of srun that takes a spare changes the layout at once,
-- since it holds the layout's lock; what a relaunch on a host comes to is a parameter.
-- A panic of the source, where AssignDevices slices out of range, is an outcome of the model.
--
-- Bounds and fuel. The loop of spread places at least one rank in each pass while one is to be
-- placed, so ntasks + 1 passes are enough.
-- The digits of a number run on the number as a bound. The loop of replace takes a
-- spare in each round, so the spares and one round more are enough. The chain of swaps is followed
-- for as many rounds as there are swaps, as in the source. The loop over a range of tasks runs on the
-- distance of its ends and two more rounds, since a step is at least 1, unless the sum leaves the range
-- of an int. All else is structural recursion.
--
-- What is not modelled: processes, sockets, signals, XML and JSON documents, the file system but
-- for the content of the step counter, the qconf and qstat calls, and the parsing of command
-- lines; nor the resources and times of a submission (internal/submit), the binding of cores
-- (internal/cpubind), the sorting of host names and the removal of installed files. The fabricator
-- takes the granted devices, the memory and the task policy as arguments, and its warnings are left
-- out; so are the drain command and the job context that a swap also writes.
pub mod Common
pub mod Text
pub mod Plan
pub mod Encoders
pub mod Layout
pub mod Proto
pub mod Mux
pub mod Gedata
pub mod Submit
pub mod Fabricator
pub mod Srun
pub mod Install

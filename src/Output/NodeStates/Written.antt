-- ===== src/Output/NodeStates/Written.antt =====
-- Every record that the writer of the node states accepts is in the file when the file is closed.
use Prim.Native.String.{String}

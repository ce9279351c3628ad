-- ===== src/Output/NodeStates.antt =====
-- src/utilities/netcdf/node_state_writer.cpp: the writer of the states of the nodes, with one buffer
-- for each of the five components. `A` is the type of the values. The file is the list of the calls
-- it has been given, the last call first, a variable is the prefix of a component with an axis. A
-- call for a variable that is not defined throws, as does a second definition; other refusals of the
-- netCDF library are not part of the model.
pub mod Pending
pub mod Accepted
pub mod Written
use Prim.Native.String.{String}
use text.Mathlib.Text.{◌==◌ as str_eq}
use kynema_fmb.Base.{
  ℕ, zero, suc, max, ◌⊎◌, inl, inr, List, [], ◌∷◌, ◌++◌, length, Option, none, some, Bool, true,
  false, not, ◌&&◌, ◌||◌, ◌==◌, leb, if◌then◌else◌,
}

pub data Axis : Type 0 where
  x_axis y_axis z_axis i_axis j_axis k_axis w_axis : Axis

pub data NodeFileCall (A : Type 0) : Type 0 where
  add_time_dimension : NodeFileCall A
  add_node_dimension : ℕ → NodeFileCall A
  add_variable : String → Axis → NodeFileCall A
  set_chunking : String → Axis → ℕ → ℕ → NodeFileCall A
  -- WriteVariableAt: the timestep, the number of nodes from node 0 on, and the values.
  write_variable_at : String → Axis → ℕ → ℕ → List A → NodeFileCall A
  sync : NodeFileCall A
  close : NodeFileCall A
  reopen : NodeFileCall A

pub data InvalidStates : Type 0 where
  invalid_prefix size_mismatch unknown_prefix : InvalidStates
  -- The file has no variable of the name, or has one already.
  no_variable name_in_use : InvalidStates

pub record StateTimestepData (A : Type 0) : Type 0 where
  pub timestep : ℕ
  pub component_prefix : String
  pub x : List A
  pub y : List A
  pub z : List A
  pub i : List A
  pub j : List A
  pub k : List A
  pub w : List A

pub record NodeStateWriter (A : Type 0) : Type 0 where
  pub calls : List (NodeFileCall A)
  pub num_nodes : ℕ
  pub enabled_state_prefixes : List String
  pub buffer_size : ℕ
  -- The array of five buffers, by index.
  pub state_buffers : ℕ → List (StateTimestepData A)

-- The prefixes of position and displacement.
unfoldable pub has_w : String → Bool
has_w prefix = str_eq prefix "x" || str_eq prefix "u"

unfoldable pub get_component_index : String → Option ℕ
get_component_index prefix =
    if str_eq prefix "x"
    then some 0
    else (if str_eq prefix "u"
        then some 1
        else (if str_eq prefix "v"
            then some 2
            else (if str_eq prefix "a"
                then some 3
                else (if str_eq prefix "f" then some 4 else none))))

unfoldable pub is_valid_prefix : String → Bool
is_valid_prefix prefix =
    str_eq prefix "x"
    || (str_eq prefix "u" || (str_eq prefix "v" || (str_eq prefix "a" || str_eq prefix "f")))

abbrev pub is_in : String → List String → Bool
is_in prefix [] = false
is_in prefix (other ∷ others) = str_eq prefix other || is_in prefix others

abbrev repeats : List String → Bool
repeats [] = false
repeats (prefix ∷ rest) = is_in prefix rest || repeats rest

unfoldable pub all_valid : List String → Bool
all_valid [] = true
all_valid (prefix ∷ rest) = is_valid_prefix prefix && all_valid rest

-- Why the constructor throws, if it does: a variable is defined twice, or the axis `w` of a prefix that
-- has none is given chunks.
unfoldable pub refused_prefixes : List String → Option InvalidStates
refused_prefixes prefixes =
    if repeats prefixes
    then some name_in_use
    else (if all_valid prefixes then none else some no_variable)

module _ {A : Type 0} where
  unfoldable pub define_state_variables :
      String → Bool → List (NodeFileCall A) → List (NodeFileCall A)
  define_state_variables prefix with_w calls =
      let defined =
        add_variable prefix k_axis
        ∷ (add_variable prefix j_axis
            ∷ (add_variable prefix i_axis
                ∷ (add_variable prefix z_axis
                    ∷ (add_variable prefix y_axis ∷ (add_variable prefix x_axis ∷ calls))))) in
      if with_w then add_variable prefix w_axis ∷ defined else defined

  unfoldable pub define_all : List String → List (NodeFileCall A) → List (NodeFileCall A)
  define_all [] calls = calls
  define_all (prefix ∷ prefixes) calls =
      define_all prefixes (define_state_variables prefix (has_w prefix) calls)

  -- The axis `w` is skipped for velocity, acceleration and force.
  unfoldable pub set_chunking_of : ℕ → ℕ → String → List (NodeFileCall A) → List (NodeFileCall A)
  set_chunking_of chunk nodes prefix calls =
      let chunked =
        set_chunking prefix k_axis chunk nodes
        ∷ (set_chunking prefix j_axis chunk nodes
            ∷ (set_chunking prefix i_axis chunk nodes
                ∷ (set_chunking prefix z_axis chunk nodes
                    ∷ (set_chunking prefix y_axis chunk nodes
                        ∷ (set_chunking prefix x_axis chunk nodes ∷ calls))))) in
      if str_eq prefix "v" || (str_eq prefix "a" || str_eq prefix "f")
      then chunked
      else set_chunking prefix w_axis chunk nodes ∷ chunked

  unfoldable pub set_all_chunking :
      ℕ → ℕ → List String → List (NodeFileCall A) → List (NodeFileCall A)
  set_all_chunking chunk nodes [] calls = calls
  set_all_chunking chunk nodes (prefix ∷ prefixes) calls =
      set_all_chunking chunk nodes prefixes (set_chunking_of chunk nodes prefix calls)

  unfoldable pub new_writer : ℕ → List String → ℕ → NodeStateWriter A
  new_writer nodes prefixes size = record {
    calls =
        set_all_chunking (max size 1) nodes prefixes
          (define_all prefixes (add_node_dimension nodes ∷ (add_time_dimension ∷ [])));
    num_nodes = nodes;
    enabled_state_prefixes = prefixes;
    buffer_size = size;
    state_buffers = λ n. [];
  }

  -- The constructor, from the number of nodes, the enabled prefixes and the size of the buffers.
  unfoldable pub create_writer : ℕ → List String → ℕ → InvalidStates ⊎ NodeStateWriter A
  create_writer nodes prefixes size = elim (refused_prefixes prefixes) [
    | some thrown ↦ inl thrown
    | none ↦ inr (new_writer nodes prefixes size)
  ]

  -- The calls for one record, in the variables of a prefix.
  unfoldable pub write_record :
      String → Bool → StateTimestepData A → List (NodeFileCall A) → List (NodeFileCall A)
  write_record prefix with_w r calls =
      let n = length r.x in
      let t = r.timestep in
      let written =
        write_variable_at prefix k_axis t n r.k
        ∷ (write_variable_at prefix j_axis t n r.j
            ∷ (write_variable_at prefix i_axis t n r.i
                ∷ (write_variable_at prefix z_axis t n r.z
                    ∷ (write_variable_at prefix y_axis t n r.y
                        ∷ (write_variable_at prefix x_axis t n r.x ∷ calls))))) in
      if with_w then write_variable_at prefix w_axis t n r.w ∷ written else written

  unfoldable pub write_records :
      String → Bool → List (StateTimestepData A) → List (NodeFileCall A) → List (NodeFileCall A)
  write_records prefix write_w [] calls = calls
  write_records prefix write_w (r ∷ rs) calls =
      write_records prefix write_w rs
        (write_record prefix (write_w && not (length r.w == 0)) r calls)

  unfoldable pub write_buffer :
      List (StateTimestepData A) → List (NodeFileCall A) → List (NodeFileCall A)
  write_buffer [] calls = calls
  write_buffer (front ∷ rest) calls =
      write_records front.component_prefix
        (not (length front.w == 0) && has_w front.component_prefix) (front ∷ rest) calls

  -- What a flush leaves that does not throw.
  unfoldable pub empty_buffer : ℕ → NodeStateWriter A → NodeStateWriter A
  empty_buffer index writer = record writer {
    calls = write_buffer (writer.state_buffers index) writer.calls;
    state_buffers = λ n. if n == index then [] else writer.state_buffers n;
  }

  -- The variables of a prefix are defined together, by the constructor, so a flush throws at its first
  -- call or at none.
  abbrev pub has_variables : List String → List (StateTimestepData A) → Bool
  has_variables prefixes [] = true
  has_variables prefixes (front ∷ rest) = is_in front.component_prefix prefixes

  unfoldable pub flush_state_buffer : ℕ → NodeStateWriter A → InvalidStates ⊎ NodeStateWriter A
  flush_state_buffer index writer =
      if has_variables writer.enabled_state_prefixes (writer.state_buffers index)
      then inr (empty_buffer index writer)
      else inl no_variable

  -- The flushes of the buffers 0, 1, … below a bound.
  unfoldable pub flush_buffers : ℕ → NodeStateWriter A → InvalidStates ⊎ NodeStateWriter A
  flush_buffers zero writer = inr writer
  flush_buffers (suc n) writer = elim (flush_buffers n writer) [
    | inl thrown ↦ inl thrown
    | inr next ↦ flush_state_buffer n next
  ]

  unfoldable pub flush_all_buffers : NodeStateWriter A → InvalidStates ⊎ NodeStateWriter A
  flush_all_buffers writer = elim (flush_buffers 5 writer) [
    | inl thrown ↦ inl thrown
    | inr flushed ↦ inr (record flushed { calls = sync ∷ flushed.calls })
  ]

  -- The destructor, and what Close does first.
  unfoldable pub flush_remaining : NodeStateWriter A → InvalidStates ⊎ NodeStateWriter A
  flush_remaining writer =
      let flushed = flush_all_buffers writer in
      if writer.buffer_size == 0 then inr writer else flushed

  unfoldable pub close_writer : NodeStateWriter A → InvalidStates ⊎ NodeStateWriter A
  close_writer writer = elim (flush_remaining writer) [
    | inl thrown ↦ inl thrown
    | inr flushed ↦ inr (record flushed { calls = close ∷ flushed.calls })
  ]

  unfoldable open_writer : NodeStateWriter A → NodeStateWriter A
  open_writer writer = record writer { calls = reopen ∷ writer.calls }

  unfoldable pub push_record : ℕ → StateTimestepData A → NodeStateWriter A → NodeStateWriter A
  push_record index r writer = record writer {
    state_buffers =
        λ n. if n == index then writer.state_buffers index ++ (r ∷ []) else writer.state_buffers n;
  }

  -- The branch of WriteStateDataAtTimestep with buffers.
  unfoldable pub write_buffered :
      NodeStateWriter A → StateTimestepData A → InvalidStates ⊎ NodeStateWriter A
  write_buffered writer r = elim (get_component_index r.component_prefix) [
    | none ↦ inl unknown_prefix
    | some index ↦
        let pushed = push_record index r writer in
        if leb writer.buffer_size (length (pushed.state_buffers index))
        then flush_state_buffer index pushed
        else inr pushed
  ]

  -- Whether the other vectors are as long as `x`.
  unfoldable pub same_sizes : StateTimestepData A → Bool
  same_sizes r =
      let n = length r.x in
      length r.y == n
      && (length r.z == n && (length r.i == n && (length r.j == n && length r.k == n)))

  -- The record bundles the arguments of the call.
  unfoldable pub write_state_data_at_timestep :
      NodeStateWriter A → StateTimestepData A → InvalidStates ⊎ NodeStateWriter A
  write_state_data_at_timestep writer r =
      let prefix = r.component_prefix in
      let unbuffered = record writer {
        calls = write_record prefix (not (length r.w == 0) && has_w prefix) r writer.calls;
      } in
      if not (is_valid_prefix prefix)
      then inl invalid_prefix
      else (if not (same_sizes r)
          then inl size_mismatch
          else (if writer.buffer_size == 0
              then (if is_in prefix writer.enabled_state_prefixes
                  then inr unbuffered
                  else inl no_variable)
              else write_buffered writer r))

  -- The calls of a list of records in turn, which ends at the first exception.
  unfoldable pub write_states :
      NodeStateWriter A → List (StateTimestepData A) → InvalidStates ⊎ NodeStateWriter A
  write_states writer [] = inr writer
  write_states writer (r ∷ rs) = elim (write_state_data_at_timestep writer r) [
    | inl e ↦ inl e
    | inr next ↦ write_states next rs
  ]

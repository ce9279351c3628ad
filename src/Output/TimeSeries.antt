-- ===== src/Output/TimeSeries.antt =====
-- src/utilities/netcdf/time_series_writer.cpp: rows of channel values, written in batches. `A` is the
-- type of the values and `S` that of the names. The file is the list of the calls it has been given,
-- the last call first; a row that is
-- to go to a closed file throws; other refusals of the netCDF library are not part of the model.
pub mod Laws
pub mod Batches
use kynema_fmb.Base.{
  ℕ, suc, ◌+◌, ◌*◌, max, ◌⊎◌, inl, inr, List, [], ◌∷◌, ◌++◌, length, take, Bool, true, false, not,
  ◌&&◌, ◌==◌, ltb, leb, if◌then◌else◌,
}

pub data FileCall (A S : Type 0) : Type 0 where
  add_time_dimension : FileCall A S
  add_channel_dimension : ℕ → FileCall A S
  add_channel_names : FileCall A S
  write_channel_names : List S → FileCall A S
  add_channel_units : FileCall A S
  write_channel_units : List S → FileCall A S
  add_channel_outputs : FileCall A S
  set_chunking : ℕ → ℕ → FileCall A S
  -- WriteVariableAt: first timestep, number of timesteps, channels of each, and the values.
  write_channel_outputs : ℕ → ℕ → ℕ → List A → FileCall A S
  sync : FileCall A S
  close : FileCall A S

pub data InvalidArgument : Type 0 where
  no_channels units_mismatch row_mismatch : InvalidArgument
  -- WriteVariableAt on a file that is closed.
  file_closed : InvalidArgument

pub record Buffer (A : Type 0) : Type 0 where
  pub data_ : List A
  pub num_rows : ℕ
  pub start_timestep : ℕ

pub record TimeSeriesWriter (A S : Type 0) : Type 0 where
  pub calls : List (FileCall A S)
  pub is_open : Bool
  pub channel_names : List S
  pub channel_units : List S
  pub num_channels : ℕ
  pub buffer_size : ℕ
  pub buffer : Buffer A

module _ {A S : Type 0} where
  -- The constructor, from channel names, channel units and the size of the buffer.
  unfoldable pub construct : List S → List S → ℕ → InvalidArgument ⊎ TimeSeriesWriter A S
  construct names units size =
      let num_channels = length names in
      let named : List (FileCall A S) =
        write_channel_names names
        ∷ (add_channel_names ∷ (add_channel_dimension num_channels ∷ (add_time_dimension ∷ []))) in
      let with_units : List (FileCall A S) =
        if length units == 0
        then named
        else write_channel_units units ∷ (add_channel_units ∷ named) in
      if num_channels == 0
      then inl no_channels
      else (if not (length units == 0) && not (length units == num_channels)
          then inl units_mismatch
          else inr (record {
            calls = set_chunking (max size 1) num_channels ∷ (add_channel_outputs ∷ with_units);
            is_open = true;
            channel_names = names;
            channel_units = units;
            num_channels = num_channels;
            buffer_size = size;
            buffer = record { data_ = []; num_rows = 0; start_timestep = 0 };
          }))

  -- On an open file. The span is the first `total_values` elements of the data.
  unfoldable pub flush_buffer : TimeSeriesWriter A S → TimeSeriesWriter A S
  flush_buffer w =
      let b = w.buffer in
      let total_values = b.num_rows * w.num_channels in
      if b.num_rows == 0 then w else record w {
        calls =
            write_channel_outputs b.start_timestep b.num_rows w.num_channels
              (take total_values b.data_)
            ∷ w.calls;
        buffer = record b { num_rows = 0 };
      }

  -- What WriteRowAtTimestep does before it appends the row: the batch goes on, or a new one starts.
  unfoldable pub start_batch : TimeSeriesWriter A S → ℕ → TimeSeriesWriter A S
  unfolding flush_buffer
  start_batch w timestep =
      let flushed = flush_buffer w in
      if w.buffer.num_rows == 0
      then record w { buffer = record (w.buffer) { start_timestep = timestep } }
      else (if not (timestep == w.buffer.start_timestep + w.buffer.num_rows)
          then record flushed { buffer = record (flushed.buffer) { start_timestep = timestep } }
          else w)

  unfoldable pub append_row : TimeSeriesWriter A S → List A → TimeSeriesWriter A S
  append_row w row = record w {
    buffer = record (w.buffer) { data_ = w.buffer.data_ ++ row; num_rows = suc w.buffer.num_rows };
  }

  -- Whether the row at a timestep makes the batch in the buffer go to the file first.
  unfoldable pub restarts : TimeSeriesWriter A S → ℕ → Bool
  restarts w timestep =
      not (w.buffer.num_rows == 0) && not (timestep == w.buffer.start_timestep + w.buffer.num_rows)

  unfoldable pub write_row_at_timestep :
      TimeSeriesWriter A S → ℕ → List A → InvalidArgument ⊎ TimeSeriesWriter A S
  write_row_at_timestep w timestep row =
      let unbuffered = record w {
        calls = write_channel_outputs timestep 1 w.num_channels row ∷ w.calls;
      } in
      let appended = append_row (start_batch w timestep) row in
      let written = if w.is_open then inr unbuffered else inl file_closed in
      let flushed = if w.is_open then inr (flush_buffer appended) else inl file_closed in
      if not (length row == w.num_channels)
      then inl row_mismatch
      else (if w.buffer_size == 0
          then written
          else (if restarts w timestep && not w.is_open
              then inl file_closed
              else (if leb appended.buffer_size appended.buffer.num_rows
                  then flushed
                  else inr appended)))

  unfoldable pub flush : TimeSeriesWriter A S → TimeSeriesWriter A S
  flush w =
      let flushed = flush_buffer w in
      if flushed.is_open then record flushed { calls = sync ∷ flushed.calls } else flushed

  unfoldable pub close_file : TimeSeriesWriter A S → TimeSeriesWriter A S
  close_file w =
      let flushed = if ltb 0 w.buffer_size then flush w else w in
      record flushed { calls = close ∷ flushed.calls; is_open = false }

  -- The rows of consecutive timesteps, written in turn.
  unfoldable pub write_rows :
      TimeSeriesWriter A S → ℕ → List (List A) → InvalidArgument ⊎ TimeSeriesWriter A S
  write_rows w timestep [] = inr w
  write_rows w timestep (row ∷ rows) = elim (write_row_at_timestep w timestep row) [
    | inl e ↦ inl e
    | inr next ↦ write_rows next (suc timestep) rows
  ]

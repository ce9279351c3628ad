-- ===== src/Tests/Output.antt =====
-- A writer of two channels.
use kynema_fmb.Base.{ℕ, ◌≡◌, inr, refl, arith, [], ◌∷◌, true}
use kynema_fmb.Output.TimeSeries.{TimeSeriesWriter, write_row_at_timestep, write_channel_outputs}
use kynema_fmb.Output.TimeSeries.Laws.{IsBuffered, write_row_at_timestep-IsBuffered}
use kynema_fmb.Output.TimeSeries.Batches.{calls_of_batch, first_batch, later_batch}

abbrev new_writer : TimeSeriesWriter ℕ ℕ
new_writer = record {
  calls = [];
  is_open = true;
  channel_names = 1 ∷ (2 ∷ []);
  channel_units = [];
  num_channels = 2;
  buffer_size = 4;
  buffer = record { data_ = []; num_rows = 0; start_timestep = 0 };
}

-- The writer after a flush of two rows.
abbrev flushed_writer : TimeSeriesWriter ℕ ℕ
flushed_writer = record {
  calls = write_channel_outputs 0 2 2 (10 ∷ (11 ∷ (12 ∷ (13 ∷ [])))) ∷ [];
  is_open = true;
  channel_names = 1 ∷ (2 ∷ []);
  channel_units = [];
  num_channels = 2;
  buffer_size = 4;
  buffer = record { data_ = 10 ∷ (11 ∷ (12 ∷ (13 ∷ []))); num_rows = 0; start_timestep = 0 };
}

first_batch_example :
    calls_of_batch new_writer 0 ((10 ∷ (11 ∷ [])) ∷ ((12 ∷ (13 ∷ [])) ∷ []))
    ≡ inr (write_channel_outputs 0 2 2 (10 ∷ (11 ∷ (12 ∷ (13 ∷ [])))) ∷ [])
first_batch_example =
    first_batch new_writer 0 ((10 ∷ (11 ∷ [])) ∷ ((12 ∷ (13 ∷ [])) ∷ [])) (refl, (refl, tt))
      (omega arith) (omega arith) refl refl

later_batch_example :
    calls_of_batch flushed_writer 2 ((20 ∷ (21 ∷ [])) ∷ [])
    ≡ inr (write_channel_outputs 2 1 2 (10 ∷ (11 ∷ [])) ∷ flushed_writer.calls)
later_batch_example =
    later_batch flushed_writer 2 ((20 ∷ (21 ∷ [])) ∷ []) (10 ∷ (11 ∷ [])) (12 ∷ (13 ∷ []))
      (refl, tt) (omega arith) (omega arith) refl refl refl

write_row_at_timestep-IsBuffered_example :
    (w' : TimeSeriesWriter ℕ ℕ) × (write_row_at_timestep new_writer 5 (20 ∷ (21 ∷ [])) ≡ inr w')
    × IsBuffered w'
write_row_at_timestep-IsBuffered_example =
    write_row_at_timestep-IsBuffered new_writer 5 (20 ∷ (21 ∷ []))
      (record { in_data = omega arith; not_full = inr (omega arith) }) refl refl

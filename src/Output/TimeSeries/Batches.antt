-- ===== src/Output/TimeSeries/Batches.antt =====
-- Batches of consecutive rows: what a flush writes of them.
use kynema_fmb.Base.{
  ℕ, suc, ◌+◌, ◌*◌, ◌<◌, ◌≡◌, ◌⊎◌, inl, inr, refl, sym, ap, ◌∙◌, arith, List, [], ◌∷◌, ◌++◌, All,
  length, length-append, take, take-append, Bool, true, not, ◌&&◌, false, ◌==◌, ==_of_eq, leb,
  Bool-cases,
}
use mathlib.Core.List.{append-nil, append_assoc}
use kynema_fmb.Output.TimeSeries.{
  FileCall, InvalidArgument, TimeSeriesWriter, flush_buffer, start_batch, append_row, restarts,
  write_row_at_timestep, write_channel_outputs, write_rows,
}

-- The values of the rows, one row after the other.
abbrev pub values : {A : Type 0} → List (List A) → List A
values [] = []
values (row ∷ rows) = row ++ values rows

length-values :
    {A : Type 0} (n : ℕ) (rows : List (List A))
    → All (λ row. length row ≡ n) rows
    → length (values rows) ≡ length rows * n
length-values n [] h = omega arith
length-values n (row ∷ rows) (h, hs) =
    omega (arith, length-append row (values rows), length-values n rows hs)

module _ {A S : Type 0} where
  -- The writer with another batch in its buffer.
  abbrev pub batched : TimeSeriesWriter A S → List A → ℕ → ℕ → TimeSeriesWriter A S
  batched w values num_rows start_timestep = record w {
    buffer = record { data_ = values; num_rows = num_rows; start_timestep = start_timestep };
  }

  -- The row at `t + k` starts a batch of its own if there is none, and continues one that has `k`.
  start_batched :
      (w : TimeSeriesWriter A S) (k t : ℕ)
      → w.buffer.num_rows ≡ k
      → (k ≡ 0) ⊎ (w.buffer.start_timestep ≡ t)
      → start_batch w (t + k) ≡ batched w w.buffer.data_ k t
  unfolding start_batch
  start_batched w k t count start = elim (Bool-cases (w.buffer.num_rows == 0)) [
    | inl e ↦
        let none : t + k ≡ t = ground arith in
        rw e (λ i. batched w w.buffer.data_ (count i) (none i))
    | inr e ↦
        let begun : w.buffer.start_timestep ≡ t = ground arith in
        let on : t + k ≡ w.buffer.start_timestep + w.buffer.num_rows = omega arith in
        rw (e, ==_of_eq on) (λ i. batched w w.buffer.data_ (count i) (begun i))
  ]

  continued :
      (w : TimeSeriesWriter A S) (k t : ℕ)
      → w.buffer.num_rows ≡ k
      → (k ≡ 0) ⊎ (w.buffer.start_timestep ≡ t)
      → restarts w (t + k) ≡ false
  unfolding restarts
  continued w k t count (inl none) =
      let empty : w.buffer.num_rows == 0 ≡ true = ground arith in rw empty refl
  continued w k t count (inr start) =
      let on : t + k ≡ w.buffer.start_timestep + w.buffer.num_rows = omega arith in
      rw (==_of_eq on) (and_false (not (w.buffer.num_rows == 0)))
    where
      and_false : (b : Bool) → b && false ≡ false
      and_false true = refl
      and_false false = refl

  -- Until the batch is full, the row is appended to it.
  row_appended :
      (w : TimeSeriesWriter A S) (k t : ℕ) (row : List A)
      → length row ≡ w.num_channels
      → suc k < w.buffer_size
      → w.buffer.num_rows ≡ k
      → (k ≡ 0) ⊎ (w.buffer.start_timestep ≡ t)
      → write_row_at_timestep w (t + k) row ≡ inr (batched w (w.buffer.data_ ++ row) (suc k) t)
  unfolding write_row_at_timestep append_row
  row_appended w k t row same room count start =
      let some_size : w.buffer_size == 0 ≡ false = ground arith in
      let not_full : leb w.buffer_size (suc k) ≡ false = ground arith in
      let goes_on : restarts w (t + k) ≡ false = continued w k t count start in
      rw (==_of_eq same, some_size, goes_on, start_batched w k t count start, not_full) refl

  -- So are all the rows of a batch that stays below the size of the buffer.
  rows_appended :
      (rows : List (List A)) (w : TimeSeriesWriter A S) (k t : ℕ)
      → All (λ row. length row ≡ w.num_channels) rows
      → k + length rows < w.buffer_size
      → w.buffer.num_rows ≡ k
      → ((k ≡ 0) × (0 < length rows)) ⊎ (w.buffer.start_timestep ≡ t)
      → write_rows w (t + k) rows
        ≡ inr (batched w (w.buffer.data_ ++ values rows) (k + length rows) t)
  unfolding write_rows
  rows_appended [] w k t same room count start =
      let begun : w.buffer.start_timestep ≡ t = ground arith in
      let sum : w.buffer.num_rows ≡ k + 0 = omega arith in
      λ i. inr (batched w (sym (append-nil w.buffer.data_) i) (sum i) (begun i))
  rows_appended (row ∷ rows) w k t (same, rest) room count start =
      let next = batched w (w.buffer.data_ ++ row) (suc k) t in
      let place : suc (t + k) ≡ t + suc k = omega arith in
      let sum : suc k + length rows ≡ k + suc (length rows) = omega arith in
      let first = row_appended w k t row same (omega arith) count (ground arith) in
      rw (write_rows, first)
        (ap (λ timestep. write_rows next timestep rows) place
          ∙ rows_appended rows next (suc k) t rest (omega arith) refl (inr refl)
          ∙ λ i. inr (batched w (append_assoc w.buffer.data_ row (values rows) i) (sum i) t))

  -- A flush of a batch that is not empty writes the first values of the data.
  flush_batch :
      (w : TimeSeriesWriter A S) (data_ : List A) (k t : ℕ)
      → 0 < k
      → (flush_buffer (batched w data_ k t)).calls
        ≡ write_channel_outputs t k w.num_channels (take (k * w.num_channels) data_) ∷ w.calls
  unfolding flush_buffer
  flush_batch w data_ k t some_rows =
      let not_empty : k == 0 ≡ false = ground arith in rw not_empty refl

  -- What is called on the file when rows are written from `timestep` on and then flushed.
  unfoldable pub calls_of_batch :
      TimeSeriesWriter A S → ℕ → List (List A) → InvalidArgument ⊎ List (FileCall A S)
  calls_of_batch w timestep rows = elim (write_rows w timestep rows) [
    | inl e ↦ inl e
    | inr next ↦ inr (flush_buffer next).calls
  ]

  batch_calls :
      (w : TimeSeriesWriter A S) (timestep : ℕ) (rows : List (List A))
      → All (λ row. length row ≡ w.num_channels) rows
      → 0 < length rows
      → length rows < w.buffer_size
      → w.buffer.num_rows ≡ 0
      → calls_of_batch w timestep rows
        ≡ inr (
            write_channel_outputs timestep
              (length rows)
              w.num_channels
              (take (length rows * w.num_channels) (w.buffer.data_ ++ values rows))
            ∷ w.calls)
  unfolding calls_of_batch
  batch_calls w timestep rows same some_rows room none =
      let place : timestep ≡ timestep + 0 = omega arith in
      let written =
        ap (λ t. write_rows w t rows) place
        ∙ rows_appended rows w 0 timestep same (omega arith) none (inl (refl, some_rows)) in
      let sum : 0 + length rows ≡ length rows = omega arith in
      rw (calls_of_batch, written, sum)
        (ap inr (flush_batch w (w.buffer.data_ ++ values rows) (length rows) timestep some_rows))

  -- If a writer has no rows and no data in its buffer, and at least one row and fewer than its
  -- buffer can hold, all of the right size, are written at consecutive timesteps and flushed, then
  -- the file is called once, with the first timestep, the number of rows and the values of the
  -- rows in order.
  pub first_batch :
      (w : TimeSeriesWriter A S) (timestep : ℕ) (rows : List (List A))
      → All (λ row. length row ≡ w.num_channels) rows
      → 0 < length rows
      → length rows < w.buffer_size
      → w.buffer.num_rows ≡ 0
      → w.buffer.data_ ≡ []
      → calls_of_batch w timestep rows
        ≡ inr (write_channel_outputs timestep (length rows) w.num_channels (values rows) ∷ w.calls)
  first_batch w timestep rows same some_rows room none fresh =
      batch_calls w timestep rows same some_rows room none
      ∙ ap (λ xs. inr (write_channel_outputs timestep (length rows) w.num_channels xs ∷ w.calls))
          (rw (fresh, sym (length-values w.num_channels rows same))
            (ap (take (length (values rows))) (sym (append-nil (values rows)))
              ∙ take-append (values rows) []))

  -- If a writer has no rows in its buffer but the data of an earlier batch, which begin with as
  -- many values as the new batch has, then the same call has the earlier values in place of the
  -- new ones, whatever the new rows are.
  pub later_batch :
      (w : TimeSeriesWriter A S) (timestep : ℕ) (rows : List (List A)) (earlier rest : List A)
      → All (λ row. length row ≡ w.num_channels) rows
      → 0 < length rows
      → length rows < w.buffer_size
      → w.buffer.num_rows ≡ 0
      → w.buffer.data_ ≡ earlier ++ rest
      → length earlier ≡ length rows * w.num_channels
      → calls_of_batch w timestep rows
        ≡ inr (write_channel_outputs timestep (length rows) w.num_channels earlier ∷ w.calls)
  later_batch w timestep rows earlier rest same some_rows room none left size =
      batch_calls w timestep rows same some_rows room none
      ∙ ap (λ xs. inr (write_channel_outputs timestep (length rows) w.num_channels xs ∷ w.calls))
          (rw (left, sym size, append_assoc earlier rest (values rows))
            (take-append earlier (rest ++ values rows)))

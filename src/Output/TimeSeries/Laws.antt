-- ===== src/Output/TimeSeries/Laws.antt =====
-- The buffer of a writer: it never overruns, and every branch of a call is described.
use kynema_fmb.Base.{
  ℕ, ◌+◌, ◌*◌, ◌≤◌, ◌<◌, ◌≡◌, ◌⊎◌, inl, inr, refl, true, sym, subst, not, ◌&&◌, ◌∷◌, if◌then◌else◌,
  arith, List, length, length-append, ◌==◌, ==_of_eq, leb, Bool-cases,
}
use kynema_fmb.Output.TimeSeries.{
  TimeSeriesWriter, flush_buffer, file_closed, write_channel_outputs, start_batch, append_row,
  restarts, InvalidArgument, write_row_at_timestep,
}

module _ {A S : Type 0} where
  -- The span that a flush writes lies within the data, and a buffered batch is not full.
  pub record IsBuffered (w : TimeSeriesWriter A S) : Type 0 where
    pub in_data : w.buffer.num_rows * w.num_channels ≤ length w.buffer.data_
    pub not_full : (w.buffer_size ≡ 0) ⊎ (w.buffer.num_rows < w.buffer_size)

  -- What starting a batch leaves: the same data and sizes, and no rows or the rows so far.
  record IsStarted (w started : TimeSeriesWriter A S) : Type 0 where
    data_ : started.buffer.data_ ≡ w.buffer.data_
    channels : started.num_channels ≡ w.num_channels
    size : started.buffer_size ≡ w.buffer_size
    rows : (started.buffer.num_rows ≡ 0) ⊎ (started.buffer.num_rows ≡ w.buffer.num_rows)

  start_batch-IsStarted : (w : TimeSeriesWriter A S) (t : ℕ) → IsStarted w (start_batch w t)
  unfolding start_batch flush_buffer
  start_batch-IsStarted w t = elim (Bool-cases (w.buffer.num_rows == 0)) [
    | inl e ↦ rw e (record { data_ = refl; channels = refl; size = refl; rows = inr refl })
    | inr e ↦ rw e (elim (Bool-cases (t == w.buffer.start_timestep + w.buffer.num_rows)) [
      | inl on ↦ rw on (record { data_ = refl; channels = refl; size = refl; rows = inr refl })
      | inr off ↦ rw off (record { data_ = refl; channels = refl; size = refl; rows = inl refl })
    ])
  ]

  flush_buffer-IsBuffered :
      (w : TimeSeriesWriter A S)
      → w.buffer.num_rows * w.num_channels ≤ length w.buffer.data_
      → 0 < w.buffer_size
      → IsBuffered (flush_buffer w)
  unfolding flush_buffer
  flush_buffer-IsBuffered w fits size = elim (Bool-cases (w.buffer.num_rows == 0)) [
    | inl e ↦ rw e (record { in_data = fits; not_full = inr (ground arith) })
    | inr e ↦ rw e (record { in_data = omega arith; not_full = inr size })
  ]

  append_row-size :
      (w : TimeSeriesWriter A S) (t : ℕ) (row : List A)
      → (append_row (start_batch w t) row).buffer_size ≡ w.buffer_size
  unfolding append_row
  append_row-size w t row = (start_batch-IsStarted w t).size

  append_row-in_data :
      (w : TimeSeriesWriter A S) (t : ℕ) (row : List A)
      → IsBuffered w
      → length row ≡ w.num_channels
      → (append_row (start_batch w t) row).buffer.num_rows
          * (append_row (start_batch w t) row).num_channels
        ≤ length (append_row (start_batch w t) row).buffer.data_
  unfolding append_row
  append_row-in_data w t row h same =
      let s = start_batch-IsStarted w t in
      rw (s.data_, s.channels, length-append w.buffer.data_ row)
        (elim s.rows [
          | inl none ↦ rw none (omega arith)
          | inr some_rows ↦ rw some_rows (omega (arith, h.in_data))
        ])

  -- If the file is open, the rows in the buffer are covered by its data, so that the span of a
  -- flush lies within them, and the buffer is not full or not in use, then a row of the right size
  -- is accepted and the same holds of the buffer again.
  pub write_row_at_timestep-IsBuffered :
      (w : TimeSeriesWriter A S) (timestep : ℕ) (row : List A)
      → IsBuffered w
      → w.is_open ≡ true
      → length row ≡ w.num_channels
      → (w' : TimeSeriesWriter A S) × (write_row_at_timestep w timestep row ≡ inr w')
        × IsBuffered w'
  unfolding write_row_at_timestep
  write_row_at_timestep-IsBuffered w timestep row h open_ same =
      let appended = append_row (start_batch w timestep) row in
      let fits = append_row-in_data w timestep row h same in
      let Kept = λ (call : InvalidArgument ⊎ TimeSeriesWriter A S).
        (w' : TimeSeriesWriter A S) × (call ≡ inr w') × IsBuffered w' in
      rw (==_of_eq same) (elim (Bool-cases (w.buffer_size == 0)) [
        | inl none ↦
            let unbuffered = record w {
              calls = write_channel_outputs timestep 1 w.num_channels row ∷ w.calls;
            } in
            rw none (
              subst (λ b. Kept (if b then inr unbuffered else inl file_closed)) (sym open_)
                (unbuffered, refl, record { in_data = h.in_data; not_full = inl (ground arith) }))
        | inr some_size ↦
            let size : 0 < w.buffer_size = ground arith in
            let buffered : Kept (
                if leb appended.buffer_size appended.buffer.num_rows
                then inr (flush_buffer appended)
                else inr appended) =
              elim (Bool-cases (leb appended.buffer_size appended.buffer.num_rows)) [
                | inl full ↦ rw full (
                  flush_buffer appended,
                  refl,
                  flush_buffer-IsBuffered appended fits (rw (append_row-size w timestep row) size),
                )
                | inr room ↦
                    rw room
                      (appended, refl, record { in_data = fits; not_full = inr (ground arith) })
              ] in
            rw some_size (
              subst
                (λ b. Kept (
                  if restarts w timestep && not b
                  then inl file_closed
                  else (if leb appended.buffer_size appended.buffer.num_rows
                      then (if b then inr (flush_buffer appended) else inl file_closed)
                      else inr appended)))
                (sym open_)
                (elim (Bool-cases (restarts w timestep)) [
                  | inl gap ↦ rw gap buffered
                  | inr on ↦ rw on buffered
                ]))
      ])

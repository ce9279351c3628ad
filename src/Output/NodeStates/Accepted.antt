-- ===== src/Output/NodeStates/Accepted.antt =====
-- The branches of a call of the writer of the node states, and which calls are accepted.
use Prim.Native.String.{String}
use kynema_fmb.Base.{
  ℕ, suc, ◌≤◌, ◌<◌, ◌≡◌, ◌≢◌, ◌∙◌, some, refl, ◌⊎◌, inl, inr, arith, List, [], ◌∷◌, length, true,
  false, not, ◌&&◌, ◌==◌, leb, Bool-cases, ◌∈◌,
}
use kynema_fmb.Output.NodeStates.{
  StateTimestepData, NodeStateWriter, has_w, is_in, get_component_index, is_valid_prefix,
  same_sizes, write_record, empty_buffer, has_variables, flush_state_buffer, push_record,
  write_buffered, write_state_data_at_timestep,
}
use kynema_fmb.Output.NodeStates.Pending.{
  IsWritten, IsFiled, get_component_index-prefix, get_component_index_valid, write_record-IsWritten,
  write_record-keeps, empty_buffer-IsFiled, push_record-IsFiled, push_record-last,
  push_record-keeps, empty_buffer-keeps, empty_buffer_cases,
}

module _ {A : Type 0} where
  -- A record is written, or it stands in a buffer from a given index on.
  abbrev pub IsPending : ℕ → StateTimestepData A → NodeStateWriter A → Type 0
  IsPending first r writer =
      IsWritten r writer.calls
      ⊎ ((writer.buffer_size ≢ 0)
          × ((n : ℕ) × (first ≤ n) × (n < 5) × (r ∈ writer.state_buffers n)))

  -- The writer that a call without buffers leaves.
  abbrev unbuffered : NodeStateWriter A → StateTimestepData A → NodeStateWriter A
  unbuffered writer r = record writer {
    calls =
        write_record r.component_prefix (not (length r.w == 0) && has_w r.component_prefix) r
          writer.calls;
  }

  empty_buffer-IsPending :
      (index first : ℕ) (writer : NodeStateWriter A) (r : StateTimestepData A)
      → IsFiled writer
      → IsPending first r writer
      → IsPending first r (empty_buffer index writer)
  unfolding empty_buffer
  empty_buffer-IsPending index first writer r filed (inl written) =
      inl (empty_buffer-keeps index writer r written)
  empty_buffer-IsPending index first writer r filed (inr (size, (n, from, lt, m))) =
      elim (empty_buffer_cases index n writer r filed m) [
        | inl written ↦ inl written
        | inr (other, stays) ↦ inr (size, (n, from, lt, stays))
      ]

  pub empty_buffer-IsPending-suc :
      (index : ℕ) (writer : NodeStateWriter A) (r : StateTimestepData A)
      → IsFiled writer
      → IsPending index r writer
      → IsPending (suc index) r (empty_buffer index writer)
  unfolding empty_buffer
  empty_buffer-IsPending-suc index writer r filed (inl written) =
      inl (empty_buffer-keeps index writer r written)
  empty_buffer-IsPending-suc index writer r filed (inr (size, (n, from, lt, m))) =
      elim (empty_buffer_cases index n writer r filed m) [
        | inl written ↦ inl written
        | inr (other, stays) ↦ inr (size, (n, ground arith, lt, stays))
      ]

  push_record-IsPending :
      (index : ℕ) (writer : NodeStateWriter A) (r s : StateTimestepData A)
      → IsPending 0 s writer
      → IsPending 0 s (push_record index r writer)
  unfolding push_record
  push_record-IsPending index writer r s (inl written) = inl written
  push_record-IsPending index writer r s (inr (size, (n, from, lt, m))) =
      inr (size, (n, from, lt, push_record-keeps index n r s writer m))

  -- What an accepted call leaves.
  pub record IsAccepted (writer : NodeStateWriter A) (r : StateTimestepData A)
      (next : NodeStateWriter A) : Type 0 where
    pub enabled : next.enabled_state_prefixes ≡ writer.enabled_state_prefixes
    pub filed : IsFiled next
    pub pending : IsPending 0 r next
    pub kept : (s : StateTimestepData A) → IsPending 0 s writer → IsPending 0 s next

  push_record-IsAccepted :
      (index : ℕ) (writer : NodeStateWriter A) (r : StateTimestepData A)
      → IsFiled writer
      → writer.buffer_size ≢ 0
      → get_component_index r.component_prefix ≡ some index
      → is_in r.component_prefix writer.enabled_state_prefixes ≡ true
      → IsAccepted writer r (push_record index r writer)
  unfolding push_record
  push_record-IsAccepted index writer r filed size e known = record {
    enabled = refl;
    filed = push_record-IsFiled index r writer e known filed;
    pending = inr (
      size,
      (
        index,
        omega arith,
        (get_component_index-prefix r.component_prefix index e).0,
        push_record-last index r writer,
      ),
    );
    kept = push_record-IsPending index writer r;
  }

  empty_buffer-IsAccepted :
      (index : ℕ) (writer next : NodeStateWriter A) (r : StateTimestepData A)
      → IsAccepted writer r next
      → IsAccepted writer r (empty_buffer index next)
  unfolding empty_buffer
  empty_buffer-IsAccepted index writer next r a = record {
    enabled = a.enabled;
    filed = empty_buffer-IsFiled index next a.filed;
    pending = empty_buffer-IsPending index 0 next r a.filed a.pending;
    kept = λ s p. empty_buffer-IsPending index 0 next s a.filed (a.kept s p);
  }

  unbuffered-IsAccepted :
      (writer : NodeStateWriter A) (r : StateTimestepData A)
      → IsFiled writer
      → IsAccepted writer r (unbuffered writer r)
  unbuffered-IsAccepted writer r filed =
      let now = not (length r.w == 0) && has_w r.component_prefix in
      record {
        enabled = refl;
        filed = filed;
        pending = inl (write_record-IsWritten now r writer.calls);
        kept = λ s p. elim p [
          | inl written ↦
              inl (λ c m. write_record-keeps r.component_prefix now r writer.calls c (written c m))
          | inr waits ↦ inr waits
        ];
      }

  -- A flush of a buffer whose records have variables does not throw.
  pub flush_state_buffer-IsFiled :
      (index : ℕ) (writer : NodeStateWriter A)
      → IsFiled writer
      → flush_state_buffer index writer ≡ inr (empty_buffer index writer)
  unfolding flush_state_buffer empty_buffer
  flush_state_buffer-IsFiled index writer filed =
      rw (first (writer.state_buffers index) (λ r m. (filed index r m).1)) refl
    where
      first :
          (rs : List (StateTimestepData A))
          → ((r : StateTimestepData A)
              → r ∈ rs
              → is_in r.component_prefix writer.enabled_state_prefixes ≡ true)
          → has_variables writer.enabled_state_prefixes rs ≡ true
      first [] known = refl
      first (front ∷ rest) known = known front (inl refl)

  -- A call that is accepted: a prefix of the five that is enabled, and vectors of one length.
  pub record IsValid (prefixes : List String) (r : StateTimestepData A) : Type 0 where
    pub prefix : is_valid_prefix r.component_prefix ≡ true
    pub sizes : same_sizes r ≡ true
    pub enabled : is_in r.component_prefix prefixes ≡ true

  -- The branches of a call with buffers.
  buffered_full :
      (writer : NodeStateWriter A) (r : StateTimestepData A) (index : ℕ)
      → get_component_index r.component_prefix ≡ some index
      → leb writer.buffer_size (length ((push_record index r writer).state_buffers index)) ≡ true
      → write_buffered writer r ≡ flush_state_buffer index (push_record index r writer)
  unfolding write_buffered
  buffered_full writer r index e full = rw (write_buffered, e, full) refl

  buffered_room :
      (writer : NodeStateWriter A) (r : StateTimestepData A) (index : ℕ)
      → get_component_index r.component_prefix ≡ some index
      → leb writer.buffer_size (length ((push_record index r writer).state_buffers index)) ≡ false
      → write_buffered writer r ≡ inr (push_record index r writer)
  unfolding write_buffered
  buffered_room writer r index e room = rw (write_buffered, e, room) refl

  pub write_state-IsAccepted :
      (writer : NodeStateWriter A) (r : StateTimestepData A)
      → IsFiled writer
      → IsValid writer.enabled_state_prefixes r
      → (next : NodeStateWriter A) × (write_state_data_at_timestep writer r ≡ inr next)
        × IsAccepted writer r next
  unfolding write_state_data_at_timestep
  write_state-IsAccepted writer r filed valid =
      let (index, at_index) = get_component_index_valid r.component_prefix valid.prefix in
      let pushed_writer = push_record index r writer in
      elim (Bool-cases (writer.buffer_size == 0)) [
        | inl none_ ↦ (
          unbuffered writer r,
          rw (valid.prefix, valid.sizes, none_, valid.enabled) refl,
          unbuffered-IsAccepted writer r filed,
        )
        | inr some_ ↦
            let accepted =
              push_record-IsAccepted index writer r filed (ground arith) at_index valid.enabled in
            elim (Bool-cases
              (leb writer.buffer_size (length (pushed_writer.state_buffers index)))) [
                | inl full ↦ (
                  empty_buffer index pushed_writer,
                  rw (valid.prefix, valid.sizes, some_)
                      (buffered_full writer r index at_index full
                        ∙ flush_state_buffer-IsFiled index pushed_writer accepted.filed),
                  empty_buffer-IsAccepted index writer pushed_writer r accepted,
                )
                | inr room ↦ (
                  pushed_writer,
                  rw (valid.prefix, valid.sizes, some_)
                      (buffered_room writer r index at_index room),
                  accepted,
                )
              ]
      ]

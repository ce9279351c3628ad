-- ===== src/State/Restart.antt =====
-- src/state/write_state_to_file.hpp and read_state_from_file.hpp: the restart file. A stream is a list
-- of eight-byte words. `to_word` and `of_word` are the two directions of the casts between a
-- `size_t` and its bytes; a `double` is the word that its bytes are.
pub mod RoundTrip
use kynema_fmb.Base.{
  ℕ, zero, suc, ◌+◌, ◌*◌, ◌/◌, ◌%◌, ◌^◌, ◌<◌, ◌≡◌, ◌≢◌, ◌⊎◌, inl, inr, refl, sym, ap, ◌∙◌, subst,
  arith, List, [], ◌∷◌, ◌++◌, length, take, take-append, View, View2, write_list, segment, ◌==◌,
  ==_refl, ==_of_eq, not, if◌then◌else◌, Holds-write_list, Holds,
}
use kynema_fmb.State.{State}

-- The elements of a list after the first `n`.
unfoldable pub drop : {A : Type 0} → ℕ → List A → List A
drop zero xs = xs
drop (suc n) [] = []
drop (suc n) (x ∷ xs) = drop n xs

module _ {W : Type 0} where
  -- The words of the `num_system_nodes` rows of a view, each of `columns`.
  unfoldable pub write_view : ℕ → ℕ → View2 W → List W
  write_view columns num_system_nodes data_ =
      segment (λ k. data_ (k / columns) (k % columns)) 0 (columns * num_system_nodes)

  -- What `read` leaves in the host view `out` and in the stream. A short stream fills a part of it.
  unfoldable pub read_view : ℕ → ℕ → View W × List W → View W × List W
  read_view columns num_system_nodes (out, stream) =
      let stream_size = columns * num_system_nodes in
      (write_list out 0 (take stream_size stream), drop stream_size stream)

  -- The view that the host view is copied to.
  unfoldable pub rows : ℕ → View W → View2 W
  rows columns out i j = out (i * columns + j)

unfoldable pub write_state_to_file : {W : Type 0} → (ℕ → W) → State W → List W
write_state_to_file to_word state =
    let n = state.num_system_nodes in
    to_word n
    ∷ (write_view 7 n state.x0
        ++ (write_view 7 n state.x
            ++ (write_view 6 n state.q_delta
                ++ (write_view 7 n state.q_prev
                    ++ (write_view 7 n state.q
                        ++ (write_view 6 n state.v
                            ++ (write_view 6 n state.vd
                                ++ (write_view 6 n state.a ++ write_view 6 n state.f))))))))

pub data LengthError : Type 0 where
  other_number_of_nodes : LengthError

-- The nine reads. `out_7` and `out_6` are what the two host views hold at first: all zeros.
unfoldable pub read_views : {W : Type 0} → W → State W → List W → State W
read_views zero_word state stream =
    let n = state.num_system_nodes in
    let (x0, s1) = read_view 7 n ((λ _. zero_word), stream) in
    let (x, s2) = read_view 7 n (x0, s1) in
    let (q_delta, s3) = read_view 6 n ((λ _. zero_word), s2) in
    let (q_prev, s4) = read_view 7 n (x, s3) in
    let (q, s5) = read_view 7 n (q_prev, s4) in
    let (v, s6) = read_view 6 n (q_delta, s5) in
    let (vd, s7) = read_view 6 n (v, s6) in
    let (a, s8) = read_view 6 n (vd, s7) in
    let (f, s9) = read_view 6 n (a, s8) in
    record state {
      x0 = rows 7 x0;
      x = rows 7 x;
      q_delta = rows 6 q_delta;
      q_prev = rows 7 q_prev;
      q = rows 7 q;
      v = rows 6 v;
      vd = rows 6 vd;
      a = rows 6 a;
      f = rows 6 f;
    }

-- The first read of an empty stream leaves the zero that the count was initialised with.
unfoldable pub read_state_from_file :
    {W : Type 0} → (W → ℕ) → W → State W → List W → LengthError ⊎ State W
read_state_from_file of_word zero_word state [] =
    if 0 == state.num_system_nodes
    then inr (read_views zero_word state [])
    else inl other_number_of_nodes
read_state_from_file of_word zero_word state (word ∷ stream) =
    if of_word word == state.num_system_nodes
    then inr (read_views zero_word state stream)
    else inl other_number_of_nodes

-- ===== src/State/Restart/RoundTrip.antt =====
-- What is written to a restart file is read back.
use kynema_fmb.Base.{
  ℕ, zero, suc, ◌+◌, ◌*◌, ◌/◌, ◌%◌, ◌≤◌, ◌<◌, ◌≡◌, inl, inr, refl, sym, ap, ◌∙◌, subst, arith, List,
  [], ◌∷◌, ◌++◌, length, take, take-append, View, View2, write, write_self, write_list,
  write_list_before, segment, ◌==◌, ==_iff, ==_of_eq, Bool-cases,
}
use mathlib.Core.List.{append-nil}
use kynema_fmb.State.{State}
use kynema_fmb.State.Restart.{
  drop, write_view, read_view, rows, write_state_to_file, read_views, read_state_from_file,
}

drop-append : {A : Type 0} (xs ys : List A) → drop (length xs) (xs ++ ys) ≡ ys
unfolding drop
drop-append [] ys = refl
drop-append (x ∷ xs) ys = drop-append xs ys

length-segment : {A : Type 0} (v : View A) (start n : ℕ) → length (segment v start n) ≡ n
unfolding segment
length-segment v start zero = refl
length-segment v start (suc n) = ap suc (length-segment v (suc start) n)

-- A part of a view, written to another one at the same place.
write_list-segment :
    {A : Type 0} (v out : View A) (start n j : ℕ)
    → start ≤ j
    → j < start + n
    → write_list out start (segment v start n) j ≡ v j
unfolding write_list segment
write_list-segment v out start zero j lo hi = absurd (omega arith)
write_list-segment v out start (suc n) j lo hi = elim (Bool-cases (start == j)) [
  | inl e ↦
      subst
        (λ k. write_list (write out start (v start)) (suc start) (segment v (suc start) n) k ≡ v k)
        ((==_iff start j).0 e)
        (write_list_before (write out start (v start)) (suc start) start (segment v (suc start) n)
            (omega arith)
          ∙ write_self out start (v start))
  | inr e ↦
      write_list-segment v (write out start (v start)) (suc start) n j (ground arith) (omega arith)
]

module _ {W : Type 0} where
  read_written :
      (columns n : ℕ) (data_ : View2 W) (out : View W) (rest : List W)
      → read_view columns n (out, write_view columns n data_ ++ rest)
        ≡ (write_list out 0 (write_view columns n data_), rest)
  unfolding read_view write_view
  read_written columns n data_ out rest =
      let flat = λ (k : ℕ). data_ (k / columns) (k % columns) in
      let words = segment flat 0 (columns * n) in
      let size = sym (length-segment flat 0 (columns * n)) in
      λ i. (
        write_list out 0 ((ap (λ m. take m (words ++ rest)) size ∙ take-append words rest) i),
        (ap (λ m. drop m (words ++ rest)) size ∙ drop-append words rest) i,
      )

  read_last :
      (columns n : ℕ) (data_ : View2 W) (out : View W)
      → read_view columns n (out, write_view columns n data_)
        ≡ (write_list out 0 (write_view columns n data_), [])
  read_last columns n data_ out =
      ap (λ stream. read_view columns n (out, stream))
        (sym (append-nil (write_view columns n data_)))
      ∙ read_written columns n data_ out []

  rows_7 :
      (n i j : ℕ) (data_ : View2 W) (out : View W)
      → i < n
      → j < 7
      → rows 7 (write_list out 0 (write_view 7 n data_)) i j ≡ data_ i j
  unfolding rows write_view
  rows_7 n i j data_ out lt below =
      let quotient : (i * 7 + j) / 7 ≡ i = omega arith in
      let remainder : (i * 7 + j) % 7 ≡ j = omega arith in
      write_list-segment (λ k. data_ (k / 7) (k % 7)) out 0 (7 * n) (i * 7 + j) (omega arith)
        (omega arith)
      ∙ λ t. data_ (quotient t) (remainder t)

  rows_6 :
      (n i j : ℕ) (data_ : View2 W) (out : View W)
      → i < n
      → j < 6
      → rows 6 (write_list out 0 (write_view 6 n data_)) i j ≡ data_ i j
  unfolding rows write_view
  rows_6 n i j data_ out lt below =
      let quotient : (i * 6 + j) / 6 ≡ i = omega arith in
      let remainder : (i * 6 + j) % 6 ≡ j = omega arith in
      write_list-segment (λ k. data_ (k / 6) (k % 6)) out 0 (6 * n) (i * 6 + j) (omega arith)
        (omega arith)
      ∙ λ t. data_ (quotient t) (remainder t)

  -- The host view after the words of a view have been read into it.
  abbrev written : ℕ → ℕ → View2 W → View W → View W
  written columns n data_ out = write_list out 0 (write_view columns n data_)

  read_views-eq :
      (zero_word : W) (old state : State W)
      → let n = state.num_system_nodes in
        let zeros : View W = λ _. zero_word in
        let x0 = written 7 n old.x0 zeros in
        let x = written 7 n old.x x0 in
        let q_delta = written 6 n old.q_delta zeros in
        let q_prev = written 7 n old.q_prev x in
        let q = written 7 n old.q q_prev in
        let v = written 6 n old.v q_delta in
        let vd = written 6 n old.vd v in
        let a = written 6 n old.a vd in
        let f = written 6 n old.f a in
        read_views zero_word state (
          write_view 7 n old.x0
          ++ (write_view 7 n old.x
              ++ (write_view 6 n old.q_delta
                  ++ (write_view 7 n old.q_prev
                      ++ (write_view 7 n old.q
                          ++ (write_view 6 n old.v
                              ++ (write_view 6 n old.vd
                                  ++ (write_view 6 n old.a ++ write_view 6 n old.f))))))))
        ≡ record state {
          x0 = rows 7 x0;
          x = rows 7 x;
          q_delta = rows 6 q_delta;
          q_prev = rows 7 q_prev;
          q = rows 7 q;
          v = rows 6 v;
          vd = rows 6 vd;
          a = rows 6 a;
          f = rows 6 f;
        }
  unfolding read_views
  read_views-eq zero_word old state =
      let n = state.num_system_nodes in
      rw
        (
          read_written 7 n old.x0,
          read_written 7 n old.x,
          read_written 6 n old.q_delta,
          read_written 7 n old.q_prev,
          read_written 7 n old.q,
          read_written 6 n old.v,
          read_written 6 n old.vd,
          read_written 6 n old.a,
          read_last 6 n old.f,
        )
        refl

-- If the casts take the number of nodes to a word and back, a state with as many nodes reads a
-- restart file without an error, every number of the nine views is the one that was written, and
-- the numbering of the reading state is kept.
pub restart_round_trip :
    {W : Type 0} (to_word : ℕ → W) (of_word : W → ℕ) (zero_word : W) (old state : State W)
    (i j k : ℕ)
    → of_word (to_word old.num_system_nodes) ≡ old.num_system_nodes
    → old.num_system_nodes ≡ state.num_system_nodes
    → i < old.num_system_nodes
    → j < 7
    → k < 6
    → (new : State W) × (read_state_from_file of_word zero_word state
          (write_state_to_file to_word old)
        ≡ inr new)
      × (new.x0 i j ≡ old.x0 i j)
      × (new.x i j ≡ old.x i j)
      × (new.q_delta i k ≡ old.q_delta i k)
      × (new.q_prev i j ≡ old.q_prev i j)
      × (new.q i j ≡ old.q i j)
      × (new.v i k ≡ old.v i k)
      × (new.vd i k ≡ old.vd i k)
      × (new.a i k ≡ old.a i k)
      × (new.f i k ≡ old.f i k)
      × (new.active_dofs ≡ state.active_dofs)
      × (new.node_freedom_map_table ≡ state.node_freedom_map_table)
unfolding read_state_from_file write_state_to_file
restart_round_trip to_word of_word zero_word old state i j k cast same lt in_7 in_6 =
    let n = state.num_system_nodes in
    let below : i < n = omega arith in
    let zeros : View _ = λ _. zero_word in
    let x0 = written 7 n old.x0 zeros in
    let x = written 7 n old.x x0 in
    let q_delta = written 6 n old.q_delta zeros in
    let q_prev = written 7 n old.q_prev x in
    let q = written 7 n old.q q_prev in
    let v = written 6 n old.v q_delta in
    let vd = written 6 n old.vd v in
    let a = written 6 n old.a vd in
    rw (same, ==_of_eq (ap (λ m. of_word (to_word m)) (sym same) ∙ cast ∙ same))
      (
        _,
        ap inr (read_views-eq zero_word old state),
        rows_7 n i j old.x0 zeros below in_7,
        rows_7 n i j old.x x0 below in_7,
        rows_6 n i k old.q_delta zeros below in_6,
        rows_7 n i j old.q_prev x below in_7,
        rows_7 n i j old.q q_prev below in_7,
        rows_6 n i k old.v q_delta below in_6,
        rows_6 n i k old.vd v below in_6,
        rows_6 n i k old.a vd below in_6,
        rows_6 n i k old.f a below in_6,
        refl,
        refl,
      )

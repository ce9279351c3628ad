-- ===== src/Output/NodeStates/Pending.antt =====
-- Records of the node states on their way to the file: in a buffer of their component, or written.
use Prim.Native.String.{String}
use text.Mathlib.TextEquality.{eq_iff}
use kynema_fmb.Base.{
  ℕ, zero, suc, ◌<◌, ◌≡◌, ◌≢◌, refl, sym, ap, ◌∙◌, subst, ◌⊎◌, inl, inr, arith, List, [], ◌∷◌,
  length, none, some, Bool, true, false, not, ◌&&◌, ◌==◌, ==_iff, Bool-cases, Option-cases, ◌∈◌,
  mem-append_left, mem-append_right, mem-append_cases, ==_refl,
}
use kynema_fmb.Output.NodeStates.{
  is_in, NodeFileCall, write_variable_at, x_axis, y_axis, z_axis, i_axis, j_axis, k_axis,
  StateTimestepData, NodeStateWriter, has_w, get_component_index, is_valid_prefix, write_record,
  write_records, write_buffer, empty_buffer, push_record,
}

abbrev pub prefix_of : ℕ → String
prefix_of zero = "x"
prefix_of (suc zero) = "u"
prefix_of (suc (suc zero)) = "v"
prefix_of (suc (suc (suc zero))) = "a"
prefix_of (suc (suc (suc (suc n)))) = "f"

-- A component has one index, and an index one prefix.
pub get_component_index-prefix :
    (s : String) (n : ℕ) → get_component_index s ≡ some n → (n < 5) × (s ≡ prefix_of n)
unfolding get_component_index
get_component_index-prefix s zero h =
    ground (arith, eq_iff s "x", eq_iff s "u", eq_iff s "v", eq_iff s "a", eq_iff s "f")
get_component_index-prefix s (suc zero) h =
    ground (arith, eq_iff s "x", eq_iff s "u", eq_iff s "v", eq_iff s "a", eq_iff s "f")
get_component_index-prefix s (suc (suc zero)) h =
    ground (arith, eq_iff s "x", eq_iff s "u", eq_iff s "v", eq_iff s "a", eq_iff s "f")
get_component_index-prefix s (suc (suc (suc zero))) h =
    ground (arith, eq_iff s "x", eq_iff s "u", eq_iff s "v", eq_iff s "a", eq_iff s "f")
get_component_index-prefix s (suc (suc (suc (suc zero)))) h =
    ground (arith, eq_iff s "x", eq_iff s "u", eq_iff s "v", eq_iff s "a", eq_iff s "f")
get_component_index-prefix s (suc (suc (suc (suc (suc n))))) h =
    ground (arith, eq_iff s "x", eq_iff s "u", eq_iff s "v", eq_iff s "a", eq_iff s "f")

get_component_index-none : (s : String) → get_component_index s ≡ none → is_valid_prefix s ≡ false
unfolding get_component_index is_valid_prefix
get_component_index-none s h = ground arith

pub get_component_index_valid :
    (s : String) → is_valid_prefix s ≡ true → (n : ℕ) × (get_component_index s ≡ some n)
unfolding get_component_index is_valid_prefix
get_component_index_valid s h = elim (Option-cases (get_component_index s)) [
  | inl e ↦ absurd (ground (arith, get_component_index-none s e))
  | inr found ↦ found
]

module _ {A : Type 0} where
  -- The calls that write the six axes of a record.
  abbrev pub calls_of : StateTimestepData A → List (NodeFileCall A)
  calls_of r =
      let p = r.component_prefix in
      let t = r.timestep in
      let n = length r.x in
      write_variable_at p x_axis t n r.x
      ∷ (write_variable_at p y_axis t n r.y
          ∷ (write_variable_at p z_axis t n r.z
              ∷ (write_variable_at p i_axis t n r.i
                  ∷ (write_variable_at p j_axis t n r.j
                      ∷ (write_variable_at p k_axis t n r.k ∷ [])))))

  abbrev pub IsWritten : StateTimestepData A → List (NodeFileCall A) → Type 0
  IsWritten r calls = (c : NodeFileCall A) → c ∈ calls_of r → c ∈ calls

  -- Every record stands in the buffer of its component, which has variables in the file.
  abbrev pub IsFiled : NodeStateWriter A → Type 0
  IsFiled writer =
      (n : ℕ) (r : StateTimestepData A)
      → r ∈ writer.state_buffers n
      → (get_component_index r.component_prefix ≡ some n)
        × (is_in r.component_prefix writer.enabled_state_prefixes ≡ true)

  pub write_record-keeps :
      (p : String) (b : Bool) (r : StateTimestepData A) (calls : List (NodeFileCall A))
      (c : NodeFileCall A)
      → c ∈ calls
      → c ∈ write_record p b r calls
  unfolding write_record
  write_record-keeps p true r calls c m = inr (inr (inr (inr (inr (inr (inr m))))))
  write_record-keeps p false r calls c m = inr (inr (inr (inr (inr (inr m)))))

  pub write_record-IsWritten :
      (b : Bool) (r : StateTimestepData A) (calls : List (NodeFileCall A))
      → IsWritten r (write_record r.component_prefix b r calls)
  unfolding write_record
  write_record-IsWritten true r calls c m = ground arith
  write_record-IsWritten false r calls c m = ground arith

  write_records-keeps :
      (p : String) (b : Bool) (rs : List (StateTimestepData A)) (calls : List (NodeFileCall A))
      (c : NodeFileCall A)
      → c ∈ calls
      → c ∈ write_records p b rs calls
  unfolding write_records
  write_records-keeps p b [] calls c m = m
  write_records-keeps p b (r ∷ rs) calls c m =
      write_records-keeps p b rs _ c (write_record-keeps p (b && not (length r.w == 0)) r calls c m)

  write_records-IsWritten :
      (p : String) (b : Bool) (rs : List (StateTimestepData A)) (calls : List (NodeFileCall A))
      (r : StateTimestepData A)
      → r ∈ rs
      → r.component_prefix ≡ p
      → IsWritten r (write_records p b rs calls)
  unfolding write_records
  write_records-IsWritten p b [] calls r m e c at_c = absurd m
  write_records-IsWritten p b (s ∷ rs) calls r (inr m) e c at_c =
      write_records-IsWritten p b rs _ r m e c at_c
  write_records-IsWritten p b (s ∷ rs) calls r (inl same) e c at_c =
      let now = b && not (length s.w == 0) in
      write_records-keeps p b rs _ c (
        subst (λ q. c ∈ write_record q now s calls) (ap (λ t. t.component_prefix) (sym same) ∙ e)
          (write_record-IsWritten now s calls c (subst (λ t. c ∈ calls_of t) same at_c)))

  write_buffer-keeps :
      (rs : List (StateTimestepData A)) (calls : List (NodeFileCall A)) (c : NodeFileCall A)
      → c ∈ calls
      → c ∈ write_buffer rs calls
  unfolding write_buffer
  write_buffer-keeps [] calls c m = m
  write_buffer-keeps (front ∷ rest) calls c m =
      write_records-keeps front.component_prefix
        (not (length front.w == 0) && has_w front.component_prefix) (front ∷ rest) calls c m

  write_buffer-IsWritten :
      (rs : List (StateTimestepData A)) (calls : List (NodeFileCall A)) (r : StateTimestepData A)
      (n : ℕ)
      → ((s : StateTimestepData A) → s ∈ rs → get_component_index s.component_prefix ≡ some n)
      → r ∈ rs
      → IsWritten r (write_buffer rs calls)
  unfolding write_buffer
  write_buffer-IsWritten [] calls r n filed m = absurd m
  write_buffer-IsWritten (front ∷ rest) calls r n filed m =
      write_records-IsWritten front.component_prefix
        (not (length front.w == 0) && has_w front.component_prefix) (front ∷ rest) calls r m
        ((get_component_index-prefix r.component_prefix n (filed r m)).1
          ∙ sym (get_component_index-prefix front.component_prefix n (filed front (inl refl))).1)

  pub empty_buffer-IsFiled :
      (index : ℕ) (writer : NodeStateWriter A)
      → IsFiled writer
      → IsFiled (empty_buffer index writer)
  unfolding empty_buffer
  empty_buffer-IsFiled index writer filed n r m = elim (Bool-cases (n == index)) [
    | inl e ↦ absurd (rw e at m)
    | inr e ↦ filed n r (rw e at m)
  ]

  pub push_record-IsFiled :
      (index : ℕ) (r : StateTimestepData A) (writer : NodeStateWriter A)
      → get_component_index r.component_prefix ≡ some index
      → is_in r.component_prefix writer.enabled_state_prefixes ≡ true
      → IsFiled writer
      → IsFiled (push_record index r writer)
  unfolding push_record
  push_record-IsFiled index r writer e enabled filed n s m = elim (Bool-cases (n == index)) [
    | inl here ↦
        let same = (==_iff n index).0 here in
        elim (mem-append_cases s (writer.state_buffers index) (r ∷ []) (rw here at m)) [
          | inl before ↦ let (at, known) = filed index s before in (at ∙ ap some (sym same), known)
          | inr (inl last) ↦ (
            ap (λ t. get_component_index t.component_prefix) last ∙ e ∙ ap some (sym same),
            ap (λ t. is_in t.component_prefix writer.enabled_state_prefixes) last ∙ enabled,
          )
          | inr (inr none_) ↦ absurd none_
        ]
    | inr other ↦ filed n s (rw other at m)
  ]

  -- A record that is pushed stands in the buffer, and the records before it stay.
  pub push_record-last :
      (index : ℕ) (r : StateTimestepData A) (writer : NodeStateWriter A)
      → r ∈ (push_record index r writer).state_buffers index
  unfolding push_record
  push_record-last index r writer =
      rw (==_refl index) (mem-append_right r (writer.state_buffers index) (r ∷ []) (inl refl))

  pub push_record-keeps :
      (index n : ℕ) (r s : StateTimestepData A) (writer : NodeStateWriter A)
      → s ∈ writer.state_buffers n
      → s ∈ (push_record index r writer).state_buffers n
  unfolding push_record
  push_record-keeps index n r s writer m = elim (Bool-cases (n == index)) [
    | inl here ↦ rw here (
        mem-append_left s (writer.state_buffers index) (r ∷ [])
          (subst (λ t. s ∈ writer.state_buffers t) ((==_iff n index).0 here) m))
    | inr other ↦ rw other m
  ]

  -- A flush writes the buffer with its index and leaves the others.
  pub empty_buffer-keeps :
      (index : ℕ) (writer : NodeStateWriter A) (r : StateTimestepData A)
      → IsWritten r writer.calls
      → IsWritten r (empty_buffer index writer).calls
  unfolding empty_buffer
  empty_buffer-keeps index writer r written c m =
      write_buffer-keeps (writer.state_buffers index) writer.calls c (written c m)

  pub empty_buffer_cases :
      (index n : ℕ) (writer : NodeStateWriter A) (r : StateTimestepData A)
      → IsFiled writer
      → r ∈ writer.state_buffers n
      → IsWritten r (empty_buffer index writer).calls
        ⊎ ((n ≢ index) × (r ∈ (empty_buffer index writer).state_buffers n))
  unfolding empty_buffer
  empty_buffer_cases index n writer r filed m = elim (Bool-cases (n == index)) [
    | inl e ↦ inl (
        write_buffer-IsWritten (writer.state_buffers index) writer.calls r index
          (λ t at. (filed index t at).0)
          (subst (λ t. r ∈ writer.state_buffers t) ((==_iff n index).0 e) m))
    | inr e ↦ inr (ground arith, rw e m)
  ]

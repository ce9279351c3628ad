-- ===== src/Model/Mesh/Written.antt =====
-- src/model/mesh_connectivity.hpp: the entries that a map
-- becomes, and what is read from them.
use Prim.Native.String.{String}
use kynema_fmb.Base.{
  ℕ, ◌<◌, ◌≡◌, ◌≢◌, ◌∈◌, inl, inr, refl, sym, ap, ◌∙◌, subst, arith, List, [], ◌∷◌, ◌++◌, none,
  some, Option, All, All-append, Option-cases,
}
use kynema_fmb.Model.Maps.{Dict, lookup, insert, lookup-insert_self, lookup-insert_other}
use kynema_fmb.Model.Mesh.Order.{Ascending}
use kynema_fmb.Model.Mesh.Yaml.{Yaml, IsYaml, export_ids, import_entries}

append_assoc : {A : Type 0} (xs ys zs : List A) → (xs ++ ys) ++ zs ≡ xs ++ (ys ++ zs)
append_assoc [] ys zs = refl
append_assoc (x ∷ xs) ys zs = ap (◌∷◌ x) (append_assoc xs ys zs)

append_nil : {A : Type 0} (xs : List A) → xs ++ [] ≡ xs
append_nil [] = refl
append_nil (x ∷ xs) = ap (◌∷◌ x) (append_nil xs)

-- No node list of the map is empty.
abbrev pub HasNodes : Dict (List ℕ) → Type 0
HasNodes d = (id : ℕ) (ids : List ℕ) → lookup id d ≡ some ids → ids ≢ []

module _ {Y : Type 0} (y : Yaml Y) (laws : IsYaml y) where
  -- What the loop over the entries `added` makes of the map `before`.
  pub record ReadBack (d : Dict (List ℕ)) (ids : List ℕ) (added : List (Option String × Y))
      (before : Dict (List ℕ)) : Type 0 where
    pub result : Dict (List ℕ)
    pub read : import_entries y added before ≡ (none, result)
    pub inside : (id : ℕ) → id ∈ ids → lookup id result ≡ lookup id d
    pub outside : (id : ℕ) → ¬ (id ∈ ids) → lookup id result ≡ lookup id before

  -- What the loop over the sorted keys makes of a node, and what is read from that.
  pub record Written (d : Dict (List ℕ)) (ids : List ℕ) (node : Y) : Type 0 where
    pub result : Y
    pub written : export_ids y d ids node ≡ some result
    pub added : List (Option String × Y)
    pub entries : y.entries result ≡ y.entries node ++ added
    pub read_back : (before : Dict (List ℕ)) → ReadBack d ids added before

  abbrev pub NoEntry : Y → ℕ → Type 0
  NoEntry node id =
      All (λ (entry : Option String × Y). (entry.0 ≢ none) × (entry.0 ≢ some (y.to_string id)))
        (y.entries node)

  to_string_injective : (a b : ℕ) → y.to_string a ≡ y.to_string b → a ≡ b
  to_string_injective a b same =
      some_injective
        (sym (laws.stoul_to_string a) ∙ ap (λ t. y.stoul t) same ∙ laws.stoul_to_string b)
    where
      some_injective : {a b : ℕ} → some a ≡ some b → a ≡ b
      some_injective h = cc

  -- A key that the loop sets is another than those that follow.
  next-NoEntry :
      (node value : Y) (id later : ℕ)
      → NoEntry node id
      → NoEntry node later
      → id < later
      → NoEntry (y.set node (y.to_string id) value) later
  next-NoEntry node value id later here there lt =
      rw (laws.entries_set node value (y.to_string id) here) (
        All-append
          (λ (entry : Option String × Y). (entry.0 ≢ none) × (entry.0 ≢ some (y.to_string later)))
          (y.entries node) ((some (y.to_string id), value) ∷ []) there
          (
            (
              (λ h. absurd (cc)),
              (λ same. absurd (omega (arith, to_string_injective id later (cc)))),
            ),
            tt,
          ))

  sequence_read : (ids : List ℕ) → ids ≢ [] → y.as_ids (y.sequence ids) ≡ some ids
  sequence_read [] h = absurd (h refl)
  sequence_read (id ∷ ids) h = laws.as_sequence id ids

  later_absent : (id : ℕ) (ids : List ℕ) → All (λ k. id < k) ids → ¬ (id ∈ ids)
  later_absent id [] above m = m
  later_absent id (k ∷ ids) (lt, above) (inl e) = omega arith
  later_absent id (k ∷ ids) (lt, above) (inr m) = later_absent id ids above m

  All-next :
      (node value : Y) (id : ℕ) (ids : List ℕ)
      → All (λ k. id < k) ids
      → NoEntry node id
      → All (NoEntry node) ids
      → All (NoEntry (y.set node (y.to_string id) value)) ids
  All-next node value id [] above here there = tt
  All-next node value id (k ∷ ids) (lt, above) here (first, there) =
      (next-NoEntry node value id k here first lt, All-next node value id ids above here there)

  write_id :
      (d : Dict (List ℕ)) (id : ℕ) (ids nodes : List ℕ) (node : Y)
      → All (λ k. id < k) ids
      → NoEntry node id
      → nodes ≢ []
      → lookup id d ≡ some nodes
      → Written d ids (y.set node (y.to_string id) (y.sequence nodes))
      → Written d (id ∷ ids) node
  unfolding export_ids import_entries
  write_id d id ids nodes node above first full e rest =
      let value = y.sequence nodes in
      record {
        result = rest.result;
        written = rw (export_ids, e) rest.written;
        added = (some (y.to_string id), value) ∷ rest.added;
        entries =
            rest.entries
            ∙ ap (λ before. before ++ rest.added)
                (laws.entries_set node value (y.to_string id) first)
            ∙ append_assoc (y.entries node) ((some (y.to_string id), value) ∷ []) rest.added;
        read_back = λ before.
            let more = rest.read_back (insert id nodes before) in
            record {
              result = more.result;
              read =
                  rw (import_entries, laws.stoul_to_string id, sequence_read nodes full) more.read;
              inside = λ k m. elim m [
                | inl same ↦
                    subst (λ j. lookup j more.result ≡ lookup j d) (sym same)
                      (more.outside id (later_absent id ids above)
                        ∙ lookup-insert_self id nodes before
                        ∙ sym e)
                | inr later ↦ more.inside k later
              ];
              outside = λ k m.
                  more.outside k (λ later. m (inr later))
                  ∙ lookup-insert_other k id nodes before (λ same. m (inl same));
            };
      }

  pub write_ids :
      (d : Dict (List ℕ)) (ids : List ℕ) (node : Y)
      → HasNodes d
      → Ascending ids
      → All (λ id. lookup id d ≢ none) ids
      → All (NoEntry node) ids
      → Written d ids node
  unfolding export_ids import_entries
  write_ids d [] node full asc present new = record {
    result = node;
    written = refl;
    added = [];
    entries = sym (append_nil (y.entries node));
    read_back = λ before. record {
      result = before;
      read = refl;
      inside = λ id m. absurd m;
      outside = λ id m. refl;
    };
  }
  write_ids d (id ∷ ids) node full (above, asc) (here, present) (first, new) =
      elim (Option-cases (lookup id d)) [
        | inl e ↦ absurd (here e)
        | inr (nodes, e) ↦ write_id d id ids nodes node above first (full id nodes e) e (
            write_ids d ids (y.set node (y.to_string id) (y.sequence nodes)) full asc present
              (All-next node (y.sequence nodes) id ids above first new))
      ]

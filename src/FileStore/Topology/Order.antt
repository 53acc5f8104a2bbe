-- ===== src/FileStore/Topology/Order.antt =====
-- The canonical order: every transaction once, by depth, time of creation, replica and identifier.
use Prim.Native.Nat.{Ordering}
use eventcore.Prelude.{
  ℕ, suc, ◌≡◌, refl, sym, ap, subst, ◌∙◌, List, [], ◌∷◌, map, true, none, some, All, All-map, arith,
  length,
}
use eventcore.Prelude.Comparison.{
  Comparison, lexicographic-Comparison, ℕ-Comparison, String-Comparison,
}
use eventcore.Prelude.Sorting.{sort_by, sort_by-map, IsAscending}
use eventcore.Prelude.UuidMap.{
  Uuid, UuidMap, lookup, contains, contains_key, keys, IsDistinct, contains-keys,
}
use eventcore.Prelude.UuidMap.Order.{contains-sort_by, sort_by-IsAscending, IsAscending-unique}
use eventcore.FileStore.Format.{TransactionHeader}
use eventcore.FileStore.Topology.{
  Headers, Memo, Key, compare_key, transaction_depth, keyed_entries, linearize,
}
use eventcore.FileStore.Topology.Depth.{
  IsDepth, IsDepth-unique, IsDag, IsSound, transaction_depth-Answers,
}

pub compare_key-Comparison : Comparison compare_key
compare_key-Comparison = lexicographic-Comparison _ _ ℕ-Comparison (
    lexicographic-Comparison _ _ String-Comparison
      (lexicographic-Comparison _ _ ℕ-Comparison ℕ-Comparison))

module _ (headers : Headers) where
  -- the depth that a fresh computation finds
  abbrev pub depth_in : Uuid → ℕ
  depth_in id = elim (transaction_depth (suc (length headers)) headers id []) [
    | none ↦ 0
    | some (depth, _) ↦ depth
  ]

  -- the sort key of a transaction
  abbrev pub key_of : Uuid → Key
  key_of id = elim (lookup id headers) [
    | none ↦ (0, ("", (0, id)))
    | some header ↦ (depth_in id, (header.created_at, (header.replica_id, id)))
  ]

  abbrev pub compare_in : Uuid → Uuid → Ordering
  compare_in a b = compare_key (key_of a) (key_of b)

  key_of_id : (id : Uuid) → (key_of id).1.1.1 ≡ id
  key_of_id id = ground arith

  pub compare_in-Comparison : Comparison compare_in
  compare_in-Comparison = record {
    same = λ a b h.
        sym (key_of_id a)
        ∙ ap (λ (k : Key). k.1.1.1) (compare_key-Comparison.same (key_of a) (key_of b) h)
        ∙ key_of_id b;
    flipped = λ a b. compare_key-Comparison.flipped (key_of a) (key_of b);
    lt_trans = λ a b c. compare_key-Comparison.lt_trans (key_of a) (key_of b) (key_of c);
  }

  -- A list that has every known transaction once, in ascending order.
  pub record IsCanonical (order : List Uuid) : Type 0 where
    pub ascending : IsAscending compare_in order
    pub complete : (id : Uuid) → contains id order ≡ contains_key id headers

  pub IsCanonical-unique :
      (order other : List Uuid) → IsCanonical order → IsCanonical other → order ≡ other
  IsCanonical-unique order other g h =
      IsAscending-unique compare_in-Comparison order other g.ascending h.ascending
        (λ id. g.complete id ∙ sym (h.complete id))

-- the entries that a map without repeated keys yields
pub entries_found {ℓ} :
    {V : Type ℓ} (m : UuidMap V) → IsDistinct (keys m) → All (λ (k, v). lookup k m ≡ some v) m
unfolding lookup
entries_found [] h = tt
entries_found ((k, v) ∷ m) h = (
  ground arith,
  All-map (λ (j, w). lookup j m ≡ some w) (λ (j, w). lookup j ((k, v) ∷ m) ≡ some w) m
      (λ (j, w) e. ground (arith, contains-keys k m, h.0, e)) (entries_found m h.1),
)

module _ (headers : Headers) (rank : Uuid → ℕ) (dag : IsDag headers rank) where
  depth_in-eq :
      (id d : Uuid) (memo : Memo)
      → transaction_depth (suc (length headers)) headers id [] ≡ some (d, memo)
      → depth_in headers id ≡ d
  depth_in-eq id d memo e = ground arith

  pub depth_in-IsDepth :
      (id : Uuid) → contains_key id headers ≡ true → IsDepth headers id (depth_in headers id)
  depth_in-IsDepth id known =
      let (d, memo, e, is, sound) =
        transaction_depth-Answers headers rank dag (suc (length headers)) id []
          (omega (arith, dag.bounded id known)) (λ j d h. absurd (unfold lookup in cc)) in
      subst (IsDepth headers id) (sym (depth_in-eq id d memo e)) is

  pub key_of_found :
      (id : Uuid) (header : TransactionHeader)
      → lookup id headers ≡ some header
      → key_of headers id ≡ (depth_in headers id, (header.created_at, (header.replica_id, id)))
  key_of_found id header e = ground arith

  known_of_found :
      (id : Uuid) (header : TransactionHeader)
      → lookup id headers ≡ some header
      → contains_key id headers ≡ true
  known_of_found id header e = ground arith

  keyed_entries_step :
      (id d : Uuid) (header : TransactionHeader) (rest : Headers) (memo memo' : Memo)
      (more : List (Uuid × Key))
      → transaction_depth (suc (length headers)) headers id memo ≡ some (d, memo')
      → keyed_entries headers rest memo' ≡ some more
      → keyed_entries headers ((id, header) ∷ rest) memo
        ≡ some ((id, (d, (header.created_at, (header.replica_id, id)))) ∷ more)
  unfolding keyed_entries
  keyed_entries_step id d header rest memo memo' more e e' = ground arith

  -- The memo that is passed on does not change what is found for the next transaction.
  keyed_entries_lem :
      (rest : Headers) (memo : Memo)
      → All (λ (id, header). lookup id headers ≡ some header) rest
      → IsSound headers memo
      → keyed_entries headers rest memo
        ≡ some (map (λ (id : Uuid). (id, key_of headers id)) (keys rest))
  unfolding keyed_entries
  keyed_entries_lem [] memo h sound = refl
  keyed_entries_lem ((id, header) ∷ rest) memo h sound =
      let known = known_of_found id header h.0 in
      let (d, memo', e, is, sound') =
        transaction_depth-Answers headers rank dag (suc (length headers)) id memo
          (omega (arith, dag.bounded id known)) sound in
      let same = IsDepth-unique headers id d (depth_in headers id) is (depth_in-IsDepth id known) in
      keyed_entries_step id d header rest memo memo'
        (map (λ (i : Uuid). (i, key_of headers i)) (keys rest)) e
        (keyed_entries_lem rest memo' h.1 sound')
      ∙ ap (λ (k : Key). some ((id, k) ∷ map (λ (i : Uuid). (i, key_of headers i)) (keys rest)))
          (ap (λ (n : ℕ). (n, (header.created_at, (header.replica_id, id)))) same
            ∙ sym (key_of_found id header h.0))

  map_ids :
      (ids : List Uuid) → map (λ (id, _). id) (map (λ (i : Uuid). (i, key_of headers i)) ids) ≡ ids
  map_ids [] = refl
  map_ids (i ∷ ids) = ap (λ zs. i ∷ zs) (map_ids ids)

  linearize-some :
      (keyed : List (Uuid × Key))
      → keyed_entries headers headers [] ≡ some keyed
      → linearize headers
        ≡ some
            (map (λ (id, _). id) (sort_by (λ (_, left) (_, right). compare_key left right) keyed))
  unfolding linearize
  linearize-some keyed e = ground arith

  pub linearize-eq :
      IsDistinct (keys headers)
      → linearize headers ≡ some (sort_by (compare_in headers) (keys headers))
  linearize-eq distinct =
      linearize-some (map (λ (i : Uuid). (i, key_of headers i)) (keys headers)) (
        keyed_entries_lem headers [] (entries_found headers distinct)
          (λ j d h. absurd (unfold lookup in cc)))
      ∙ ap some (
          ap (map (λ (id, _). id)) (
            sort_by-map (λ (_, left) (_, right). compare_key left right)
              (λ (i : Uuid). (i, key_of headers i)) (keys headers))
          ∙ map_ids (sort_by (compare_in headers) (keys headers)))

  -- `linearize` always returns, with the one canonical order.
  pub linearize-IsCanonical :
      IsDistinct (keys headers)
      → (order : List Uuid) × (linearize headers ≡ some order) × IsCanonical headers order
  linearize-IsCanonical distinct = (
    sort_by (compare_in headers) (keys headers),
    linearize-eq distinct,
    record {
      ascending = sort_by-IsAscending (compare_in-Comparison headers) (keys headers) distinct;
      complete =
          λ id. contains-sort_by (compare_in headers) id (keys headers) ∙ contains-keys id headers;
    },
  )

-- ===== src/FileStore/Topology/Convergence.antt =====
-- Two clones that hold the same transactions compute the same canonical order.
use mathlib.Core.Path.{fun_ext}
use Prim.Native.Nat.{Ordering}
use eventcore.Prelude.{
  ℕ, zero, suc, ◌≡◌, sym, ap, subst, ◌∙◌, inl, inr, List, true, some, arith, Option-cases,
}
use eventcore.Prelude.Sorting.{IsAscending}
use eventcore.Prelude.UuidMap.{Uuid, lookup, contains_key, keys, IsDistinct}
use eventcore.FileStore.Topology.{Headers, Key, compare_key, linearize}
use eventcore.FileStore.Topology.Depth.{IsParent, Chain, stop, step, IsDepth, IsDepth-unique, IsDag}
use eventcore.FileStore.Topology.Order.{
  depth_in, key_of, key_of_found, compare_in, depth_in-IsDepth, IsCanonical, IsCanonical-unique,
  linearize-IsCanonical,
}

-- Both maps find the same header for every identifier.
abbrev pub SameLookups : Headers → Headers → Type 0
SameLookups headers other = (id : Uuid) → lookup id headers ≡ lookup id other

module _ (headers other : Headers) (same : SameLookups headers other) where
  contains_key-same : (id : Uuid) → contains_key id headers ≡ contains_key id other
  contains_key-same id = ground (arith, same id)

  IsParent-same : (p id : Uuid) → IsParent headers p id → IsParent other p id
  IsParent-same p id (header, found, there, known) =
      (header, sym (same id) ∙ found, there, sym (contains_key-same p) ∙ known)

  Chain-same : (id : Uuid) (n : ℕ) → Chain headers id n → Chain other id n
  Chain-same id zero stop = stop
  Chain-same id (suc n) (step {p = p} parent c) =
      step (IsParent-same p id parent) (Chain-same p n c)

module _ (headers other : Headers) (same : SameLookups headers other) (rank rank' : Uuid → ℕ)
    (dag : IsDag headers rank) (dag' : IsDag other rank') where
  IsDepth-same : (id : Uuid) (d : ℕ) → IsDepth headers id d → IsDepth other id d
  IsDepth-same id d h = record {
    reached = Chain-same headers other same id d h.reached;
    longest = λ n c. h.longest n (Chain-same other headers (λ i. sym (same i)) id n c);
  }

  depth_in-same :
      (id : Uuid) → contains_key id headers ≡ true → depth_in headers id ≡ depth_in other id
  depth_in-same id known =
      IsDepth-unique other id (depth_in headers id) (depth_in other id)
        (IsDepth-same id (depth_in headers id) (depth_in-IsDepth headers rank dag id known))
        (depth_in-IsDepth other rank' dag' id
          (sym (contains_key-same headers other same id) ∙ known))

  key_of-same : (id : Uuid) → key_of headers id ≡ key_of other id
  key_of-same id = elim (Option-cases (lookup id headers)) [
    | inl missing ↦ ground (arith, same id)
    | inr (header, found) ↦
        key_of_found headers rank dag id header found
        ∙ ap (λ (n : ℕ). (n, (header.created_at, (header.replica_id, id))))
            (depth_in-same id (ground arith))
        ∙ sym (key_of_found other rank' dag' id header (sym (same id) ∙ found))
  ]

  compare_in-same : compare_in headers ≡ compare_in other
  compare_in-same = fun_ext (λ a. fun_ext (λ b.
      ap (λ (k : Key). compare_key k (key_of headers b)) (key_of-same a)
      ∙ ap (compare_key (key_of other a)) (key_of-same b)))

  IsCanonical-same : (order : List Uuid) → IsCanonical other order → IsCanonical headers order
  IsCanonical-same order h = record {
    ascending =
        subst (λ (cmp : Uuid → Uuid → Ordering). IsAscending cmp order) (sym compare_in-same)
          h.ascending;
    complete = λ id. h.complete id ∙ sym (contains_key-same headers other same id);
  }

  -- Two header maps that find the same headers, in which no transaction is its own ancestor, are
  -- linearized to the same order, in whatever order they are iterated.
  pub linearize_converges :
      IsDistinct (keys headers) → IsDistinct (keys other) → linearize headers ≡ linearize other
  linearize_converges distinct distinct' =
      let (order, e, canonical) = linearize-IsCanonical headers rank dag distinct in
      let (order', e', canonical') = linearize-IsCanonical other rank' dag' distinct' in
      e
      ∙ ap some
          (IsCanonical-unique headers order order' canonical (IsCanonical-same order' canonical'))
      ∙ sym e'

-- ===== src/FileStore/Merge/Collisions.antt =====
-- When two transactions collide that carry the same replica: `check_replica_collisions` of
-- eventcore-fs/src/merge.rs.
use Prim.Native.Nat.{compare}
use mathlib.Core.List.{Memᴰ}
use text.Mathlib.Text.{is_eq}
use eventcore.Prelude.{
  ◌≡◌, refl, sym, subst, ap, ◌∙◌, ◌⊎◌, inl, inr, List, [], ◌∷◌, ◌++◌, append_assoc, append-nil,
  true, false, none, some, ok, err, arith, eqb, ltb, length, if◌then◌else◌, Bool-cases,
}
use eventcore.Prelude.Comparison.{ℕ-Comparison}
use eventcore.Prelude.Sorting.{sort_by}
use eventcore.Prelude.UuidMap.{Uuid, values, contains, contains_head, contains_tail, contains_inv}
use eventcore.Prelude.UuidMap.Order.{contains-sort_by}
use eventcore.FileStore.Format.{TransactionHeader, replica_identity_conflict}
use eventcore.FileStore.Topology.{Headers}
use eventcore.FileStore.Merge.{
  is_ancestor, push_group, by_replica, concurrent_to, concurrent_pair, collision_among,
  check_replica_collisions,
}
use eventcore.FileStore.Merge.Groups.{
  group_of, IsGrouped, push_group-IsGrouped, group_of-push_group, group_of_mem,
}

-- the transactions of a replica
unfoldable pub written_by : Uuid → List TransactionHeader → List Uuid
written_by replica [] = []
written_by replica (header ∷ headers) =
    (if is_eq (compare header.replica_id replica) then header.transaction_id ∷ [] else [])
    ++ written_by replica headers

by_replica_lem :
    (hs : List TransactionHeader) (groups : List (Uuid × List Uuid)) (replica : Uuid)
    → IsGrouped compare groups
    → IsGrouped compare (by_replica hs groups)
      × (group_of compare replica (by_replica hs groups)
          ≡ group_of compare replica groups ++ written_by replica hs)
unfolding by_replica written_by
by_replica_lem [] groups replica h = (h, sym (append-nil (group_of compare replica groups)))
by_replica_lem (x ∷ hs) groups replica h =
    let next = push_group compare x.replica_id x.transaction_id groups in
    let (grouped, e) =
      by_replica_lem hs next replica
        (push_group-IsGrouped ℕ-Comparison x.replica_id x.transaction_id groups h) in
    (
      grouped,
      e
          ∙ ap (λ xs. xs ++ written_by replica hs)
              (group_of-push_group ℕ-Comparison x.replica_id replica x.transaction_id groups h)
          ∙ append_assoc (group_of compare replica groups)
              (if is_eq (compare x.replica_id replica) then x.transaction_id ∷ [] else [])
              (written_by replica hs),
    )

module _ (headers : Headers) where
  -- Neither is an ancestor of the other.
  abbrev pub IsConcurrent : Uuid → Uuid → Type 0
  IsConcurrent x y = (is_ancestor x y headers ≡ false) × (is_ancestor y x headers ≡ false)

  abbrev pub IsRelated : Uuid → Uuid → Type 0
  IsRelated x y = (is_ancestor x y headers ≡ true) ⊎ (is_ancestor y x headers ≡ true)

  -- Any two of the transactions are related, as those of one writer are.
  abbrev pub IsLine : List Uuid → Type 0
  IsLine xs =
      (x y : Uuid) → contains x xs ≡ true → contains y xs ≡ true → eqb x y ≡ false → IsRelated x y

  -- All of the list are related to the transaction, or one is found that is not.
  abbrev FindsConcurrent : Uuid → List Uuid → Type 0
  FindsConcurrent first rest =
      ((concurrent_to headers first rest ≡ none)
        × ((y : Uuid) → contains y rest ≡ true → IsRelated first y))
      ⊎ ((second : Uuid) × (concurrent_to headers first rest ≡ some second)
          × (contains second rest ≡ true)
          × IsConcurrent first second)

  concurrent_to_related :
      (first second : Uuid) (rest : List Uuid)
      → IsRelated first second
      → concurrent_to headers first (second ∷ rest) ≡ concurrent_to headers first rest
  unfolding concurrent_to
  concurrent_to_related first second rest (inl up) = rw up refl
  concurrent_to_related first second rest (inr down) = ground arith

  concurrent_to_found :
      (first second : Uuid) (rest : List Uuid)
      → IsConcurrent first second
      → concurrent_to headers first (second ∷ rest) ≡ some second
  unfolding concurrent_to
  concurrent_to_found first second rest (no_up, no_down) = rw (no_up, no_down) refl

  FindsConcurrent-later :
      (first second : Uuid) (rest : List Uuid)
      → IsRelated first second
      → FindsConcurrent first rest
      → FindsConcurrent first (second ∷ rest)
  FindsConcurrent-later first second rest related (inl (e, all)) = inl (
    concurrent_to_related first second rest related ∙ e,
    λ y there. elim (contains_inv y second rest there) [
      | inl same ↦ subst (IsRelated first) same related
      | inr later ↦ all y later
    ],
  )
  FindsConcurrent-later first second rest related (inr (found, e, there, apart)) = inr (
    found,
    concurrent_to_related first second rest related ∙ e,
    contains_tail found second rest there,
    apart,
  )

  concurrent_to_lem : (first : Uuid) (rest : List Uuid) → FindsConcurrent first rest
  unfolding concurrent_to contains
  concurrent_to_lem first [] = inl (refl, λ y there. absurd (cc))
  concurrent_to_lem first (second ∷ rest) =
      let later = concurrent_to_lem first rest in
      elim (Bool-cases (is_ancestor first second headers)) [
        | inl up ↦ FindsConcurrent-later first second rest (inl up) later
        | inr no_up ↦ elim (Bool-cases (is_ancestor second first headers)) [
          | inl down ↦ FindsConcurrent-later first second rest (inr down) later
          | inr no_down ↦ inr (
            second,
            concurrent_to_found first second rest (no_up, no_down),
            contains_head second rest,
            (no_up, no_down),
          )
        ]
      ]

  -- The list is a line, or a pair is found that is concurrent.
  abbrev FindsPair : List Uuid → Type 0
  FindsPair xs =
      ((concurrent_pair headers xs ≡ none) × IsLine xs)
      ⊎ ((first second : Uuid) × (concurrent_pair headers xs ≡ some (first, second))
          × (contains first xs ≡ true)
          × (contains second xs ≡ true)
          × IsConcurrent first second)

  IsRelated-sym : (x y : Uuid) → IsRelated x y → IsRelated y x
  IsRelated-sym x y (inl up) = inr up
  IsRelated-sym x y (inr down) = inl down

  IsLine-cons :
      (first : Uuid) (rest : List Uuid)
      → ((y : Uuid) → contains y rest ≡ true → IsRelated first y)
      → IsLine rest
      → IsLine (first ∷ rest)
  IsLine-cons first rest all line x y x_there y_there differ =
      elim (contains_inv x first rest x_there) [
        | inl x_first ↦ elim (contains_inv y first rest y_there) [
          | inl y_first ↦ absurd (ground arith)
          | inr y_later ↦ subst (λ (z : Uuid). IsRelated z y) x_first (all y y_later)
        ]
        | inr x_later ↦ elim (contains_inv y first rest y_there) [
          | inl y_first ↦
              IsRelated-sym y x (subst (λ (z : Uuid). IsRelated z x) y_first (all x x_later))
          | inr y_later ↦ line x y x_later y_later differ
        ]
      ]

  concurrent_pair_lem : (xs : List Uuid) → FindsPair xs
  unfolding concurrent_pair contains
  concurrent_pair_lem [] = inl (refl, λ x y there. absurd (cc))
  concurrent_pair_lem (first ∷ rest) = elim (concurrent_to_lem first rest) [
    | inr (second, e, there, apart) ↦ inr (
      first,
      second,
      ground arith,
      contains_head first rest,
      contains_tail second first rest there,
      apart,
    )
    | inl (e, all) ↦ elim (concurrent_pair_lem rest) [
      | inl (e', line) ↦ inl (ground arith, IsLine-cons first rest all line)
      | inr (x, y, e', x_there, y_there, apart) ↦ inr (
        x,
        y,
        ground arith,
        contains_tail x first rest x_there,
        contains_tail y first rest y_there,
        apart,
      )
    ]
  ]

  -- a list of at most one transaction
  IsLine-few : (xs : List Uuid) → ltb (length xs) 2 ≡ true → IsLine xs
  unfolding contains
  IsLine-few [] few x y x_there y_there differ = absurd (cc)
  IsLine-few (z ∷ []) few x y x_there y_there differ = absurd (ground arith)
  IsLine-few (z ∷ w ∷ xs) few x y x_there y_there differ = absurd (ground arith)

  IsLine-sorted : (xs : List Uuid) → IsLine (sort_by compare xs) → IsLine xs
  IsLine-sorted xs line x y x_there y_there =
      line x y (contains-sort_by compare x xs ∙ x_there) (contains-sort_by compare y xs ∙ y_there)

  -- Each group is a line, or a collision is found in one of them.
  abbrev FindsCollision : List (Uuid × List Uuid) → Type 0
  FindsCollision groups =
      ((collision_among headers groups ≡ ok tt)
        × ((replica : Uuid) → IsLine (group_of compare replica groups)))
      ⊎ ((first second replica : Uuid) × (ids : List Uuid) × (collision_among headers groups
            ≡ err (replica_identity_conflict first second replica))
          × Memᴰ (replica, ids) groups
          × (contains first ids ≡ true)
          × (contains second ids ≡ true)
          × IsConcurrent first second)

  collision_among_line :
      (replica : Uuid) (ids : List Uuid) (groups : List (Uuid × List Uuid))
      → (ltb (length ids) 2 ≡ true) ⊎ (concurrent_pair headers (sort_by compare ids) ≡ none)
      → collision_among headers ((replica, ids) ∷ groups) ≡ collision_among headers groups
  unfolding collision_among
  collision_among_line replica ids groups (inl few) = rw few refl
  collision_among_line replica ids groups (inr none_found) = ground arith

  FindsCollision-later :
      (replica : Uuid) (ids : List Uuid) (groups : List (Uuid × List Uuid))
      → (ltb (length ids) 2 ≡ true) ⊎ (concurrent_pair headers (sort_by compare ids) ≡ none)
      → IsLine ids
      → FindsCollision groups
      → FindsCollision ((replica, ids) ∷ groups)
  unfolding group_of
  FindsCollision-later replica ids groups passed line (inl (e, lines)) = inl (
    collision_among_line replica ids groups passed ∙ e,
    λ other. elim (Bool-cases (is_eq (compare replica other))) [
      | inl same ↦ rw same line
      | inr differs ↦ rw differs (lines other)
    ],
  )
  FindsCollision-later replica ids groups passed line
        (inr (x, y, r, more, e, there, x_there, y_there, apart)) =
      inr (
        x,
        y,
        r,
        more,
        collision_among_line replica ids groups passed ∙ e,
        Memᴰ.tail there,
        x_there,
        y_there,
        apart,
      )

  collision_among_lem : (groups : List (Uuid × List Uuid)) → FindsCollision groups
  unfolding collision_among group_of contains
  collision_among_lem [] = inl (refl, λ replica x y there. absurd (cc))
  collision_among_lem ((replica, ids) ∷ groups) =
      let later = collision_among_lem groups in
      elim (Bool-cases (ltb (length ids) 2)) [
        | inl few ↦ FindsCollision-later replica ids groups (inl few) (IsLine-few ids few) later
        | inr several ↦ elim (concurrent_pair_lem (sort_by compare ids)) [
          | inl (e, line) ↦
              FindsCollision-later replica ids groups (inr e) (IsLine-sorted ids line) later
          | inr (x, y, e, x_there, y_there, apart) ↦ inr (
            x,
            y,
            replica,
            ids,
            rw (several, e) refl,
            Memᴰ.head refl,
            sym (contains-sort_by compare x ids) ∙ x_there,
            sym (contains-sort_by compare y ids) ∙ y_there,
            apart,
          )
        ]
      ]

  -- The check of the replicas passes and any two transactions that a replica has written are related;
  -- or it names two that carry the same replica and of which neither is an ancestor of the other.
  pub check_replica_collisions_exact :
      ((check_replica_collisions headers ≡ ok tt)
        × ((replica : Uuid) → IsLine (written_by replica (values headers))))
      ⊎ ((first second replica : Uuid) × (check_replica_collisions headers
            ≡ err (replica_identity_conflict first second replica))
          × (contains first (written_by replica (values headers)) ≡ true)
          × (contains second (written_by replica (values headers)) ≡ true)
          × IsConcurrent first second)
  unfolding check_replica_collisions written_by group_of
  check_replica_collisions_exact =
      let groups = by_replica (values headers) [] in
      elim (collision_among_lem groups) [
        | inl (e, lines) ↦ inl (
          e,
          λ replica. subst IsLine (by_replica_lem (values headers) [] replica tt).1 (lines replica),
        )
        | inr (x, y, replica, ids, e, there, x_there, y_there, apart) ↦
            let (grouped, all) = by_replica_lem (values headers) [] replica tt in
            let (full, found) = group_of_mem ℕ-Comparison replica ids groups grouped there in
            let same : ids ≡ written_by replica (values headers) = sym found ∙ all in
            inr (
              x,
              y,
              replica,
              e,
              subst (λ (xs : List Uuid). contains x xs ≡ true) same x_there,
              subst (λ (xs : List Uuid). contains y xs ≡ true) same y_there,
              apart,
            )
      ]

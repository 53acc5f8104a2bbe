-- ===== src/FileStore/Topology/Depth.antt =====
-- The depth of a transaction is the length of the longest chain of known ancestors, and the memo
-- that `transaction_depth` fills does not change it.
use Prim.Native.Nat.{max}
use eventcore.Prelude.{
  ℕ, zero, suc, ◌+◌, ◌≤◌, ◌<◌, ◌≡◌, refl, subst, ◌∙◌, ◌⊎◌, inl, inr, List, [], ◌∷◌, true, false,
  Option, none, some, arith, length, eqb, Option-cases, Bool-cases,
}
use eventcore.Prelude.UuidMap
use eventcore.Prelude.UuidMap.{
  Uuid, lookup, lookup-insert, contains, contains_key, contains_head, contains_tail, contains_inv,
}
use eventcore.FileStore.Format.{TransactionHeader}
use eventcore.FileStore.Topology.{Headers, Memo, best_of, transaction_depth}

max_cases : (a b : ℕ) → (max a b ≡ a) ⊎ (max a b ≡ b)
max_cases a b = ground arith

module _ (headers : Headers) where
  -- `p` is a parent of `id`, and both are there.
  abbrev pub IsParent : Uuid → Uuid → Type 0
  IsParent p id =
      (header : TransactionHeader) × (lookup id headers ≡ some header)
      × (contains p header.parent_transaction_ids ≡ true)
      × (contains_key p headers ≡ true)

  -- a chain of `n` steps from a transaction to ever older ones
  pub data Chain : Uuid → ℕ → Type 0 where
    stop : {id : Uuid} → Chain id 0
    step : {id p : Uuid} {n : ℕ} → IsParent p id → Chain p n → Chain id (suc n)

  pub record IsDepth (id : Uuid) (depth : ℕ) : Type 0 where
    pub reached : Chain id depth
    pub longest : (n : ℕ) → Chain id n → n ≤ depth

  pub IsDepth-unique : (id : Uuid) (d e : ℕ) → IsDepth id d → IsDepth id e → d ≡ e
  IsDepth-unique id d e g h = omega (arith, g.longest e h.reached, h.longest d g.reached)

  -- No transaction is its own ancestor: they can be numbered so that parents come first.
  pub record IsDag (rank : Uuid → ℕ) : Type 0 where
    pub bounded : (id : Uuid) → contains_key id headers ≡ true → rank id < length headers
    pub falls : (p id : Uuid) → IsParent p id → rank p < rank id

  -- What the memo records is right.
  abbrev pub IsSound : Memo → Type 0
  IsSound memo = (id : Uuid) (d : ℕ) → lookup id memo ≡ some d → IsDepth id d

  insert-IsSound :
      (memo : Memo) (id : Uuid) (d : ℕ)
      → IsSound memo
      → IsDepth id d
      → IsSound (UuidMap.insert id d memo)
  insert-IsSound memo id d sound new j e h = elim (Bool-cases (eqb id j)) [
    | inl same ↦
        let keys : id ≡ j = ground arith in
        let values : d ≡ e = ground (arith, lookup-insert id j d memo) in
        rw (← keys) (rw (← values) new)
    | inr other ↦ sound j e (ground (arith, lookup-insert id j d memo))
  ]

  -- what a run of the loop over the parents `ps` has found
  record Best (ps : List Uuid) (start best : ℕ) : Type 0 where
    grown : start ≤ best
    attained :
        (start ≡ best)
        ⊎ (p : Uuid) × (d : ℕ) × (contains p ps ≡ true)
          × (contains_key p headers ≡ true)
          × IsDepth p d
          × (best ≡ suc d)
    covers :
        (p : Uuid)
        → contains p ps ≡ true
        → contains_key p headers ≡ true
        → (d : ℕ) × IsDepth p d × (suc d ≤ best)

  -- the contract of the recursive call, for the transactions of rank below `r`
  abbrev Answers : (Uuid → ℕ) → ℕ → (Uuid → Memo → Option (ℕ × Memo)) → Type 0
  Answers rank r depth =
      (id : Uuid) (memo : Memo)
      → rank id < r
      → IsSound memo
      → (d : ℕ) × (memo' : Memo) × (depth id memo ≡ some (d, memo')) × IsDepth id d × IsSound memo'

  Best-known :
      (p : Uuid) (ps : List Uuid) (d start best : ℕ)
      → contains_key p headers ≡ true
      → IsDepth p d
      → Best ps (max start (d + 1)) best
      → Best (p ∷ ps) start best
  Best-known p ps d start best known is found = record {
    grown = omega (arith, found.grown);
    attained = elim found.attained [
      | inl e ↦ elim (max_cases start (d + 1)) [
        | inl old ↦ inl (omega arith)
        | inr new ↦ inr (p, d, contains_head p ps, known, is, omega arith)
      ]
      | inr (q, d', there, known', is', e) ↦ inr (q, d', contains_tail q p ps there, known', is', e)
    ];
    covers = λ q there known'. elim (contains_inv q p ps there) [
      | inl same ↦ rw (← same) (d, is, omega (arith, found.grown))
      | inr later ↦ found.covers q later known'
    ];
  }

  Best-missing :
      (p : Uuid) (ps : List Uuid) (start best : ℕ)
      → contains_key p headers ≡ false
      → Best ps start best
      → Best (p ∷ ps) start best
  Best-missing p ps start best missing found = record {
    grown = found.grown;
    attained = elim found.attained [
      | inl e ↦ inl e
      | inr (q, d, there, known, is, e) ↦ inr (q, d, contains_tail q p ps there, known, is, e)
    ];
    covers = λ q there known. elim (contains_inv q p ps there) [
      | inl same ↦ absurd (cc)
      | inr later ↦ found.covers q later known
    ];
  }

  best_of-known :
      (depth : Uuid → Memo → Option (ℕ × Memo)) (p : Uuid) (ps : List Uuid) (start d : ℕ)
      (memo memo' : Memo)
      → contains_key p headers ≡ true
      → depth p memo ≡ some (d, memo')
      → best_of depth headers (p ∷ ps) start memo
        ≡ best_of depth headers ps (max start (d + 1)) memo'
  unfolding best_of
  best_of-known depth p ps start d memo memo' known e = ground arith

  best_of-missing :
      (depth : Uuid → Memo → Option (ℕ × Memo)) (p : Uuid) (ps : List Uuid) (start : ℕ)
      (memo : Memo)
      → contains_key p headers ≡ false
      → best_of depth headers (p ∷ ps) start memo ≡ best_of depth headers ps start memo
  unfolding best_of
  best_of-missing depth p ps start memo missing = ground arith

  best_of_lem :
      (rank : Uuid → ℕ) (r : ℕ) (depth : Uuid → Memo → Option (ℕ × Memo)) (ps : List Uuid)
      (start : ℕ) (memo : Memo)
      → Answers rank r depth
      → ((p : Uuid) → contains p ps ≡ true → contains_key p headers ≡ true → rank p < r)
      → IsSound memo
      → (best : ℕ) × (memo' : Memo) × (best_of depth headers ps start memo ≡ some (best, memo'))
        × Best ps start best
        × IsSound memo'
  unfolding best_of contains
  best_of_lem rank r depth [] start memo answers below sound = (
    start,
    memo,
    refl,
    record { grown = omega arith; attained = inl refl; covers = λ p there known. absurd (cc) },
    sound,
  )
  best_of_lem rank r depth (p ∷ ps) start memo answers below sound =
      let below' =
        λ (q : Uuid) (there : contains q ps ≡ true). below q (contains_tail q p ps there) in
      elim (Bool-cases (contains_key p headers)) [
        | inl known ↦
            let (d, memo', e, is, sound') =
              answers p memo (below p (contains_head p ps) known) sound in
            let (best, memo'', e', found, sound'') =
              best_of_lem rank r depth ps (max start (d + 1)) memo' answers below' sound' in
            (
              best,
              memo'',
              best_of-known depth p ps start d memo memo' known e ∙ e',
              Best-known p ps d start best known is found,
              sound'',
            )
        | inr missing ↦
            let (best, memo', e, found, sound') =
              best_of_lem rank r depth ps start memo answers below' sound in
            (
              best,
              memo',
              best_of-missing depth p ps start memo missing ∙ e,
              Best-missing p ps start best missing found,
              sound',
            )
      ]

  missing_longest : (id : Uuid) (n : ℕ) → lookup id headers ≡ none → Chain id n → n ≤ 0
  missing_longest id zero h stop = omega arith
  missing_longest id (suc n) h (step (header, found, there, known) c) = absurd (cc)

  IsDepth-missing : (id : Uuid) → lookup id headers ≡ none → IsDepth id 0
  IsDepth-missing id h = record { reached = stop; longest = λ n. missing_longest id n h }

  found_longest :
      (id : Uuid) (header : TransactionHeader) (best n : ℕ)
      → lookup id headers ≡ some header
      → Best header.parent_transaction_ids 0 best
      → Chain id n
      → n ≤ best
  found_longest id header best zero h found stop = omega arith
  found_longest id header best (suc n) h found (step {p = p} (other, e, there, known) c) =
      let same : other ≡ header = cc in
      let (d, is, below) =
        found.covers p
          (subst (λ (x : TransactionHeader). contains p x.parent_transaction_ids ≡ true) same there)
          known in
      omega (arith, is.longest n c)

  found_reached :
      (id : Uuid) (header : TransactionHeader) (best : ℕ)
      → lookup id headers ≡ some header
      → Best header.parent_transaction_ids 0 best
      → Chain id best
  found_reached id header best h found = elim found.attained [
    | inl e ↦ rw (← e) stop
    | inr (p, d, there, known, is, e) ↦ rw e (step (header, h, there, known) is.reached)
  ]

  IsDepth-found :
      (id : Uuid) (header : TransactionHeader) (best : ℕ)
      → lookup id headers ≡ some header
      → Best header.parent_transaction_ids 0 best
      → IsDepth id best
  IsDepth-found id header best h found = record {
    reached = found_reached id header best h found;
    longest = λ n. found_longest id header best n h found;
  }

  transaction_depth_recorded :
      (fuel : ℕ) (id d : Uuid) (memo : Memo)
      → lookup id memo ≡ some d
      → transaction_depth (suc fuel) headers id memo ≡ some (d, memo)
  unfolding transaction_depth
  transaction_depth_recorded fuel id d memo h = ground arith

  transaction_depth_missing :
      (fuel : ℕ) (id : Uuid) (memo : Memo)
      → lookup id memo ≡ none
      → lookup id headers ≡ none
      → transaction_depth (suc fuel) headers id memo ≡ some (0, UuidMap.insert id 0 memo)
  unfolding transaction_depth
  transaction_depth_missing fuel id memo h g = ground arith

  transaction_depth_found :
      (fuel : ℕ) (id : Uuid) (memo memo' : Memo) (header : TransactionHeader) (best : ℕ)
      → lookup id memo ≡ none
      → lookup id headers ≡ some header
      → best_of (transaction_depth fuel headers) headers header.parent_transaction_ids 0 memo
        ≡ some (best, memo')
      → transaction_depth (suc fuel) headers id memo ≡ some (best, UuidMap.insert id best memo')
  unfolding transaction_depth
  transaction_depth_found fuel id memo memo' header best h g e = ground arith

  -- With more fuel than the rank of a transaction, its depth is computed.
  pub transaction_depth-Answers :
      (rank : Uuid → ℕ) (dag : IsDag rank) (fuel : ℕ)
      → Answers rank fuel (transaction_depth fuel headers)
  transaction_depth-Answers rank dag zero id memo below sound = absurd (omega arith)
  transaction_depth-Answers rank dag (suc fuel) id memo below sound =
      elim (Option-cases (lookup id memo)) [
        | inr (d, recorded) ↦ (
          d,
          memo,
          transaction_depth_recorded fuel id d memo recorded,
          sound id d recorded,
          sound,
        )
        | inl fresh ↦ elim (Option-cases (lookup id headers)) [
          | inl missing ↦
              let is = IsDepth-missing id missing in
              (
                0,
                UuidMap.insert id 0 memo,
                transaction_depth_missing fuel id memo fresh missing,
                is,
                insert-IsSound memo id 0 sound is,
              )
          | inr (header, found) ↦
              let (best, memo', e, is_best, sound') =
                best_of_lem rank fuel (transaction_depth fuel headers) header.parent_transaction_ids
                  0 memo (transaction_depth-Answers rank dag fuel)
                  (λ p there known. omega (arith, dag.falls p id (header, found, there, known)))
                  sound in
              let is = IsDepth-found id header best found is_best in
              (
                best,
                UuidMap.insert id best memo',
                transaction_depth_found fuel id memo memo' header best fresh found e,
                is,
                insert-IsSound memo' id best sound' is,
              )
        ]
      ]

-- ===== src/FileStore/Merge/Groups.antt =====
-- `BTreeMap<_, Vec<Uuid>>` that is filled by `entry(…).or_default().push(…)`.
use Prim.Native.Nat.{Ordering}
use text.Mathlib.Text.{is_eq}
use eventcore.Prelude.{
  ◌≡◌, ◌≢◌, refl, sym, subst, ap, ◌⊎◌, inl, inr, List, [], ◌∷◌, ◌++◌, append-nil, false, All,
  All-map, arith, if◌then◌else◌,
}
use eventcore.Prelude.Comparison.{Comparison}
use mathlib.Core.List.{Memᴰ}
use mathlib.Core.List.Memᴰ
use eventcore.Prelude.UuidMap.{Uuid}
use eventcore.FileStore.Merge.{push_group}

Ordering-cases : (o : Ordering) → (o ≡ Ordering.lt) ⊎ ((o ≡ Ordering.eq) ⊎ (o ≡ Ordering.gt))
Ordering-cases Ordering.lt = inl refl
Ordering-cases Ordering.eq = inr (inl refl)
Ordering-cases Ordering.gt = inr (inr refl)

pub All-Memᴰ {ℓ κ} :
    {A : Type ℓ} (P : A → Type κ) (x : A) (xs : List A) → All P xs → Memᴰ x xs → P x
All-Memᴰ P x [] h m = absurd (Memᴰ.not-nil m)
All-Memᴰ P x (y ∷ ys) h m = elim (Memᴰ.cases_cons m) [
  | inl e ↦ subst P (sym e) h.0
  | inr later ↦ All-Memᴰ P x ys h.1 later
]

module _ {K : Type 0} (cmp : K → K → Ordering) where
  -- what stands under a key
  unfoldable pub group_of : K → List (K × List Uuid) → List Uuid
  group_of key [] = []
  group_of key ((found, ids) ∷ rest) = if is_eq (cmp found key) then ids else group_of key rest

  -- The keys ascend, and no group is empty.
  abbrev pub IsGrouped : List (K × List Uuid) → Type 0
  IsGrouped [] = Unit
  IsGrouped ((key, ids) ∷ rest) =
      (ids ≢ []) × All (λ (other, _). cmp key other ≡ Ordering.lt) rest × IsGrouped rest

concat_not_nil : (ids : List Uuid) (id : Uuid) → ids ++ id ∷ [] ≢ []
concat_not_nil [] id e = cc
concat_not_nil (x ∷ ids) id e = cc

module _ {K : Type 0} {cmp : K → K → Ordering} (order : Comparison cmp) where
  self : (k : K) → cmp k k ≡ Ordering.eq
  self k = ground (arith, order.flipped k k)

  -- A key below all others has no group.
  group_of_below :
      (key : K) (groups : List (K × List Uuid))
      → All (λ (other, _). cmp key other ≡ Ordering.lt) groups
      → group_of cmp key groups ≡ []
  unfolding group_of
  group_of_below key [] h = refl
  group_of_below key ((found, ids) ∷ rest) h =
      ground (arith, order.flipped key found, group_of_below key rest h.1)

  push_before :
      (key found : K) (id : Uuid) (ids : List Uuid) (rest : List (K × List Uuid))
      → cmp key found ≡ Ordering.lt
      → push_group cmp key id ((found, ids) ∷ rest) ≡ (key, id ∷ []) ∷ (found, ids) ∷ rest
  unfolding push_group
  push_before key found id ids rest h = ground arith

  push_same :
      (key found : K) (id : Uuid) (ids : List Uuid) (rest : List (K × List Uuid))
      → cmp key found ≡ Ordering.eq
      → push_group cmp key id ((found, ids) ∷ rest) ≡ (found, ids ++ id ∷ []) ∷ rest
  unfolding push_group
  push_same key found id ids rest h = ground arith

  push_after :
      (key found : K) (id : Uuid) (ids : List Uuid) (rest : List (K × List Uuid))
      → cmp key found ≡ Ordering.gt
      → push_group cmp key id ((found, ids) ∷ rest) ≡ (found, ids) ∷ push_group cmp key id rest
  unfolding push_group
  push_after key found id ids rest h = ground arith

  All-push_group :
      (low key : K) (id : Uuid) (groups : List (K × List Uuid))
      → cmp low key ≡ Ordering.lt
      → All (λ (other, _). cmp low other ≡ Ordering.lt) groups
      → All (λ (other, _). cmp low other ≡ Ordering.lt) (push_group cmp key id groups)
  All-push_group low key id [] below h = unfold push_group in (below, tt)
  All-push_group low key id ((found, ids) ∷ rest) below h = elim (Ordering-cases (cmp key found)) [
    | inl lt ↦ rw (push_before key found id ids rest lt) (below, h)
    | inr (inl eq) ↦ rw (push_same key found id ids rest eq) h
    | inr (inr gt) ↦
        rw (push_after key found id ids rest gt) (h.0, All-push_group low key id rest below h.1)
  ]

  pub push_group-IsGrouped :
      (key : K) (id : Uuid) (groups : List (K × List Uuid))
      → IsGrouped cmp groups
      → IsGrouped cmp (push_group cmp key id groups)
  push_group-IsGrouped key id [] h = unfold push_group in ((λ e. cc), tt, tt)
  push_group-IsGrouped key id ((found, ids) ∷ rest) h = elim (Ordering-cases (cmp key found)) [
    | inl lt ↦ rw (push_before key found id ids rest lt) (
      (λ e. cc),
      (
        lt,
        All-map (λ (other, _). cmp found other ≡ Ordering.lt)
            (λ (other, _). cmp key other ≡ Ordering.lt) rest
            (λ (other, _). order.lt_trans key found other lt) h.1,
      ),
      h,
    )
    | inr (inl eq) ↦ rw (push_same key found id ids rest eq) (concat_not_nil ids id, h.1, h.2)
    | inr (inr gt) ↦ rw (push_after key found id ids rest gt) (
      h.0,
      All-push_group found key id rest (ground (arith, order.flipped key found)) h.1,
      push_group-IsGrouped key id rest h.2,
    )
  ]

  absent_below :
      (key other found : K) (ids : List Uuid) (rest : List (K × List Uuid))
      → cmp key found ≡ Ordering.lt
      → All (λ (k, _). cmp found k ≡ Ordering.lt) rest
      → cmp key other ≡ Ordering.eq
      → (is_eq (cmp found other) ≡ false) × (group_of cmp other rest ≡ [])
  absent_below key other found ids rest lt h eq =
      let same : key ≡ other = order.same key other eq in
      let above : cmp other found ≡ Ordering.lt =
        subst (λ (k : K). cmp k found ≡ Ordering.lt) same lt in
      (
        ground (arith, order.flipped other found),
        group_of_below other rest (
            All-map (λ (k, _). cmp found k ≡ Ordering.lt) (λ (k, _). cmp other k ≡ Ordering.lt) rest
              (λ (k, _). order.lt_trans other found k above) h),
      )

  one_key :
      (key found other : K)
      → cmp key found ≡ Ordering.gt
      → cmp key other ≡ Ordering.eq
      → is_eq (cmp found other) ≡ false
  one_key key found other gt eq =
      let same : key ≡ other = order.same key other eq in
      let above : cmp other found ≡ Ordering.gt =
        subst (λ (k : K). cmp k found ≡ Ordering.gt) same gt in
      ground (arith, order.flipped other found)

  -- Pushing under a key adds to its group and leaves the others.
  pub group_of-push_group :
      (key other : K) (id : Uuid) (groups : List (K × List Uuid))
      → IsGrouped cmp groups
      → group_of cmp other (push_group cmp key id groups)
        ≡ group_of cmp other groups ++ (if is_eq (cmp key other) then id ∷ [] else [])
  unfolding group_of
  group_of-push_group key other id [] h = unfold push_group in refl
  group_of-push_group key other id ((found, ids) ∷ rest) h = elim (Ordering-cases (cmp key found)) [
    | inl lt ↦ rw (push_before key found id ids rest lt) (
        ground (
          arith,
          absent_below key other found ids rest lt h.1,
          append-nil ids,
          append-nil (group_of cmp other rest),
        ))
    | inr (inl eq) ↦
        let same : cmp found other ≡ cmp key other =
          ap (λ (k : K). cmp k other) (sym (order.same key found eq)) in
        rw (push_same key found id ids rest eq)
          (ground (arith, append-nil (group_of cmp other rest)))
    | inr (inr gt) ↦ rw (push_after key found id ids rest gt) (
        ground (
          arith,
          one_key key found other gt,
          append-nil ids,
          group_of-push_group key other id rest h.2,
        ))
  ]

  -- A group is found under its key.
  pub group_of_mem :
      (key : K) (ids : List Uuid) (groups : List (K × List Uuid))
      → IsGrouped cmp groups
      → Memᴰ (key, ids) groups
      → (ids ≢ []) × (group_of cmp key groups ≡ ids)
  unfolding group_of
  group_of_mem key ids [] h m = absurd (Memᴰ.not-nil m)
  group_of_mem key ids ((found, more) ∷ rest) h m = elim (Memᴰ.cases_cons m) [
    | inl e ↦
        let keys : key ≡ found = ap (λ q. q.0) e in
        let lists : ids ≡ more = ap (λ q. q.1) e in rw (keys, lists) (h.0, rw (self found) refl)
    | inr later ↦
        let (full, there) = group_of_mem key ids rest h.2 later in
        let above = All-Memᴰ (λ (k, _). cmp found k ≡ Ordering.lt) (key, ids) rest h.1 later in
        (full, rw above there)
  ]

  pub mem_group_of :
      (key : K) (groups : List (K × List Uuid))
      → group_of cmp key groups ≢ []
      → Memᴰ (key, group_of cmp key groups) groups
  unfolding group_of
  mem_group_of key [] n = absurd (n refl)
  mem_group_of key ((found, ids) ∷ rest) n = elim (Ordering-cases (cmp found key)) [
    | inr (inl eq) ↦ rw eq (Memᴰ.head (ap (λ (k : K). (k, ids)) (sym (order.same found key eq))))
    | inl lt ↦ rw lt (Memᴰ.tail (mem_group_of key rest (rw lt at n)))
    | inr (inr gt) ↦ rw gt (Memᴰ.tail (mem_group_of key rest (rw gt at n)))
  ]

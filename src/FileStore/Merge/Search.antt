-- ===== src/FileStore/Merge/Search.antt =====
-- `is_ancestor` decides whether one transaction is an ancestor of another, and its loop ends.
pub mod Scan
use eventcore.Prelude.{
  ℕ, zero, suc, ◌+◌, ◌≤◌, ◌<◌, ◌≡◌, refl, sym, ◌∙◌, subst, ◌↔◌, ◌⊎◌, inl, inr, List, [], ◌∷◌, Bool,
  true, false, Option, none, some, arith, eqb, eqb_iff, length, Option-cases, Bool-cases,
}
use eventcore.Prelude.UuidMap.{
  Uuid, lookup, contains, contains_head, contains_tail, contains_inv, values,
}
use eventcore.FileStore.Format.{TransactionHeader}
use eventcore.FileStore.Topology.{Headers, referenced}
use eventcore.FileStore.Topology.Tips.{
  Names, Ancestor, parent, beyond, Ancestor-trans, names_referenced,
}
use eventcore.FileStore.Merge.{Walk, scan_parents, search, search_fuel, is_ancestor}
use eventcore.FileStore.Merge.Search.Scan.{
  unseen, work, Scanned, scan_parents-Scanned, scan_parents_found, unseen-nil,
}

module _ (headers : Headers) (a d : Uuid) where
  -- all identifiers that some transaction names as its parent
  abbrev names : List Uuid
  names = referenced (values headers)

  abbrev Reached : Uuid → Type 0
  Reached x = (x ≡ d) ⊎ Ancestor headers x d

  abbrev Visited : Walk → Uuid → Type 0
  Visited w x = (x ≡ d) ⊎ (contains x w.seen ≡ true)

  -- The parents of `x` have been looked at.
  abbrev Closed : Walk → Uuid → Type 0
  Closed w x = (p : Uuid) → Names headers p x → (contains p w.seen ≡ true) × (eqb p a ≡ false)

  record Inv (w : Walk) : Type 0 where
    reached : (x : Uuid) → contains x w.stack ≡ true → Reached x
    closed : (x : Uuid) → Visited w x → (contains x w.stack ≡ true) ⊎ Closed w x

  Reached-parent : (p x : Uuid) → Names headers p x → Reached x → Ancestor headers p d
  Reached-parent p x n (inl same) = subst (Ancestor headers p) same (parent n)
  Reached-parent p x n (inr further) = Ancestor-trans headers p x d (parent n) further

  Inv-start : Inv (record { stack = d ∷ []; seen = [] })
  Inv-start = record {
    reached = λ x h. elim (contains_inv x d [] h) [
      | inl same ↦ inl (sym same)
      | inr none_there ↦ absurd (unfold contains in cc)
    ];
    closed = λ x v. elim v [
      | inl same ↦ inl (rw same (contains_head d []))
      | inr none_there ↦ absurd (unfold contains in cc)
    ];
  }

  Closed-when_empty : (w : Walk) (x : Uuid) → w.stack ≡ [] → Inv w → Visited w x → Closed w x
  Closed-when_empty w x e inv v = elim (inv.closed x v) [
    | inl waiting ↦
        absurd (unfold contains in (cc (subst (λ (s : List Uuid). contains x s ≡ true) e waiting)))
    | inr closed ↦ closed
  ]

  -- With an empty stack everything that was visited is closed, and so nothing above is the ancestor.
  no-Ancestor : (w : Walk) (x : Uuid) → w.stack ≡ [] → Inv w → Visited w x → ¬ Ancestor headers a x
  no-Ancestor w x e inv v (parent n) =
      absurd (ground (arith, (Closed-when_empty w x e inv v a n).1))
  no-Ancestor w x e inv v (beyond {p = p} n further) =
      no-Ancestor w p e inv (inr (Closed-when_empty w x e inv v p n).0) further

  Inv-missing :
      (x : Uuid) (rest seen : List Uuid)
      → lookup x headers ≡ none
      → Inv (record { stack = x ∷ rest; seen = seen })
      → Inv (record { stack = rest; seen = seen })
  Inv-missing x rest seen missing inv = record {
    reached = λ y h. inv.reached y (contains_tail y x rest h);
    closed = λ y v. elim (inv.closed y v) [
      | inr closed ↦ inr closed
      | inl waiting ↦ elim (contains_inv y x rest waiting) [
        | inr later ↦ inl later
        | inl same ↦ inr (λ p (header, found, there). absurd (cc))
      ]
    ];
  }

  module _ (x : Uuid) (rest seen : List Uuid) (header : TransactionHeader) (after : Walk)
      (found : lookup x headers ≡ some header)
      (inv : Inv (record { stack = x ∷ rest; seen = seen }))
      (s : Scanned names a header.parent_transaction_ids
        (record { stack = rest; seen = seen })
        after) where
    scanned_old :
        (y : Uuid)
        → Visited (record { stack = x ∷ rest; seen = seen }) y
        → (contains y after.stack ≡ true) ⊎ Closed after y
    scanned_old y v = elim (inv.closed y v) [
      | inr closed ↦ inr (λ p n. (s.seen_kept p (closed p n).0, (closed p n).1))
      | inl waiting ↦ elim (contains_inv y x rest waiting) [
        | inl same ↦ inr (λ p (other, found', there).
            let e : other ≡ header =
              cc (subst (λ (z : Uuid). lookup z headers ≡ some header) same found) in
            s.parents_seen p (
              subst (λ (h : TransactionHeader). contains p h.parent_transaction_ids ≡ true) e
                there))
        | inr later ↦ inl (s.stack_kept y later)
      ]
    ]

    Inv-scanned : Inv after
    Inv-scanned = record {
      reached = λ y h. elim (s.stack_new y h) [
        | inl old ↦ inv.reached y (contains_tail y x rest old)
        | inr new ↦
            inr (Reached-parent y x (header, found, new) (inv.reached x (contains_head x rest)))
      ];
      closed = λ y v. elim v [
        | inl start ↦ scanned_old y (inl start)
        | inr h ↦ elim (s.seen_new y h) [
          | inl old ↦ scanned_old y (inr old)
          | inr waiting ↦ inl waiting
        ]
      ];
    }

  search_missing :
      (fuel : ℕ) (x : Uuid) (rest seen : List Uuid)
      → lookup x headers ≡ none
      → search (suc fuel) headers a (record { stack = x ∷ rest; seen = seen })
        ≡ search fuel headers a (record { stack = rest; seen = seen })
  unfolding search
  search_missing fuel x rest seen missing = ground arith

  search_hit :
      (fuel : ℕ) (x : Uuid) (rest seen : List Uuid) (header : TransactionHeader)
      → lookup x headers ≡ some header
      → scan_parents a header.parent_transaction_ids (record { stack = rest; seen = seen }) ≡ none
      → search (suc fuel) headers a (record { stack = x ∷ rest; seen = seen }) ≡ some true
  unfolding search
  search_hit fuel x rest seen header found hit = ground arith

  search_next :
      (fuel : ℕ) (x : Uuid) (rest seen : List Uuid) (header : TransactionHeader) (after : Walk)
      → lookup x headers ≡ some header
      → scan_parents a header.parent_transaction_ids (record { stack = rest; seen = seen })
        ≡ some after
      → search (suc fuel) headers a (record { stack = x ∷ rest; seen = seen })
        ≡ search fuel headers a after
  unfolding search
  search_next fuel x rest seen header after found e = ground arith

  -- what the loop returns, and that it is right
  abbrev Decides : Option Bool → Type 0
  Decides r = (r ≡ some true) × Ancestor headers a d ⊎ (r ≡ some false) × (¬ Ancestor headers a d)

  search-Decides :
      (fuel : ℕ) (stack seen : List Uuid)
      → Inv (record { stack = stack; seen = seen })
      → work names (record { stack = stack; seen = seen }) < fuel
      → Decides (search fuel headers a (record { stack = stack; seen = seen }))
  unfolding search
  search-Decides zero stack seen inv h = absurd (omega arith)
  search-Decides (suc fuel) [] seen inv h =
      inr (refl, no-Ancestor (record { stack = []; seen = seen }) d refl inv (inl refl))
  search-Decides (suc fuel) (x ∷ rest) seen inv h = elim (Option-cases (lookup x headers)) [
    | inl missing ↦
        subst Decides (sym (search_missing fuel x rest seen missing))
          (search-Decides fuel rest seen (Inv-missing x rest seen missing inv) (omega arith))
    | inr (header, found) ↦
        elim (Option-cases
          (scan_parents a header.parent_transaction_ids (record { stack = rest; seen = seen }))) [
            | inl hit ↦ inl (
              search_hit fuel x rest seen header found hit,
              Reached-parent a x
                  (
                    header,
                    found,
                    scan_parents_found a header.parent_transaction_ids
                        (record { stack = rest; seen = seen }) hit,
                  )
                  (inv.reached x (contains_head x rest)),
            )
            | inr (after, e) ↦
                let s =
                  scan_parents-Scanned names a header.parent_transaction_ids
                    (record { stack = rest; seen = seen }) after
                    (λ p there. names_referenced headers p x header headers found there) e in
                subst Decides (sym (search_next fuel x rest seen header after found e)) (
                  search-Decides fuel after.stack after.seen
                    (Inv-scanned x rest seen header after found inv s)
                    (omega (arith, s.no_more_work)))
          ]
  ]

  start-Decides :
      Decides (search (search_fuel headers) headers a (record { stack = d ∷ []; seen = [] }))
  start-Decides =
      search-Decides (search_fuel headers) (d ∷ []) [] Inv-start (omega (arith, unseen-nil names))

  -- The search ends within the fuel that it is given, and it finds that `a` is an ancestor of `d`
  -- exactly if `d` leads to `a` by going from a transaction to a parent, once or more often; cycles
  -- and missing transactions included.
  pub is_ancestor_lem :
      (search (search_fuel headers) headers a (record { stack = d ∷ []; seen = [] })
        ≡ some (is_ancestor a d headers))
      × ((is_ancestor a d headers ≡ true) ↔ Ancestor headers a d)
  unfolding is_ancestor
  is_ancestor_lem = elim start-Decides [
    | inl (e, up) ↦ (ground arith, (λ h. up, λ u. ground arith))
    | inr (e, not_up) ↦ (ground arith, (λ h. absurd (ground arith), λ u. absurd (not_up u)))
  ]

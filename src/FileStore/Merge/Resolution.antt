-- ===== src/FileStore/Merge/Resolution.antt =====
-- A transaction on top of all tips descends from every other one, so it resolves every fork that does
-- not involve it.
use Prim.Native.Nat.{compare}
use mathlib.Core.List.{Memᴰ}
use eventcore.Prelude.{
  ℕ, ◌≡◌, refl, sym, subst, ap, ◌∙◌, inl, inr, String, List, [], ◌∷◌, ◌++◌, Bool, true, false,
  Result, ok, All, arith, eqb, eqb_iff, Bool-cases,
}
use eventcore.Prelude.UuidMap.{
  Uuid, insert_new, contains, contains_key, contains_head, contains_tail, contains_inv,
  contains-keys, keys, values, IsDistinct,
}
use eventcore.Prelude.UuidMap.Order.{contains-sort_by}
use eventcore.FileStore.Format.{TransactionHeader}
use eventcore.FileStore.Topology.{Headers}
use eventcore.FileStore.Topology.Depth.{IsDag}
use eventcore.FileStore.Topology.Tips.{
  Names, Ancestor, parent, beyond, Ancestor-trans, known_of_Names, tip_above,
}
use eventcore.FileStore.Topology.Extension.{
  IsOnTop, extended, lookup-new, lookup_old, known_is_old, known_in_extended,
}
use eventcore.FileStore.Merge.{is_ancestor, all_of, any_of, fork_is_resolved, Fork, detect_forks_in}
use eventcore.FileStore.Merge.Search.{is_ancestor_lem}
use eventcore.FileStore.Merge.Claims.{claims, IsKeyed, claims_known}
use eventcore.FileStore.Merge.Forks.{detect_forks_exact}

all_of-All :
    (p : Uuid → Bool) (xs : List Uuid)
    → ((x : Uuid) → contains x xs ≡ true → p x ≡ true)
    → all_of p xs ≡ true
unfolding all_of
all_of-All p [] h = refl
all_of-All p (x ∷ xs) h =
    ground (
      arith,
      h x (contains_head x xs),
      all_of-All p xs (λ y there. h y (contains_tail y x xs there)),
    )

any_of-contains :
    (p : Uuid → Bool) (xs : List Uuid) (x : Uuid)
    → contains x xs ≡ true
    → p x ≡ true
    → any_of p xs ≡ true
unfolding any_of contains
any_of-contains p [] x h e = absurd (cc)
any_of-contains p (y ∷ ys) x h e = elim (contains_inv x y ys h) [
  | inl same ↦ let here : p y ≡ true = subst (λ (z : Uuid). p z ≡ true) (sym same) e in ground arith
  | inr later ↦ ground (arith, any_of-contains p ys x later e)
]

All-concat {ℓ κ} :
    {A : Type ℓ} (P : A → Type κ) (xs : List A) (x : A) → All P xs → P x → All P (xs ++ x ∷ [])
All-concat P [] x h p = (p, tt)
All-concat P (y ∷ ys) x h p = (h.0, All-concat P ys x h.1 p)

module _ (headers : Headers) (new : Uuid) (header : TransactionHeader)
    (top : IsOnTop headers new header) (rank : Uuid → ℕ) (dag : IsDag headers rank)
    (distinct : IsDistinct (keys headers)) where
  Names-extended : (p x : Uuid) → Names headers p x → Names (extended headers new header) p x
  Names-extended p x (h, found, there) = (
    h,
    lookup_old headers new header top x
          (known_is_old headers new header top x (known_of_Names headers p x (h, found, there)))
        ∙ found,
    there,
  )

  Ancestor-extended :
      (a d : Uuid) → Ancestor headers a d → Ancestor (extended headers new header) a d
  Ancestor-extended a d (parent n) = parent (Names-extended a d n)
  Ancestor-extended a d (beyond {p = p} n further) =
      beyond (Names-extended p d n) (Ancestor-extended a p further)

  -- Every old transaction is an ancestor of the new one.
  pub Ancestor-of_new :
      (id : Uuid) → contains_key id headers ≡ true → Ancestor (extended headers new header) id new
  Ancestor-of_new id known =
      let (tip, is, reaches, deep) = tip_above headers rank dag distinct id known in
      let up : Ancestor (extended headers new header) tip new =
        parent (header, lookup-new headers new header top, top.above_tips tip is) in
      elim reaches [
        | inl same ↦
            subst (λ (x : Uuid). Ancestor (extended headers new header) x new) (sym same) up
        | inr further ↦
            Ancestor-trans (extended headers new header) id tip new
              (Ancestor-extended id tip further) up
      ]

  old_claimant :
      (id : Uuid) (heads : List Uuid)
      → contains new heads ≡ false
      → contains id heads ≡ true
      → contains_key id (extended headers new header) ≡ true
      → contains_key id headers ≡ true
  old_claimant id heads absent there known = elim (Bool-cases (eqb new id)) [
    | inl same ↦
        let e : id ≡ new = sym ((eqb_iff new id).0 same) in
        absurd (cc (absent, subst (λ (x : Uuid). contains x heads ≡ true) e there))
    | inr other ↦ ground (arith, known_in_extended headers new header top id)
  ]

  pub old_resolved :
      (heads : List Uuid)
      → ((id : Uuid) → contains id heads ≡ true → contains_key id headers ≡ true)
      → fork_is_resolved heads (extended headers new header) ≡ true
  unfolding fork_is_resolved
  old_resolved heads known =
      any_of-contains
        (λ candidate.
          all_of (λ head. is_ancestor head candidate (extended headers new header)) heads)
        (keys (extended headers new header)) new
        (contains-keys new (extended headers new header)
          ∙ ground (arith, known_in_extended headers new header top new))
        (all_of-All (λ head. is_ancestor head new (extended headers new header)) heads
          (λ id there.
            (is_ancestor_lem (extended headers new header) id new).1.1
              (Ancestor-of_new id (known id there))))

  pub IsKeyed-extended :
      IsKeyed headers → header.transaction_id ≡ new → IsKeyed (extended headers new header)
  IsKeyed-extended keyed own =
      subst IsKeyed (sym (insert_new new header headers top.fresh))
        (All-concat (λ (id, h). h.transaction_id ≡ id) headers (new, header) keyed own)

  -- After a transaction has been added on top of all tips, every fork that is reported involves it: each
  -- other group has the new transaction as a common descendant.
  pub append_resolves :
      (try_new : String → Result String String) (forks : List Fork) (f : Fork)
      → IsKeyed headers
      → header.transaction_id ≡ new
      → detect_forks_in try_new (extended headers new header) ≡ ok forks
      → Memᴰ f forks
      → contains new f.transactions ≡ true
  append_resolves try_new forks f keyed own e m =
      let (key, r) = (detect_forks_exact try_new (extended headers new header) forks e).0 f m in
      let heads = claims key (values (extended headers new header)) in
      elim (Bool-cases (contains new heads)) [
        | inl there ↦ ap (contains new) r.transactions ∙ contains-sort_by compare new heads ∙ there
        | inr absent ↦ absurd (
            cc (
              r.unresolved,
              old_resolved heads (λ id there.
                  let known =
                    sym (contains-keys id (extended headers new header))
                    ∙ claims_known id key (extended headers new header) (IsKeyed-extended keyed own)
                        there in
                  old_claimant id heads absent there known),
            ))
      ]

-- ===== src/FileStore/Merge/Forks.antt =====
-- Which forks are detected: the groups of two or more transactions that claim to extend one stream
-- from the same version, unless some transaction descends from all of them.
use Prim.Native.Nat.{compare}
use mathlib.Core.List.{Memᴰ}
use mathlib.Core.List.Memᴰ
use eventcore.Prelude.{
  ◌≡◌, refl, sym, subst, ap, ◌∙◌, inl, inr, String, List, [], ◌∷◌, true, false, Result, ok,
  >>=-eq-ok, map_err, arith, ltb, length, Bool-cases,
}
use eventcore.Prelude.Sorting.{sort_by}
use eventcore.Prelude.UuidMap.{Uuid, values}
use eventcore.FileStore.Topology.{Headers}
use eventcore.FileStore.Merge.{
  Fork, GroupKey, by_base, fork_is_resolved, forks_among, detect_forks_in, check_replica_collisions,
  corrupted_stream,
}
use eventcore.FileStore.Merge.Groups.{group_of_mem, mem_group_of}
use eventcore.FileStore.Merge.Claims.{base_order, claims, by_base_lem, no_group}

module _ (try_new : String → Result String String) (headers : Headers) where
  -- The candidates are a fork, and `f` reports it.
  pub record Reports (f : Fork) (key : GroupKey) (candidates : List Uuid) : Type 0 where
    pub several : ltb (length candidates) 2 ≡ false
    pub unresolved : fork_is_resolved candidates headers ≡ false
    pub stream : try_new key.0 ≡ ok f.stream_id
    pub base : f.base_version ≡ key.1
    pub transactions : f.transactions ≡ sort_by compare candidates

  -- what one round of the loop over the groups does, when the loop returns forks
  data Round (key : GroupKey) (ids : List Uuid) (groups : List (GroupKey × List Uuid))
      (forks : List Fork) : Type 0 where
    few :
        ltb (length ids) 2 ≡ true
        → forks_among try_new headers groups ≡ ok forks
        → Round key ids groups forks
    resolved :
        fork_is_resolved ids headers ≡ true
        → forks_among try_new headers groups ≡ ok forks
        → Round key ids groups forks
    reported :
        (f : Fork) (rest : List Fork)
        → Reports f key ids
        → forks_among try_new headers groups ≡ ok rest
        → forks ≡ f ∷ rest
        → Round key ids groups forks

  new_id_inv :
      (stream stream_id : String)
      → map_err (corrupted_stream stream) (try_new stream) ≡ ok stream_id
      → try_new stream ≡ ok stream_id
  new_id_inv stream stream_id h = ground arith

  Round-of :
      (key : GroupKey) (ids : List Uuid) (groups : List (GroupKey × List Uuid)) (forks : List Fork)
      → forks_among try_new headers ((key, ids) ∷ groups) ≡ ok forks
      → Round key ids groups forks
  unfolding forks_among
  Round-of key ids groups forks e = elim (Bool-cases (ltb (length ids) 2)) [
    | inl small ↦ few small (rw small at e)
    | inr several ↦ elim (Bool-cases (fork_is_resolved ids headers)) [
      | inl done ↦ resolved done (rw (several, done) at e)
      | inr open_fork ↦
          let e' = rw (several, open_fork) at e in
          let (stream_id, named, e'') =
            >>=-eq-ok (map_err (corrupted_stream key.0) (try_new key.0)) _ e' in
          let (rest, others, last) = >>=-eq-ok (forks_among try_new headers groups) _ e'' in
          reported
            (record {
              stream_id = stream_id;
              base_version = key.1;
              transactions = sort_by compare ids;
            })
            rest
            (record {
              several = several;
              unresolved = open_fork;
              stream = new_id_inv key.0 stream_id named;
              base = refl;
              transactions = refl;
            })
            others (cc)
    ]
  ]

  forks_sound :
      (groups : List (GroupKey × List Uuid)) (forks : List Fork) (f : Fork)
      → forks_among try_new headers groups ≡ ok forks
      → Memᴰ f forks
      → (key : GroupKey) × (ids : List Uuid) × Memᴰ (key, ids) groups × Reports f key ids
  forks_sound [] forks f e m =
      let same : forks ≡ [] = unfold forks_among in cc in
      absurd (Memᴰ.not-nil (subst (λ (xs : List Fork). Memᴰ f xs) same m))
  forks_sound ((key, ids) ∷ groups) forks f e m = elim (Round-of key ids groups forks e) [
    | few small e' ↦
        let (k, is, there, r) = forks_sound groups forks f e' m in (k, is, Memᴰ.tail there, r)
    | resolved done e' ↦
        let (k, is, there, r) = forks_sound groups forks f e' m in (k, is, Memᴰ.tail there, r)
    | reported g rest reports e' split ↦
        elim (Memᴰ.cases_cons (subst (λ (xs : List Fork). Memᴰ f xs) split m)) [
          | inl first ↦ (
            key,
            ids,
            Memᴰ.head refl,
            subst (λ (x : Fork). Reports x key ids) (sym first) reports,
          )
          | inr later ↦
              let (k, is, there, r) = forks_sound groups rest f e' later in
              (k, is, Memᴰ.tail there, r)
        ]
  ]

  forks_complete :
      (groups : List (GroupKey × List Uuid)) (forks : List Fork) (key : GroupKey) (ids : List Uuid)
      → forks_among try_new headers groups ≡ ok forks
      → Memᴰ (key, ids) groups
      → ltb (length ids) 2 ≡ false
      → fork_is_resolved ids headers ≡ false
      → (f : Fork) × Memᴰ f forks × Reports f key ids
  forks_complete [] forks key ids e m several unresolved = absurd (Memᴰ.not-nil m)
  forks_complete ((key', ids') ∷ groups) forks key ids e m several unresolved =
      let round = Round-of key' ids' groups forks e in
      elim (Memᴰ.cases_cons m) [
        | inl first ↦
            let lists : ids ≡ ids' = ap (λ q. q.1) first in
            let keys : key ≡ key' = ap (λ q. q.0) first in
            elim round [
              | few small e' ↦ absurd (cc)
              | resolved done e' ↦ absurd (cc)
              | reported g rest reports e' split ↦
                  (g, rw split (Memᴰ.head refl), rw (keys, lists) reports)
            ]
        | inr later ↦ elim round [
          | few small e' ↦ forks_complete groups forks key ids e' later several unresolved
          | resolved done e' ↦ forks_complete groups forks key ids e' later several unresolved
          | reported g rest reports e' split ↦
              let (f, there, r) = forks_complete groups rest key ids e' later several unresolved in
              (f, rw split (Memᴰ.tail there), r)
        ]
      ]

  pub detected :
      (forks : List Fork)
      → detect_forks_in try_new headers ≡ ok forks
      → forks_among try_new headers (by_base (values headers) []) ≡ ok forks
  unfolding detect_forks_in
  detected forks e = let (_, checked, e') = >>=-eq-ok (check_replica_collisions headers) _ e in e'

  pub detect_forks_exact :
      (forks : List Fork)
      → detect_forks_in try_new headers ≡ ok forks
      → ((f : Fork) → Memᴰ f forks → (key : GroupKey) × Reports f key (claims key (values headers)))
        × ((key : GroupKey)
            → ltb (length (claims key (values headers))) 2 ≡ false
            → fork_is_resolved (claims key (values headers)) headers ≡ false
            → (f : Fork) × Memᴰ f forks × Reports f key (claims key (values headers)))
  detect_forks_exact forks e =
      let groups = by_base (values headers) [] in
      let e' = detected forks e in
      (
        λ f m.
            let (key, ids, there, r) = forks_sound groups forks f e' m in
            let (grouped, all) = by_base_lem (values headers) [] key tt in
            let (full, found) = group_of_mem base_order key ids groups grouped there in
            let same : ids ≡ claims key (values headers) =
              sym found ∙ all ∙ no_group key (claims key (values headers)) in
            (key, subst (Reports f key) same r),
        λ key several unresolved.
            let (grouped, all) = by_base_lem (values headers) [] key tt in
            let same = all ∙ no_group key (claims key (values headers)) in
            let there =
              subst (λ (ids : List Uuid). Memᴰ (key, ids) groups) same
                (mem_group_of base_order key groups (λ none_there.
                  let empty : claims key (values headers) ≡ [] = sym same ∙ none_there in
                  absurd (cc (ap (λ (ids : List Uuid). ltb (length ids) 2) empty)))) in
            forks_complete groups forks key (claims key (values headers)) e' there several
              unresolved,
      )

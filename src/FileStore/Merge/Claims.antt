-- ===== src/FileStore/Merge/Claims.antt =====
-- Which transactions claim to extend a stream from a version, and how these are grouped.
use Prim.Native.Nat.{compare, Ordering}
use Prim.Native.String
use text.Mathlib.Text.{is_eq}
use eventcore.Prelude.{
  ◌≡◌, refl, sym, ap, ◌∙◌, List, [], ◌∷◌, ◌++◌, append_assoc, append-nil, true, All, arith,
  if◌then◌else◌,
}
use eventcore.Prelude.Comparison.{
  Comparison, lexicographic, lexicographic-Comparison, ℕ-Comparison, String-Comparison,
}
use eventcore.Prelude.HashMap.{HashMap}
use eventcore.Prelude.UuidMap.{Uuid, values, keys, contains, contains-append}
use eventcore.Types.Error.{StreamVersion}
use eventcore.FileStore.Format.{TransactionHeader}
use eventcore.FileStore.Topology.{Headers}
use eventcore.FileStore.Merge.{GroupKey, push_group, push_bases, by_base}
use eventcore.FileStore.Merge.Groups.{
  group_of, IsGrouped, push_group-IsGrouped, group_of-push_group,
}

abbrev pub base_cmp : GroupKey → GroupKey → Ordering
base_cmp = lexicographic String.compare compare

pub base_order : Comparison base_cmp
base_order = lexicographic-Comparison String.compare compare String-Comparison ℕ-Comparison

-- the transaction `id`, once for each entry of its bases that is `key`
unfoldable pub claims_of : Uuid → GroupKey → HashMap StreamVersion → List Uuid
claims_of id key [] = []
claims_of id key (base ∷ bases) =
    (if is_eq (base_cmp base key) then id ∷ [] else []) ++ claims_of id key bases

-- the transactions that claim to extend the stream of `key` from its version
unfoldable pub claims : GroupKey → List TransactionHeader → List Uuid
unfolding claims_of
claims key [] = []
claims key (header ∷ headers) =
    claims_of header.transaction_id key header.stream_bases ++ claims key headers

pub claims_of_inv :
    (x id : Uuid) (key : GroupKey) (bases : HashMap StreamVersion)
    → contains x (claims_of id key bases) ≡ true
    → id ≡ x
unfolding claims_of contains
claims_of_inv x id key [] h = absurd (cc)
claims_of_inv x id key (base ∷ bases) h = ground (
  arith,
  contains-append x (if is_eq (base_cmp base key) then id ∷ [] else []) (claims_of id key bases),
  claims_of_inv x id key bases,
)

-- Each header stands under the identifier of its transaction.
abbrev pub IsKeyed : Headers → Type 0
IsKeyed m = All (λ (id, header). header.transaction_id ≡ id) m

pub claims_known :
    (x : Uuid) (key : GroupKey) (m : Headers)
    → IsKeyed m
    → contains x (claims key (values m)) ≡ true
    → contains x (keys m) ≡ true
unfolding claims contains
claims_known x key [] h there = absurd (cc)
claims_known x key ((id, header) ∷ m) h there = ground (
  arith,
  h.0,
  contains-append x (claims_of header.transaction_id key header.stream_bases)
      (claims key (values m)),
  claims_of_inv x header.transaction_id key header.stream_bases,
  claims_known x key m h.1,
)

pub push_bases_lem :
    (id : Uuid) (bases : HashMap StreamVersion) (groups : List (GroupKey × List Uuid))
    (key : GroupKey)
    → IsGrouped base_cmp groups
    → IsGrouped base_cmp (push_bases id bases groups)
      × (group_of base_cmp key (push_bases id bases groups)
          ≡ group_of base_cmp key groups ++ claims_of id key bases)
unfolding push_bases claims_of
push_bases_lem id [] groups key h = (h, sym (append-nil (group_of base_cmp key groups)))
push_bases_lem id (base ∷ bases) groups key h =
    let (grouped, e) =
      push_bases_lem id bases (push_group base_cmp base id groups) key
        (push_group-IsGrouped base_order base id groups h) in
    (
      grouped,
      e
          ∙ ap (λ xs. xs ++ claims_of id key bases)
              (group_of-push_group base_order base key id groups h)
          ∙ append_assoc (group_of base_cmp key groups)
              (if is_eq (base_cmp base key) then id ∷ [] else []) (claims_of id key bases),
    )

pub by_base_lem :
    (hs : List TransactionHeader) (groups : List (GroupKey × List Uuid)) (key : GroupKey)
    → IsGrouped base_cmp groups
    → IsGrouped base_cmp (by_base hs groups)
      × (group_of base_cmp key (by_base hs groups) ≡ group_of base_cmp key groups ++ claims key hs)
unfolding by_base claims
by_base_lem [] groups key h = (h, sym (append-nil (group_of base_cmp key groups)))
by_base_lem (x ∷ hs) groups key h =
    let next = push_bases x.transaction_id x.stream_bases groups in
    let (here, e) = push_bases_lem x.transaction_id x.stream_bases groups key h in
    let (grouped, e') = by_base_lem hs next key here in
    (
      grouped,
      e'
          ∙ ap (λ xs. xs ++ claims key hs) e
          ∙ append_assoc (group_of base_cmp key groups)
              (claims_of x.transaction_id key x.stream_bases) (claims key hs),
    )

pub no_group : (key : GroupKey) (ids : List Uuid) → group_of base_cmp key [] ++ ids ≡ ids
unfolding group_of
no_group key ids = refl

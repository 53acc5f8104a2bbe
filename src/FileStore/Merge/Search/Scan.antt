-- ===== src/FileStore/Merge/Search/Scan.antt =====
-- One round of the search: what the loop over the parents does to the stack and to the set.
use eventcore.Prelude.{
  ℕ, ◌+◌, ◌≤◌, ◌<◌, ◌≡◌, refl, sym, subst, ◌⊎◌, inl, inr, List, [], ◌∷◌, true, false, none, some,
  arith, eqb, length, if◌then◌else◌, Bool-cases,
}
use eventcore.Prelude.UuidMap.{Uuid, contains, contains_head, contains_tail, contains_inv}
use eventcore.FileStore.Merge.{Seen, Walk, scan_parents}

-- the entries of a list that are not yet in the set
unfoldable pub unseen : List Uuid → Seen → ℕ
unseen [] seen = 0
unseen (x ∷ xs) seen = (if contains x seen then 0 else 1) + unseen xs seen

pub unseen-nil : (xs : List Uuid) → unseen xs [] ≡ length xs
unfolding unseen contains
unseen-nil [] = refl
unseen-nil (x ∷ xs) = omega (arith, unseen-nil xs)

unseen_grows : (xs : List Uuid) (p : Uuid) (seen : Seen) → unseen xs (p ∷ seen) ≤ unseen xs seen
unfolding unseen contains
unseen_grows [] p seen = omega arith
unseen_grows (x ∷ xs) p seen = ground (arith, unseen_grows xs p seen)

unseen-cons :
    (xs : List Uuid) (p : Uuid) (seen : Seen)
    → contains p xs ≡ true
    → contains p seen ≡ false
    → unseen xs (p ∷ seen) < unseen xs seen
unfolding unseen contains
unseen-cons [] p seen h n = absurd (cc)
unseen-cons (x ∷ xs) p seen h n = elim (contains_inv p x xs h) [
  | inl same ↦
      let absent : contains x seen ≡ false =
        subst (λ (y : Uuid). contains y seen ≡ false) (sym same) n in
      ground (arith, unseen_grows xs p seen)
  | inr later ↦ ground (arith, unseen-cons xs p seen later n)
]

-- `names` lists every identifier that may be put on the stack.
abbrev pub work : List Uuid → Walk → ℕ
work names walk = unseen names walk.seen + length walk.stack

pub record Scanned (names : List Uuid) (ancestor : Uuid) (ps : List Uuid) (before after : Walk)
    : Type 0 where
  pub stack_kept : (x : Uuid) → contains x before.stack ≡ true → contains x after.stack ≡ true
  pub seen_kept : (x : Uuid) → contains x before.seen ≡ true → contains x after.seen ≡ true
  pub parents_seen :
      (x : Uuid) → contains x ps ≡ true → (contains x after.seen ≡ true) × (eqb x ancestor ≡ false)
  pub seen_new :
      (x : Uuid)
      → contains x after.seen ≡ true
      → (contains x before.seen ≡ true) ⊎ (contains x after.stack ≡ true)
  pub stack_new :
      (x : Uuid)
      → contains x after.stack ≡ true
      → (contains x before.stack ≡ true) ⊎ (contains x ps ≡ true)
  pub no_more_work : work names after ≤ work names before

pub scan_parents_found :
    (ancestor : Uuid) (ps : List Uuid) (walk : Walk)
    → scan_parents ancestor ps walk ≡ none
    → contains ancestor ps ≡ true
unfolding scan_parents contains
scan_parents_found ancestor [] walk h = absurd (cc)
scan_parents_found ancestor (p ∷ ps) walk h = ground (
  arith,
  scan_parents_found ancestor ps walk,
  scan_parents_found ancestor ps (record { stack = p ∷ walk.stack; seen = p ∷ walk.seen }),
)

Scanned-nil : (names : List Uuid) (ancestor : Uuid) (w : Walk) → Scanned names ancestor [] w w
Scanned-nil names ancestor w = record {
  stack_kept = λ x h. h;
  seen_kept = λ x h. h;
  parents_seen = λ x h. absurd (unfold contains in cc);
  seen_new = λ x h. inl h;
  stack_new = λ x h. inl h;
  no_more_work = omega arith;
}

abbrev pushed : Uuid → Walk → Walk
pushed p w = record { stack = p ∷ w.stack; seen = p ∷ w.seen }

Scanned-again :
    (names : List Uuid) (ancestor p : Uuid) (ps : List Uuid) (before after : Walk)
    → eqb p ancestor ≡ false
    → contains p before.seen ≡ true
    → Scanned names ancestor ps before after
    → Scanned names ancestor (p ∷ ps) before after
Scanned-again names ancestor p ps before after other there s = record {
  stack_kept = s.stack_kept;
  seen_kept = s.seen_kept;
  parents_seen = λ x h. elim (contains_inv x p ps h) [
    | inl same ↦ rw (← same) (s.seen_kept p there, other)
    | inr later ↦ s.parents_seen x later
  ];
  seen_new = s.seen_new;
  stack_new = λ x h. elim (s.stack_new x h) [
    | inl old ↦ inl old
    | inr later ↦ inr (contains_tail x p ps later)
  ];
  no_more_work = s.no_more_work;
}

Scanned-deeper :
    (names : List Uuid) (ancestor p : Uuid) (ps : List Uuid) (before after : Walk)
    → contains p names ≡ true
    → eqb p ancestor ≡ false
    → contains p before.seen ≡ false
    → Scanned names ancestor ps (pushed p before) after
    → Scanned names ancestor (p ∷ ps) before after
Scanned-deeper names ancestor p ps before after named other new s = record {
  stack_kept = λ x h. s.stack_kept x (contains_tail x p before.stack h);
  seen_kept = λ x h. s.seen_kept x (contains_tail x p before.seen h);
  parents_seen = λ x h. elim (contains_inv x p ps h) [
    | inl same ↦ rw (← same) (s.seen_kept p (contains_head p before.seen), other)
    | inr later ↦ s.parents_seen x later
  ];
  seen_new = λ x h. elim (s.seen_new x h) [
    | inr there ↦ inr there
    | inl old ↦ elim (contains_inv x p before.seen old) [
      | inl same ↦ rw (← same) (inr (s.stack_kept p (contains_head p before.stack)))
      | inr older ↦ inl older
    ]
  ];
  stack_new = λ x h. elim (s.stack_new x h) [
    | inr later ↦ inr (contains_tail x p ps later)
    | inl old ↦ elim (contains_inv x p before.stack old) [
      | inl same ↦ rw (← same) (inr (contains_head p ps))
      | inr older ↦ inl older
    ]
  ];
  no_more_work = omega (arith, s.no_more_work, unseen-cons names p before.seen named new);
}

pub scan_parents-Scanned :
    (names : List Uuid) (ancestor : Uuid) (ps : List Uuid) (before after : Walk)
    → ((p : Uuid) → contains p ps ≡ true → contains p names ≡ true)
    → scan_parents ancestor ps before ≡ some after
    → Scanned names ancestor ps before after
unfolding scan_parents
scan_parents-Scanned names ancestor [] before after named h =
    let same : before ≡ after = cc in
    subst (Scanned names ancestor [] before) same (Scanned-nil names ancestor before)
scan_parents-Scanned names ancestor (p ∷ ps) before after named h =
    let named' =
      λ (x : Uuid) (there : contains x ps ≡ true). named x (contains_tail x p ps there) in
    elim (Bool-cases (eqb p ancestor)) [
      | inl found ↦ absurd (ground arith)
      | inr other ↦ elim (Bool-cases (contains p before.seen)) [
        | inl there ↦
            Scanned-again names ancestor p ps before after other there
              (scan_parents-Scanned names ancestor ps before after named' (ground arith))
        | inr new ↦
            Scanned-deeper names ancestor p ps before after (named p (contains_head p ps)) other new
              (scan_parents-Scanned names ancestor ps (pushed p before) after named' (ground arith))
      ]
    ]

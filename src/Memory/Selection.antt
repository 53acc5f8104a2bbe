-- ===== src/Memory/Selection.antt =====
-- Filters and pages of an ascending log.
use eventcore.Prelude.{
  ℕ, zero, suc, ◌≤◌, ◌<◌, ◌≡◌, refl, sym, ◌∙◌, subst, List, [], ◌∷◌, take, drop, length, filter_by,
  last?, All, Bool, true, Option, none, some, arith, filter_yes, filter_no, drop-length, Bool-cases,
  inl, inr,
}
use eventcore.Types.Query.{StreamPosition}
use eventcore.Memory.Store.{GlobalLogEntry}
use eventcore.Memory.Invariant.{Ascending}
use eventcore.Memory.Reader.{is_after}

pub filter-All {ℓ κ} :
    {A : Type ℓ} (P : A → Type κ) (p : A → Bool) (xs : List A) → All P xs → All P (filter_by p xs)
filter-All P p [] h = tt
filter-All P p (x ∷ xs) h = elim (Bool-cases (p x)) [
  | inl kept ↦ subst (All P) (sym (filter_yes p x xs kept)) (h.0, filter-All P p xs h.1)
  | inr left ↦ subst (All P) (sym (filter_no p x xs left)) (filter-All P p xs h.1)
]

pub filter-Ascending :
    (p : GlobalLogEntry → Bool) (gs : List GlobalLogEntry) (b : ℕ)
    → Ascending gs b
    → Ascending (filter_by p gs) b
filter-Ascending p [] b h = tt
filter-Ascending p (g ∷ gs) b h = elim (Bool-cases (p g)) [
  | inl kept ↦
      subst (λ xs. Ascending xs b) (sym (filter_yes p g gs kept))
        (
          filter-All (λ (x : GlobalLogEntry). g.event_id < x.event_id) p gs h.0,
          h.1,
          filter-Ascending p gs b h.2,
        )
  | inr left ↦
      subst (λ xs. Ascending xs b) (sym (filter_no p g gs left)) (filter-Ascending p gs b h.2)
]

-- What is after every entry of the list filters nothing out of it.
pub after-All :
    (q : ℕ) (gs : List GlobalLogEntry)
    → All (λ (x : GlobalLogEntry). q < x.event_id) gs
    → filter_by (is_after (some q)) gs ≡ gs
unfolding is_after
after-All q [] h = refl
after-All q (g ∷ gs) h = ground (arith, after-All q gs h.1)

pub last-All :
    (P : GlobalLogEntry → Type 0) (n : ℕ) (gs : List GlobalLogEntry) (x : GlobalLogEntry)
    → All P gs
    → last? (take n gs) ≡ some x
    → P x
last-All P zero gs x h e = absurd (cc)
last-All P (suc n) [] x h e = absurd (cc)
last-All P (suc zero) (g ∷ gs) x h e = subst P (cc) h.0
last-All P (suc (suc n)) (g ∷ []) x h e = subst P (cc) h.0
last-All P (suc (suc n)) (g ∷ k ∷ gs) x h e = last-All P (suc n) (k ∷ gs) x h.1 e

pub some_inj : (a b : GlobalLogEntry) → some a ≡ some b → a ≡ b
some_inj a b h = cc

pub after_head :
    (g : GlobalLogEntry) (gs : List GlobalLogEntry)
    → All (λ (x : GlobalLogEntry). g.event_id < x.event_id) gs
    → filter_by (is_after (some g.event_id)) (g ∷ gs) ≡ gs
unfolding is_after
after_head g gs h =
    filter_no (is_after (some g.event_id)) g gs (ground arith) ∙ after-All g.event_id gs h

-- In an ascending list, what comes after the last entry of a page is what the page left.
pub after_page :
    (n : ℕ) (gs : List GlobalLogEntry) (x : GlobalLogEntry) (b : ℕ)
    → Ascending gs b
    → last? (take n gs) ≡ some x
    → filter_by (is_after (some x.event_id)) gs ≡ drop n gs
unfolding is_after
after_page zero gs x b h e = absurd (cc)
after_page (suc n) [] x b h e = absurd (cc)
after_page (suc zero) (g ∷ gs) x b h e =
    subst (λ (y : GlobalLogEntry). filter_by (is_after (some y.event_id)) (g ∷ gs) ≡ gs)
      (some_inj g x e) (after_head g gs h.0)
after_page (suc (suc n)) (g ∷ []) x b h e =
    subst (λ (y : GlobalLogEntry). filter_by (is_after (some y.event_id)) (g ∷ []) ≡ [])
      (some_inj g x e) (after_head g [] tt)
after_page (suc (suc n)) (g ∷ k ∷ gs) x b h e =
    let below : g.event_id < x.event_id =
      last-All (λ (y : GlobalLogEntry). g.event_id < y.event_id) (suc n) (k ∷ gs) x h.0 e in
    filter_no (is_after (some x.event_id)) g (k ∷ gs) (ground arith)
    ∙ after_page (suc n) (k ∷ gs) x b h.2 e

-- A later position lets through a part of what an earlier one lets through.
pub after_later :
    (p : Option StreamPosition) (x : GlobalLogEntry) (gs : List GlobalLogEntry)
    → is_after p x ≡ true
    → filter_by (is_after (some x.event_id)) gs
      ≡ filter_by (is_after (some x.event_id)) (filter_by (is_after p) gs)
unfolding is_after
after_later none x [] h = refl
after_later none x (g ∷ gs) h = ground (arith, after_later none x gs h)
after_later (some q) x [] h = refl
after_later (some q) x (g ∷ gs) h = ground (arith, after_later (some q) x gs h)

pub filter-length {ℓ} :
    {A : Type ℓ} (p : A → Bool) (xs : List A) → length (filter_by p xs) ≤ length xs
filter-length p [] = omega arith
filter-length p (x ∷ xs) = ground (arith, filter-length p xs)

pub filter_sound {ℓ} :
    {A : Type ℓ} (p : A → Bool) (xs : List A) → All (λ x. p x ≡ true) (filter_by p xs)
filter_sound p [] = tt
filter_sound p (x ∷ xs) = elim (Bool-cases (p x)) [
  | inl kept ↦
      subst (All (λ y. p y ≡ true)) (sym (filter_yes p x xs kept)) (kept, filter_sound p xs)
  | inr left ↦ subst (All (λ y. p y ≡ true)) (sym (filter_no p x xs left)) (filter_sound p xs)
]

pub last-none : (n : ℕ) (gs : List GlobalLogEntry) → 1 ≤ n → last? (take n gs) ≡ none → gs ≡ []
last-none zero gs l h = absurd (omega arith)
last-none (suc n) [] l h = refl
last-none (suc zero) (g ∷ gs) l h = absurd (cc)
last-none (suc (suc n)) (g ∷ []) l h = absurd (cc)
last-none (suc (suc n)) (g ∷ k ∷ gs) l h = absurd (cc (last-none (suc n) (k ∷ gs) (omega arith) h))

pub last-drop :
    (n : ℕ) (gs : List GlobalLogEntry) (x : GlobalLogEntry)
    → last? (take n gs) ≡ some x
    → length (drop n gs) < length gs
last-drop zero gs x h = absurd (cc)
last-drop (suc n) [] x h = absurd (cc)
last-drop (suc n) (g ∷ gs) x h = omega (arith, drop-length n gs)

pub take-All {ℓ κ} :
    {A : Type ℓ} (P : A → Type κ) (n : ℕ) (xs : List A) → All P xs → All P (take n xs)
take-All P zero xs h = tt
take-All P (suc n) [] h = tt
take-All P (suc n) (x ∷ xs) h = (h.0, take-All P n xs h.1)

pub take_nil : (n : ℕ) → take {A = GlobalLogEntry} n [] ≡ []
take_nil zero = refl
take_nil (suc n) = refl

pub empty_of_length : (gs : List GlobalLogEntry) → length gs ≤ 0 → gs ≡ []
empty_of_length [] l = refl
empty_of_length (g ∷ gs) l = absurd (omega arith)

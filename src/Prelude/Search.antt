-- ===== src/Prelude/Search.antt =====
-- Laws of the searches and updates of a list.
use mathlib.Core.Path.{◌≡◌, refl, sym, subst}
use mathlib.Core.Bool.{Bool, true, false}
use mathlib.Core.List.{List, [], ◌∷◌, ◌++◌}
use mathlib.Core.Option.{none, some}
use mathlib.Core.Logic.{inl, inr}
use native.Mathlib.Omega.{arith}
use streaming_video_service.Prelude.Tests.{Bool-cases}
use streaming_video_service.Prelude.Lists.{find?, update_first, select, All}

module _ {ℓ} {A : Type ℓ} where
  pub find?-update_first_self :
      (p : A → Bool) (f : A → A)
      → ((x : A) → p x ≡ true → p (f x) ≡ true)
      → (l : List A) (d : A) → find? p l ≡ some d
      → find? p (update_first p f l) ≡ some (f d)
  find?-update_first_self p f keep [] d e = cc
  find?-update_first_self p f keep (x ∷ l) d e = elim (Bool-cases (p x)) [
    | inl hit ↦ ground (arith, keep x hit)
    | inr miss ↦ ground (arith, find?-update_first_self p f keep l d)
  ]

  -- An update of entries that `q` does not see, before and after.
  pub find?-update_first_ne :
      (p q : A → Bool) (f : A → A)
      → ((x : A) → p x ≡ true → (q x ≡ false) × (q (f x) ≡ false))
      → (l : List A) → find? q (update_first p f l) ≡ find? q l
  find?-update_first_ne p q f apart [] = refl
  find?-update_first_ne p q f apart (x ∷ l) = elim (Bool-cases (p x)) [
    | inl hit ↦ ground (arith, apart x hit)
    | inr miss ↦ ground (arith, find?-update_first_ne p q f apart l)
  ]

  pub find?-pass : (p : A → Bool) (l : List A) (d : A) → find? p l ≡ some d → p d ≡ true
  find?-pass p [] d e = cc
  find?-pass p (x ∷ l) d e = ground (arith, find?-pass p l d)

  pub find?-append_none :
      (p : A → Bool) (l : List A) (x : A)
      → find? p l ≡ none
      → p x ≡ true
      → find? p (l ++ x ∷ []) ≡ some x
  find?-append_none p [] x e h = ground arith
  find?-append_none p (y ∷ l) x e h = ground (arith, find?-append_none p l x)

  pub find?-append_some :
      (p : A → Bool) (l m : List A) (d : A) → find? p l ≡ some d → find? p (l ++ m) ≡ some d
  find?-append_some p [] m d e = cc
  find?-append_some p (y ∷ l) m d e = ground (arith, find?-append_some p l m d)

  pub find?-append_miss :
      (p : A → Bool) (l : List A) (x : A) → p x ≡ false → find? p (l ++ x ∷ []) ≡ find? p l
  find?-append_miss p [] x h = ground arith
  find?-append_miss p (y ∷ l) x h = ground (arith, find?-append_miss p l x h)

  same : (p : A → Bool) (x d : A) (l : List A) → p x ≡ true → find? p (x ∷ l) ≡ some d → x ≡ d
  same p x d l hit e = ground arith

  later :
      (p : A → Bool) (x d : A) (l : List A)
      → p x ≡ false
      → find? p (x ∷ l) ≡ some d
      → find? p l ≡ some d
  later p x d l miss e = ground arith

  module _ {κ} (P : A → Type κ) where
    pub All-append_one : (l : List A) (x : A) → All P l → P x → All P (l ++ x ∷ [])
    All-append_one [] x h px = (px, tt)
    All-append_one (y ∷ l) x h px = (h.0, All-append_one l x h.1 px)

    pub All-update_first :
        (p : A → Bool) (f : A → A)
        → ((x : A) → p x ≡ true → P x → P (f x))
        → (l : List A) → All P l
        → All P (update_first p f l)
    All-update_first p f keep [] h = h
    All-update_first p f keep (x ∷ l) h = elim (Bool-cases (p x)) [
      | inl hit ↦ rw hit (keep x hit h.0, h.1)
      | inr miss ↦ rw miss (h.0, All-update_first p f keep l h.1)
    ]

    pub All-find? : (p : A → Bool) (l : List A) (d : A) → All P l → find? p l ≡ some d → P d
    All-find? p [] d h e = cc
    All-find? p (x ∷ l) d h e = elim (Bool-cases (p x)) [
      | inl hit ↦ subst P (same p x d l hit e) h.0
      | inr miss ↦ All-find? p l d h.1 (later p x d l miss e)
    ]

    -- Only the entry that is found is changed.
    pub All-update_first_found :
        (p : A → Bool) (f : A → A) (l : List A) (d : A)
        → find? p l ≡ some d
        → P (f d)
        → All P l
        → All P (update_first p f l)
    All-update_first_found p f [] d e pd h = h
    All-update_first_found p f (x ∷ l) d e pd h = elim (Bool-cases (p x)) [
      | inl hit ↦ rw hit (subst (λ y. P (f y)) (sym (same p x d l hit e)) pd, h.1)
      | inr miss ↦ rw miss (h.0, All-update_first_found p f l d (later p x d l miss e) pd h.1)
    ]

module _ {ℓ} {A : Type ℓ} where
  pub select-append : (p : A → Bool) (l m : List A) → select p (l ++ m) ≡ select p l ++ select p m
  select-append p [] m = refl
  select-append p (x ∷ l) m = ground (arith, select-append p l m)

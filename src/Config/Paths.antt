-- ===== src/Config/Paths.antt =====
-- Which file `GetPath` of pkg/config/loader.go finds.
use streaming_video_service.Prelude.{
  ℕ, zero, suc, ◌+◌, ◌<◌, ◌≤◌, ◌≡◌, refl, subst, String, Bool, true, false, Bool-cases, nat_beq,
  ◌⊎◌, inl, inr, append_text, arith,
}
use streaming_video_service.Golang.{Result, ok, err}
use streaming_video_service.Config.{climb, get_path}

-- The path of a file, so many directories above the current one.
abbrev pub above : ℕ → String → String
above zero name = name
above (suc k) name = append_text "../" (above k name)

-- The file is found `k` directories up, and in none between `from` and there.
abbrev pub FoundAt : (String → Bool) → String → ℕ → ℕ → Result String → Type 0
FoundAt stat name from k out =
    (stat (above k name) ≡ true)
    × ((j : ℕ) → from ≤ j → j < k → stat (above j name) ≡ false)
    × (out ≡ ok (above k name))

-- It is in none of the directories from one to another.
abbrev pub Missing : (String → Bool) → String → ℕ → ℕ → Result String → Type 0
Missing stat name from to out =
    ((j : ℕ) → from ≤ j → j ≤ to → stat (above j name) ≡ false)
    × (out ≡ err (append_text name " can't find path"))

module _ (stat : String → Bool) (name : String) where
  -- What holds of one directory and of those above it.
  nearer :
      (from j : ℕ)
      → stat (above from name) ≡ false
      → (suc from ≤ j → stat (above j name) ≡ false)
      → from ≤ j
      → stat (above j name) ≡ false
  nearer from j here later le = elim (Bool-cases (nat_beq from j)) [
    | inl same ↦ subst (λ k. stat (above k name) ≡ false) (ground (arith, same)) here
    | inr other ↦ later (ground (arith, other))
  ]

  climb_lem :
      (n i : ℕ)
      → ((k : ℕ) × (i < k)
          × (k ≤ i + n)
          × FoundAt stat name (suc i) k (climb stat name (above i name) n))
        ⊎ Missing stat name (suc i) (i + n) (climb stat name (above i name) n)
  unfolding climb
  climb_lem zero i = inr (λ j from to. absurd (omega arith), refl)
  climb_lem (suc n) i = elim (Bool-cases (stat (above (suc i) name))) [
    | inl there ↦
        inl (
          suc i,
          omega arith,
          omega arith,
          (there, λ j from to. absurd (omega arith), rw there refl),
        )
    | inr missing ↦ elim (climb_lem n (suc i)) [
      | inl (k, gt, le, (found, below, out)) ↦ inl (
        k,
        omega arith,
        omega arith,
        (
          found,
          λ j from to. nearer (suc i) j missing (λ later. below j later to) from,
          rw missing out,
        ),
      )
      | inr (none_there, out) ↦ inr (
        λ j from to. nearer (suc i) j missing (λ later. none_there j later (omega arith)) from,
        rw missing out,
      )
    ]
  ]

  -- `GetPath` ends with the nearest file of the name: in the current directory, or in the first of its
  -- parents that has one, at most `max_count` levels up. It gives an error exactly when none of these
  -- directories has the file.
  pub get_path-FoundAt :
      (max_count : ℕ)
      → ((k : ℕ) × (k ≤ max_count) × FoundAt stat name 0 k (get_path stat name max_count))
        ⊎ Missing stat name 0 max_count (get_path stat name max_count)
  unfolding get_path
  get_path-FoundAt max_count = elim (Bool-cases (stat name)) [
    | inl there ↦ inl (0, omega arith, (there, λ j from to. absurd (omega arith), rw there refl))
    | inr missing ↦ elim (climb_lem max_count 0) [
      | inl (k, gt, le, (found, below, out)) ↦ inl (
        k,
        omega arith,
        (found, λ j from to. nearer 0 j missing (λ later. below j later to) from, rw missing out),
      )
      | inr (none_there, out) ↦ inr (
        λ j from to. nearer 0 j missing (λ later. none_there j later (omega arith)) from,
        rw missing out,
      )
    ]
  ]

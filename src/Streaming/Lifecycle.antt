-- ===== src/Streaming/Lifecycle.antt =====
-- The life of a video, as the streaming service promises it: it does not exist, or it is uploaded, or
-- it is ready, and it only moves on in this order. The database is seen as the function that gives the
-- video of each id.
pub mod Uploads
pub mod Jobs
pub mod Runs
use streaming_video_service.Prelude.{
  ℕ, String, ◌≡◌, refl, sym, ◌∙◌, ◌⊎◌, inl, inr, Bool-cases, nat_beq, Option, none, some,
  if◌then◌else◌, subst, arith,
}
use streaming_video_service.Golang.{Error, ok, err}
use streaming_video_service.Streaming.Domain.{Video, video_upload, video_ready}
use streaming_video_service.Streaming.Repository.{VideoRepo}

abbrev pub Videos : Type 0
Videos = ℕ → Option Video

-- What gorm promises of a table with a primary key: `Create` adds a row under an id that was not
-- there, `Save` replaces the row of its id, and either changes nothing when it gives an error.
pub record Stored {V : Type 0} (repo : VideoRepo V) (view : V → Videos) : Type 0 where
  pub create-ok :
      (video new : Video) (v : V)
      → (repo.create video v).0 ≡ ok new
      → (new ≡ record video { id = new.id })
        × (view v new.id ≡ none)
        × ((k : ℕ)
            → view (repo.create video v).1 k ≡ (if nat_beq k new.id then some new else view v k))
  pub create-err :
      (video : Video) (v : V) (e : Error)
      → (repo.create video v).0 ≡ err e
      → (k : ℕ) → view (repo.create video v).1 k ≡ view v k
  pub update-none :
      (video : Video) (v : V)
      → (repo.update video v).0 ≡ none
      → (k : ℕ)
      → view (repo.update video v).1 k ≡ (if nat_beq k video.id then some video else view v k)
  pub update-some :
      (video : Video) (v : V) (e : Error)
      → (repo.update video v).0 ≡ some e
      → (k : ℕ) → view (repo.update video v).1 k ≡ view v k
  pub get_by_id-ok :
      (id : ℕ) (video : Video) (v : V)
      → repo.get_by_id id v ≡ ok video
      → (view v id ≡ some video) × (video.id ≡ id)

-- A video later: what the client has given stays, and the status stays or, where `P` holds, is "ready".
abbrev pub Follows : Type 0 → Video → Video → Type 0
Follows P a b =
    (b.id ≡ a.id)
    × (b.title ≡ a.title)
    × (b.description ≡ a.description)
    × (b.video_type ≡ a.video_type)
    × ((b.status ≡ a.status) ⊎ ((b.status ≡ video_ready) × P))

-- A video that was not there before is uploaded or, where `P` holds, ready; and none goes away.
abbrev pub Later : Type 0 → Option Video → Option Video → Type 0
Later P none none = Unit
Later P none (some b) = (b.status ≡ video_upload) ⊎ ((b.status ≡ video_ready) × P)
Later P (some a) none = ⊥
Later P (some a) (some b) = Follows P a b

module _ (P : Type 0) where
  pub Later-refl : (o : Option Video) → Later P o o
  Later-refl none = tt
  Later-refl (some a) = (refl, refl, refl, refl, inl refl)

  pub Later-of_eq : (o p : Option Video) → p ≡ o → Later P o p
  Later-of_eq o p e = subst (Later P o) (sym e) (Later-refl o)

  -- A status after two moves, from any first one.
  status_trans :
      (a : String) (b c : Video)
      → (b.status ≡ a) ⊎ ((b.status ≡ video_ready) × P)
      → (c.status ≡ b.status) ⊎ ((c.status ≡ video_ready) × P)
      → (c.status ≡ a) ⊎ ((c.status ≡ video_ready) × P)
  status_trans a b c (inl p) (inl q) = inl (q ∙ p)
  status_trans a b c (inr (p, may)) (inl q) = inr (q ∙ p, may)
  status_trans a b c p (inr q) = inr q

  pub Later-trans : (o p q : Option Video) → Later P o p → Later P p q → Later P o q
  Later-trans none none q h k = k
  Later-trans none (some b) none h k = absurd k
  Later-trans none (some b) (some c) h (i, t, d, y, s) = status_trans video_upload b c h s
  Later-trans (some a) none q h k = absurd h
  Later-trans (some a) (some b) none h k = absurd k
  Later-trans (some a) (some b) (some c) (i, t, d, y, s) (i', t', d', y', s') =
      (i' ∙ i, t' ∙ t, d' ∙ d, y' ∙ y, status_trans a.status b c s s')

  pub Later-mono : (Q : Type 0) → (P → Q) → (o p : Option Video) → Later P o p → Later Q o p
  Later-mono Q f none none h = tt
  Later-mono Q f none (some b) (inl e) = inl e
  Later-mono Q f none (some b) (inr (e, may)) = inr (e, f may)
  Later-mono Q f (some a) none h = absurd h
  Later-mono Q f (some a) (some b) (i, t, d, y, inl e) = (i, t, d, y, inl e)
  Later-mono Q f (some a) (some b) (i, t, d, y, inr (e, may)) = (i, t, d, y, inr (e, f may))

-- One video is set, and the others stay.
pub Later-set :
    (P : ℕ → Type 0) (before after : Videos) (id : ℕ) (video : Video)
    → ((k : ℕ) → after k ≡ (if nat_beq k id then some video else before k))
    → Later (P id) (before id) (some video)
    → (k : ℕ) → Later (P k) (before k) (after k)
Later-set P before after id video is h k = elim (Bool-cases (nat_beq k id)) [
  | inl hit ↦
      let here : k ≡ id = ground (arith, hit) in
      subst (λ (p : Option Video). Later (P k) (before k) p) (sym (rw hit at (is k)))
        (subst (λ j. Later (P j) (before j) (some video)) (sym here) h)
  | inr miss ↦ Later-of_eq (P k) (before k) (after k) (rw miss at (is k))
]

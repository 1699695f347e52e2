-- ===== src/Tests/Lives.antt =====
-- The life of a video, on a table that gives its ids in order.
use streaming_video_service.Prelude.{
  ℕ, ◌+◌, ◌≡◌, refl, sym, ap, subst, ◌⊎◌, String, nat_beq, Option, none, some, List, [], ◌∷◌, inl,
  inr, Bool-cases, if◌then◌else◌, arith,
}
use streaming_video_service.Golang.{Error, Result, ok, err}
use streaming_video_service.Streaming.Domain.{Video, GetVideoRes, video_ready}
use streaming_video_service.Streaming.Repository.{VideoRepo}
use streaming_video_service.Streaming.UseCase.{Stores, StreamingUseCase, get_video}
use streaming_video_service.Streaming.Lifecycle.{Videos, Stored, Later}
use streaming_video_service.Streaming.Lifecycle.Runs.{
  Op, uploads, transcodes, HasJob, ops_state, ops_state-get_video,
}
use streaming_video_service.Tests.Videos.{disk, rabbit, minio, cat_job, request}

record Table : Type 0 where
  next : ℕ
  rows : Videos

with_id : ℕ → Option Video → Option Video
with_id k none = none
with_id k (some x) = some (record x { id = k })

abbrev view : Table → Videos
view t k = with_id k (t.rows k)

put_row : ℕ → Video → Videos → Videos
put_row id video rows k = if nat_beq k id then some video else rows k

insert_row : Option Video → Video → Table → Result Video × Table
insert_row (some x) video t = (err "duplicate key", t)
insert_row none video t =
    let new : Video = record video { id = t.next } in
    (ok new, record { next = t.next + 1; rows = put_row t.next new t.rows })

found_row : Option Video → Result Video
found_row none = err "record not found"
found_row (some video) = ok video

abbrev repo : VideoRepo Table
repo = record {
  create = λ video t. insert_row (t.rows t.next) video t;
  get_by_id = λ id t. found_row (view t id);
  update = λ video t. (none, record t { rows = put_row video.id video t.rows });
  find_by_status = λ status t. ok [];
  search_videos = λ key_word t. ok [];
  recommend_videos = λ limit t. ok [];
}

view-put_row :
    (id k : ℕ) (video : Video) (rows : Videos)
    → video.id ≡ id
    → with_id k (put_row id video rows k)
      ≡ (if nat_beq k id then some video else with_id k (rows k))
unfolding with_id put_row
view-put_row id k video rows same = elim (Bool-cases (nat_beq k id)) [
  | inl hit ↦ let here : k ≡ video.id = ground (arith, hit, same) in rw hit (rw here refl)
  | inr miss ↦ rw miss refl
]

ok_inj : (x y : Video) → ok x ≡ ok y → x ≡ y
ok_inj x y e = ground arith

create_lem :
    (o : Option Video) (video new : Video) (t : Table)
    → t.rows t.next ≡ o
    → (insert_row o video t).0 ≡ ok new
    → (new ≡ record video { id = new.id })
      × (view t new.id ≡ none)
      × ((k : ℕ)
          → view (insert_row o video t).1 k ≡ (if nat_beq k new.id then some new else view t k))
unfolding insert_row with_id
create_lem (some x) video new t e made = absurd (cc made)
create_lem none video new t e made =
    let first : Video = record video { id = t.next } in
    subst
      (λ (n : Video).
        (n ≡ record video { id = n.id })
        × (view t n.id ≡ none)
        × ((k : ℕ)
            → with_id k (put_row t.next first t.rows k)
              ≡ (if nat_beq k n.id then some n else view t k)))
      (ok_inj first new made) (refl, rw e refl, λ k. view-put_row t.next k first t.rows refl)

found_lem :
    (id : ℕ) (o : Option Video) (video : Video)
    → found_row (with_id id o) ≡ ok video
    → (with_id id o ≡ some video) × (video.id ≡ id)
unfolding found_row with_id
found_lem id none video e = absurd (cc e)
found_lem id (some x) video e =
    let same = ok_inj (record x { id = id }) video e in
    (ap some same, ap (λ (v : Video). v.id) (sym same))

create_err :
    (o : Option Video) (video : Video) (t : Table) (m : Error)
    → (insert_row o video t).0 ≡ err m
    → (k : ℕ) → view (insert_row o video t).1 k ≡ view t k
unfolding insert_row
create_err (some x) video t m e k = refl
create_err none video t m e k = absurd (cc e)

repo-Stored : Stored repo view
repo-Stored = record {
  create-ok = λ video new t e. create_lem (t.rows t.next) video new t refl e;
  create-err = λ video t m e k. create_err (t.rows t.next) video t m e k;
  update-none = λ video t e k. view-put_row video.id k video t.rows refl;
  update-some = λ video t m e k. absurd (cc e);
  get_by_id-ok = λ id video t e. found_lem id (t.rows id) video e;
}

abbrev lives_uc : StreamingUseCase Table (List String) ℕ (List String)
lives_uc = record { minio_client = minio; video_repo = repo; disk = disk; rabbit_channel = rabbit }

no_rows_yet : Videos
no_rows_yet k = none

abbrev nothing : Stores Table (List String) ℕ (List String)
nothing = record {
  videos = record { next = 1; rows = no_rows_yet };
  objects = [];
  files = 0;
  queue = [];
}

-- An upload and its job.
abbrev one_video : List Op
one_video = uploads request ∷ transcodes cat_job ∷ []

ops_state-get_video_example :
    Later
      (HasJob one_video 1)
      (view nothing.videos 1)
      (view (ops_state lives_uc one_video nothing).videos 1)
    × ((text : String) (res : GetVideoRes)
        → get_video lives_uc text 1 (ops_state lives_uc one_video nothing) ≡ ok res
        → ((a : Video) × (view nothing.videos 1 ≡ some a) × (a.status ≡ video_ready))
          ⊎ HasJob one_video 1)
ops_state-get_video_example = ops_state-get_video lives_uc view repo-Stored one_video nothing 1

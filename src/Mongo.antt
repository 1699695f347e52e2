-- ===== src/Mongo.antt =====
-- The collections of go.mongodb.org/mongo-driver that the chat service calls. The driver and the
-- server are not part of the repository: their operations are a parameter over a state `S`, and
-- `Documented` states what the manual says of a call. A filter is the test that
-- it stands for; a `$set` is the change that it makes to the document.
pub mod Sample
use streaming_video_service.Prelude.{
  String, ◌≡◌, ◌⊎◌, Bool, Option, none, some, List, [], ◌∷◌, ◌++◌, find?, select, update_first,
}
use streaming_video_service.Golang.{Error, Result, ok, err}

pub record Collection (S D : Type 0) : Type 0 where
  pub insert_one : D → S → Option Error × S
  pub find_one : (D → Bool) → S → Result D
  pub find : (D → Bool) → S → Result (List D)
  pub find_sorted : (D → Bool) → (D → String) → S → Result (List D)
  pub update_one : (D → Bool) → (D → D) → S → Option Error × S

-- `docs` lists the documents of a collection in natural order.
pub record Documented {S D : Type 0} (c : Collection S D) (docs : S → List D) : Type 0 where
  -- `InsertOne` without an error has stored the document.
  pub insert_one-some :
      (d : D) (s : S) → (c.insert_one d s).0 ≡ none → docs (c.insert_one d s).1 ≡ docs s ++ d ∷ []
  -- `FindOne` decodes the first document that matches.
  pub find_one-eq :
      (p : D → Bool) (s : S) (d : D) → c.find_one p s ≡ ok d → find? p (docs s) ≡ some d
  -- `Find` runs over all documents that match.
  pub find-eq : (p : D → Bool) (s : S) (ds : List D) → c.find p s ≡ ok ds → ds ≡ select p (docs s)
  -- `UpdateOne` without an error has changed the first document that matches, if there is one.
  pub update_one-eq :
      (p : D → Bool) (f : D → D) (s : S)
      → (c.update_one p f s).0 ≡ none
      → docs (c.update_one p f s).1 ≡ update_first p f (docs s)
  -- A write with an error may have been made or not, and has made nothing else.
  pub insert_one-or :
      (d : D) (s : S)
      → (docs (c.insert_one d s).1 ≡ docs s ++ d ∷ []) ⊎ (docs (c.insert_one d s).1 ≡ docs s)
  pub update_one-or :
      (p : D → Bool) (f : D → D) (s : S)
      → (docs (c.update_one p f s).1 ≡ update_first p f (docs s))
        ⊎ (docs (c.update_one p f s).1 ≡ docs s)

-- The server is up: a read finds what is stored, and a write gives no error.
pub record Available {S D : Type 0} (c : Collection S D) (docs : S → List D) : Type 0 where
  pub find_one-some :
      (p : D → Bool) (s : S) (d : D) → find? p (docs s) ≡ some d → c.find_one p s ≡ ok d
  pub find_one-none :
      (p : D → Bool) (s : S) → find? p (docs s) ≡ none → (e : Error) × (c.find_one p s ≡ err e)
  pub insert_one-none : (d : D) (s : S) → (c.insert_one d s).0 ≡ none
  pub update_one-none : (p : D → Bool) (f : D → D) (s : S) → (c.update_one p f s).0 ≡ none

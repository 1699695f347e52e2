-- ===== src/Mongo/Sample.antt =====
-- A collection in memory that never fails: it shows that the hypotheses on MongoDB can be met, and
-- serves the tests.
use streaming_video_service.Prelude.{
  ◌≡◌, refl, Option, none, some, List, [], ◌∷◌, ◌++◌, inl, find?, select, update_first, arith,
}
use streaming_video_service.Golang.{Error, Result, ok, err}
use streaming_video_service.Mongo.{Collection, Documented, Available}

abbrev pub or_no_documents : {D : Type 0} → Option D → Result D
or_no_documents none = err "mongo: no documents in result"
or_no_documents (some d) = ok d

unfoldable pub sample : {D : Type 0} → Collection (List D) D
sample = record {
  insert_one = λ d s. (none, s ++ d ∷ []);
  find_one = λ p s. or_no_documents (find? p s);
  find = λ p s. ok (select p s);
  find_sorted = λ p key s. ok (select p s);
  update_one = λ p f s. (none, update_first p f s);
}

abbrev pub all_docs : {D : Type 0} → List D → List D
all_docs s = s

some_document : {D : Type 0} (o : Option D) (d : D) → or_no_documents o ≡ ok d → o ≡ some d
some_document none d e = absurd (cc)
some_document (some x) d e = ground arith

documented : {D : Type 0} (o : Option D) (d : D) → o ≡ some d → or_no_documents o ≡ ok d
documented o d e = rw e refl

missing : {D : Type 0} (o : Option D) → o ≡ none → (e : Error) × (or_no_documents o ≡ err e)
missing o e = ("mongo: no documents in result", rw e refl)

found_all : {D : Type 0} (xs ds : List D) → ok xs ≡ ok ds → ds ≡ xs
found_all xs ds e = ground arith

pub sample-Documented : {D : Type 0} → Documented {D = D} sample all_docs
unfolding sample
sample-Documented = record {
  insert_one-some = λ d s e. refl;
  find_one-eq = λ p s d e. some_document (find? p s) d e;
  find-eq = λ p s ds e. found_all (select p s) ds e;
  update_one-eq = λ p f s e. refl;
  insert_one-or = λ d s. inl refl;
  update_one-or = λ p f s. inl refl;
}

pub sample-Available : {D : Type 0} → Available {D = D} sample all_docs
unfolding sample
sample-Available = record {
  find_one-some = λ p s d e. documented (find? p s) d e;
  find_one-none = λ p s e. missing (find? p s) e;
  insert_one-none = λ d s. refl;
  update_one-none = λ p f s. refl;
}

-- A server that cannot be reached.
unfoldable pub broken : {D : Type 0} → Collection (List D) D
broken = record {
  insert_one = λ d s. (some "no reachable servers", s);
  find_one = λ p s. err "no reachable servers";
  find = λ p s. err "no reachable servers";
  find_sorted = λ p key s. err "no reachable servers";
  update_one = λ p f s. (some "no reachable servers", s);
}

-- A server that stores, and whose reads time out.
unfoldable pub blind : {D : Type 0} → Collection (List D) D
blind = record {
  insert_one = λ d s. (none, s ++ d ∷ []);
  find_one = λ p s. err "i/o timeout";
  find = λ p s. err "i/o timeout";
  find_sorted = λ p key s. err "i/o timeout";
  update_one = λ p f s. (none, update_first p f s);
}

pub blind-Documented : {D : Type 0} → Documented {D = D} blind all_docs
unfolding blind
blind-Documented = record {
  insert_one-some = λ d s e. refl;
  find_one-eq = λ p s d e. absurd (cc);
  find-eq = λ p s ds e. absurd (cc);
  update_one-eq = λ p f s e. refl;
  insert_one-or = λ d s. inl refl;
  update_one-or = λ p f s. inl refl;
}

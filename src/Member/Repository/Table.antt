-- ===== src/Member/Repository/Table.antt =====
-- What PostgreSQL promises of the statements that internal/member/repository/member_repository.go
-- sends, and what the repository makes of it. `member_id` and `email` are unique in the schema of
-- Makefile/migrations/001_create_members_table.up.sql, so at most one row has them. `member_id` is a
-- UUID there: a statement that compares it with a text that is no UUID fails.
use streaming_video_service.Prelude.{
  ℕ, ◌<◌, ◌≡◌, refl, ◌∙◌, String, Bool, true, false, ◌||◌, Option, ◌==◌, none, some, List, [], ◌∷◌,
  ◌++◌, find?, update_first, arith,
}
use streaming_video_service.Golang.{Error, ok, err}
use streaming_video_service.Member.Domain.{MemberQuery}
use streaming_video_service.Member.Repository.{
  Column, id_column, member_id_column, email_column, Argument, Condition, Row, Scanned, row,
  no_rows, failed, Postgres, find_query, scanned_member, found_member, member_repository,
}
use streaming_video_service.Member.Repository.Query.{satisfies, is_asked, find_query-is_asked}

abbrev pub has_email : String → Row → Bool
has_email email r = r.email == email

abbrev pub has_member_id : String → Row → Bool
has_member_id id r = r.member_id == id

abbrev pub with_status : ℕ → Row → Row
with_status status r = record r { status = some status }

-- The row that an INSERT makes, with the next serial id.
abbrev pub inserted : ℕ → String → String → String → Row
inserted id member_id email password = record {
  id = id;
  member_id = member_id;
  email = email;
  password = password;
  status = none;
}

-- `rows` lists the table.
pub record Tabular {D : Type 0} (db : Postgres D) (rows : D → List Row) : Type 0 where
  pub select-row :
      (cs : List Condition) (params : List Argument) (d : D) (r : Row)
      → db.select_member cs params d ≡ row r
      → find? (satisfies params cs) (rows d) ≡ some r
  pub insert-rows :
      (member_id email password : String) (d : D)
      → (db.insert_member member_id email password d).0 ≡ none
      → (id : ℕ) × (0 < id)
        × (rows (db.insert_member member_id email password d).1
            ≡ rows d ++ inserted id member_id email password ∷ [])
  pub set-rows :
      (status : ℕ) (member_id : String) (d : D)
      → (db.set_member_status status member_id d).0 ≡ none
      → rows (db.set_member_status status member_id d).1
        ≡ update_first (has_member_id member_id) (with_status status) (rows d)

abbrev is_member_id_column : Column → Bool
is_member_id_column id_column = false
is_member_id_column member_id_column = true
is_member_id_column email_column = false

-- Whether a SELECT compares the member's id.
unfoldable pub asks_member_id : List Condition → Bool
asks_member_id [] = false
asks_member_id (c ∷ cs) = is_member_id_column c.column || asks_member_id cs

-- PostgreSQL answers a SELECT that a row matches, one that matches nothing and compares no UUID, and an
-- UPDATE by the UUID of a row.
pub record Answers {D : Type 0} (db : Postgres D) (rows : D → List Row) : Type 0 where
  pub select-some :
      (cs : List Condition) (params : List Argument) (d : D) (r : Row)
      → find? (satisfies params cs) (rows d) ≡ some r
      → db.select_member cs params d ≡ row r
  pub select-none :
      (cs : List Condition) (params : List Argument) (d : D)
      → find? (satisfies params cs) (rows d) ≡ none
      → asks_member_id cs ≡ false
      → db.select_member cs params d ≡ no_rows
  pub set-none :
      (status : ℕ) (p : Row → Bool) (r : Row) (d : D)
      → find? p (rows d) ≡ some r
      → (db.set_member_status status r.member_id d).0 ≡ none

-- Two tests that agree find the same.
find?-cong :
    {A : Type 0} (p q : A → Bool) → ((x : A) → p x ≡ q x) → (l : List A) → find? p l ≡ find? q l
find?-cong p q same [] = refl
find?-cong p q same (x ∷ l) = ground (arith, same x, find?-cong p q same l)

-- What is no row is an error.
not_row :
    (out : Scanned) (hit : Option Row)
    → hit ≡ none
    → ((r : Row) → out ≡ row r → hit ≡ some r)
    → (e : Error) × (found_member out ≡ err e)
unfolding found_member
not_row (row r) hit miss h = absurd (ground (arith, miss, h r refl))
not_row no_rows hit miss h = ("no member found with given criteria", refl)
not_row (failed e) hit miss h = (e, refl)

module _ {D : Type 0} (db : Postgres D) (rows : D → List Row) (laws : Tabular db rows) where
  -- `FindByMember` gives an error where no row has what was asked for.
  pub find_by_member-missed :
      (q : MemberQuery) (d : D)
      → find? (is_asked q) (rows d) ≡ none
      → (e : Error) × ((member_repository db).find_by_member q d ≡ err e)
  unfolding member_repository
  find_by_member-missed q d gone =
      let b = find_query q in
      let miss =
        find?-cong (satisfies b.params b.conditions) (is_asked q) (find_query-is_asked q) (rows d)
        ∙ gone in
      not_row (db.select_member b.conditions b.params d) _ miss
        (λ r e. laws.select-row b.conditions b.params d r e)

module _ {D : Type 0} (db : Postgres D) (rows : D → List Row) (laws : Tabular db rows)
    (answers : Answers db rows) where
  -- `FindByMember` gives the row that has what was asked for, or an error when there is none.
  pub find_by_member-some :
      (q : MemberQuery) (d : D) (r : Row)
      → find? (is_asked q) (rows d) ≡ some r
      → (member_repository db).find_by_member q d ≡ ok (scanned_member r)
  unfolding member_repository found_member
  find_by_member-some q d r there =
      let b = find_query q in
      let hit =
        find?-cong (satisfies b.params b.conditions) (is_asked q) (find_query-is_asked q) (rows d)
        ∙ there in
      rw (answers.select-some b.conditions b.params d r hit) refl

  pub find_by_member-none :
      (q : MemberQuery) (d : D)
      → asks_member_id (find_query q).conditions ≡ false
      → find? (is_asked q) (rows d) ≡ none
      → (member_repository db).find_by_member q d ≡ err "no member found with given criteria"
  unfolding member_repository found_member
  find_by_member-none q d no_id gone =
      let b = find_query q in
      let miss =
        find?-cong (satisfies b.params b.conditions) (is_asked q) (find_query-is_asked q) (rows d)
        ∙ gone in
      rw (answers.select-none b.conditions b.params d miss no_id) refl

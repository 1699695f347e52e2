-- ===== src/Member/Repository/Query.antt =====
-- The query that `FindByMember` of internal/member/repository/member_repository.go builds.
use streaming_video_service.Prelude.{
  ℕ, ◌-◌, if◌then◌else◌, ◌≡◌, refl, String, Bool, true, false, ◌&&◌, ◌==◌, Option, none, some, List,
  [], ◌∷◌, nat_beq, arith,
}
use streaming_video_service.Member.Domain.{MemberQuery}
use streaming_video_service.Member.Repository.{
  Column, id_column, member_id_column, email_column, Argument, text, integer, Condition, Row,
  find_query,
}

-- The argument that `$n` stands for: they are counted from 1.
abbrev pub argument : List Argument → ℕ → Option Argument
argument [] n = none
argument (a ∷ rest) n = if nat_beq n 1 then some a else argument rest (n - 1)

-- A column has the value of an argument. There is no comparison of a text with a number.
abbrev pub has_value : Row → Column → Option Argument → Bool
has_value r id_column (some (integer n)) = nat_beq r.id n
has_value r member_id_column (some (text s)) = r.member_id == s
has_value r email_column (some (text s)) = r.email == s
has_value r _ _ = false

-- The conditions of a query, of one row.
abbrev pub satisfies : List Argument → List Condition → Row → Bool
satisfies params [] r = true
satisfies params (c ∷ cs) r =
    has_value r c.column (argument params c.number) && satisfies params cs r

abbrev same_text : Option String → String → Bool
same_text none t = true
same_text (some s) t = t == s

abbrev same_number : Option ℕ → ℕ → Bool
same_number none n = true
same_number (some m) n = nat_beq n m

-- Every field of the query that is given is the row's.
abbrev pub is_asked : MemberQuery → Row → Bool
is_asked q r =
    same_text q.email r.email && (same_text q.member_id r.member_id && same_number q.id r.id)

and_true : (b : Bool) → (b && true) ≡ b
and_true true = refl
and_true false = refl

find_query-eq :
    (id : Option ℕ) (member_id email : Option String) (r : Row)
    → let q : MemberQuery = record { id = id; member_id = member_id; email = email } in
      satisfies (find_query q).params (find_query q).conditions r ≡ is_asked q r
unfolding find_query
find_query-eq none none none r = refl
find_query-eq none none (some e) r = ground arith
find_query-eq none (some m) none r = ground arith
find_query-eq none (some m) (some e) r = ground arith
find_query-eq (some i) none none r = ground arith
find_query-eq (some i) none (some e) r = ground arith
find_query-eq (some i) (some m) none r = ground arith
find_query-eq (some i) (some m) (some e) r = ground arith

-- A row satisfies the conditions that `FindByMember` builds, with the arguments that it passes,
-- exactly when it has every field that the caller gave: each placeholder has its own argument.
pub find_query-is_asked :
    (q : MemberQuery) (r : Row)
    → satisfies (find_query q).params (find_query q).conditions r ≡ is_asked q r
find_query-is_asked q r = find_query-eq q.id q.member_id q.email r

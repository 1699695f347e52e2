-- ===== src/Tests/Backends.antt =====
-- PostgreSQL and Redis in memory, for the tests of the member service.
use streaming_video_service.Prelude.{
  ℕ, ◌+◌, ◌*◌, ◌/◌, ◌<◌, ◌≤◌, ◌≡◌, refl, sym, ◌≢◌, String, ◌==◌, ==_self, ==_of_ne, if◌then◌else◌,
  Option, none, some, List, [], ◌∷◌, ◌++◌, length, find?, update_first, arith,
}
use streaming_video_service.Golang.{ok}
use streaming_video_service.Redis.{second, Fetched, found, nil, Ttl, negative, left, RedisClient}
use streaming_video_service.Redis.Keys.{Entry, extended, Keyed, Up}
use streaming_video_service.Member.Repository.{Row, Scanned, row, no_rows, Postgres}
use streaming_video_service.Member.Repository.Query.{satisfies}
use streaming_video_service.Member.Repository.Table.{
  has_member_id, with_status, inserted, Tabular, Answers,
}

scan : Option Row → Scanned
scan none = no_rows
scan (some r) = row r

unfoldable pub postgres : Postgres (List Row)
unfolding scan
postgres = record {
  insert_member = λ member_id email password d.
      (none, d ++ inserted (length d + 1) member_id email password ∷ []);
  set_member_status =
      λ status member_id d. (none, update_first (has_member_id member_id) (with_status status) d);
  select_member = λ cs params d. scan (find? (satisfies params cs) d);
}

abbrev pub all_rows : List Row → List Row
all_rows d = d

scan_row : (o : Option Row) (r : Row) → scan o ≡ row r → o ≡ some r
unfolding scan
scan_row none r e = absurd (cc)
scan_row (some x) r e = ground arith

pub postgres-Tabular : Tabular postgres all_rows
unfolding postgres
postgres-Tabular = record {
  select-row = λ cs params d r e. scan_row (find? (satisfies params cs) d) r e;
  insert-rows = λ member_id email password d e. (length d + 1, omega arith, refl);
  set-rows = λ status member_id d e. refl;
}

pub postgres-Answers : Answers postgres all_rows
unfolding postgres scan
postgres-Answers = record {
  select-some = λ cs params d r e. rw e refl;
  select-none = λ cs params d e no_id. rw e refl;
  set-none = λ status p r d e. refl;
}

-- Redis is the function that gives each live key.
abbrev pub Keys : Type 0
Keys = String → Option Entry

abbrev put : String → Option Entry → Keys → Keys
put key e s = λ k. if k == key then e else s k

value_of : Option Entry → Fetched
value_of none = nil
value_of (some e) = found e.value

time_of : Option Entry → Ttl
time_of none = negative
time_of (some e) = left (e.remaining / second * second)

unfoldable pub redis : RedisClient Keys
unfolding value_of time_of
redis = record {
  set = λ key text ttl s. (none, put key (some (record { value = text; remaining = ttl })) s);
  get = λ key s. value_of (s key);
  del = λ key s. (none, put key none s);
  expire = λ key ttl s. (none, put key (extended ttl (s key)) s);
  ttl = λ key s. ok (time_of (s key));
}

abbrev pub entry : Keys → String → Option Entry
entry s key = s key

put_self : (key : String) (e : Option Entry) (s : Keys) → put key e s key ≡ e
put_self key e s = ground (arith, ==_self key)

put_ne :
    (key other : String) (e : Option Entry) (s : Keys) → key ≢ other → put key e s other ≡ s other
put_ne key other e s h = ground (arith, ==_of_ne other key (λ p. h (sym p)))

time_negative : (o : Option Entry) (t : Ttl) → ok (time_of o) ≡ ok t → o ≡ none → t ≡ negative
unfolding time_of
time_negative none t e gone = ground arith
time_negative (some x) t e gone = absurd (cc)

time_left :
    (o : Option Entry) (t : Ttl) (e : Entry)
    → ok (time_of o) ≡ ok t
    → o ≡ some e
    → second ≤ e.remaining
    → (n : ℕ) × (0 < n) × (t ≡ left (n * second))
unfolding time_of
time_left none t e is there h = absurd (cc)
time_left (some x) t e is there h = (e.remaining / second, omega arith, ground (arith, is, there))

pub redis-Keyed : Keyed redis entry
unfolding redis
redis-Keyed = record {
  set-entry =
      λ key text n s h e. put_self key (some (record { value = text; remaining = n * second })) s;
  set-entry_ne = λ key other text ttl s h.
      put_ne key other (some (record { value = text; remaining = ttl })) s h;
  del-entry = λ key s e. put_self key none s;
  expire-entry = λ key n s h e. put_self key (extended (n * second) (s key)) s;
  ttl-negative = λ key s t e gone. time_negative (s key) t e gone;
  ttl-left = λ key s t e is there h. time_left (s key) t e is there h;
}

pub redis-Up : Up redis
unfolding redis
redis-Up = record {
  set-none = λ key text ttl s. refl;
  del-none = λ key s. refl;
  expire-none = λ key ttl s. refl;
  ttl-ok = λ key s. (time_of (s key), refl);
}

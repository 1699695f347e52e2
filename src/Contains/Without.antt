-- ===== src/Contains/Without.antt =====
-- Laws of the loop of `ExitRoom` that copies all other members.
use streaming_video_service.Prelude.{
  String, ◌≡◌, refl, false, ◌==◌, ◌≢◌, eq_iff, List, [], ◌∷◌, arith, inl, inr, Bool-cases,
}
use streaming_video_service.Contains.{contains, without}
use streaming_video_service.Contains.Laws.{Distinct}

-- The user is gone from the copy.
pub contains-without_self :
    (user : String) (l : List String) → contains (without user l) user ≡ false
unfolding contains without
contains-without_self user [] = refl
contains-without_self user (m ∷ l) = ground (arith, contains-without_self user l)

-- Anyone else is in the copy exactly if in the list.
pub contains-without_ne :
    (user other : String) (l : List String)
    → user ≢ other
    → contains (without user l) other ≡ contains l other
unfolding contains without
contains-without_ne user other [] ne = refl
contains-without_ne user other (m ∷ l) ne = elim (Bool-cases (m == user)) [
  | inl e ↦ ground (arith, contains-without_ne user other l ne, eq_iff m user, eq_iff m other)
  | inr e ↦ ground (arith, contains-without_ne user other l ne)
]

contains-without-le :
    (user other : String) (l : List String)
    → contains l other ≡ false
    → contains (without user l) other ≡ false
unfolding contains without
contains-without-le user other [] h = refl
contains-without-le user other (m ∷ l) h = ground (arith, contains-without-le user other l)

pub Distinct-without : (user : String) (l : List String) → Distinct l → Distinct (without user l)
unfolding without
Distinct-without user [] d = tt
Distinct-without user (m ∷ l) d =
    ground (arith, Distinct-without user l d.1, contains-without-le user m l d.0)

-- ===== src/Kube/Memory/Conditions.antt =====
-- Conditions as a list with one entry for a type.
use ansible_operator.Base.{
  String, ◌≡◌, ◌≢◌, Bool, true, false, ◌&&◌, Option, none, some, List, [], ◌∷◌, arith,
  if◌then◌else◌, ◌==◌,
}
use ansible_operator.Api.{
  Condition, ConditionStatus, condition_true, condition_false, condition_unknown,
}

unfoldable pub find_condition : List Condition → String → Option Condition
find_condition [] t = none
find_condition (c ∷ cs) t = if c.type == t then some c else find_condition cs t

put : List Condition → Condition → List Condition
put [] c = c ∷ []
put (d ∷ ds) c = if d.type == c.type then c ∷ ds else d ∷ put ds c

abbrev same_status : ConditionStatus → ConditionStatus → Bool
same_status condition_true condition_true = true
same_status condition_false condition_false = true
same_status condition_unknown condition_unknown = true
same_status _ _ = false

same_condition : Condition → Condition → Bool
same_condition a b =
    a.type == b.type
    && (same_status a.status b.status && (a.reason == b.reason && a.message == b.message))

is_set : Option Condition → Condition → Bool
unfolding same_condition
is_set none c = false
is_set (some d) c = same_condition d c

unfoldable pub set_condition : List Condition → Condition → List Condition × Bool
unfolding put is_set find_condition
set_condition cs c = if is_set (find_condition cs c.type) c then (cs, false) else (put cs c, true)

same_condition→eq : (a b : Condition) → same_condition a b ≡ true → a ≡ b
unfolding same_condition
same_condition→eq a b h = ground arith

same_condition_refl : (a : Condition) → same_condition a a ≡ true
unfolding same_condition
same_condition_refl a = ground arith

is_set→eq : (o : Option Condition) (c : Condition) → is_set o c ≡ true → o ≡ some c
unfolding is_set
is_set→eq none c h = cc
is_set→eq (some d) c h = cc (same_condition→eq d c h)

find-put_self : (cs : List Condition) (c : Condition) → find_condition (put cs c) c.type ≡ some c
unfolding find_condition put
find-put_self [] c = ground arith
find-put_self (d ∷ ds) c = ground (arith, find-put_self ds c)

find-put_ne :
    (cs : List Condition) (c : Condition) (t : String)
    → t ≢ c.type
    → find_condition (put cs c) t ≡ find_condition cs t
unfolding find_condition put
find-put_ne [] c t ne = ground arith
find-put_ne (d ∷ ds) c t ne = ground (arith, find-put_ne ds c t)

module _ (cs : List Condition) (c : Condition) where
  pub find-set_self : find_condition (set_condition cs c).0 c.type ≡ some c
  unfolding set_condition
  find-set_self = ground (arith, is_set→eq (find_condition cs c.type) c, find-put_self cs c)

  pub find-set_ne :
      (t : String) → t ≢ c.type → find_condition (set_condition cs c).0 t ≡ find_condition cs t
  unfolding set_condition
  find-set_ne t ne = ground (arith, find-put_ne cs c t)

  pub unchanged : find_condition cs c.type ≡ some c → (set_condition cs c).1 ≡ false
  unfolding set_condition
  unchanged h = ground (arith, h, same_condition_refl c)

  pub kept : (set_condition cs c).1 ≡ false → (set_condition cs c).0 ≡ cs
  unfolding set_condition
  kept h = ground arith

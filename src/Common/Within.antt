-- ===== src/Common/Within.antt =====
-- A list whose elements stand in another one, in the same order.
use mathlib.Core.List.{List, [], ◌∷◌, ◌++◌}

-- The first list is what is left of the second when some of its elements are left out.
pub data IsWithin {E : Type 0} : List E → List E → Type 0 where
  none_left : {fs : List E} → IsWithin [] fs
  keep : {es fs : List E} (e : E) → IsWithin es fs → IsWithin (e ∷ es) (e ∷ fs)
  leave : {es fs : List E} (e : E) → IsWithin es fs → IsWithin es (e ∷ fs)

module _ {E : Type 0} where
  pub leave_all : {es fs : List E} (gs : List E) → IsWithin es fs → IsWithin es (gs ++ fs)
  leave_all [] h = h
  leave_all (g ∷ gs) h = leave g (leave_all gs h)

  pub append-IsWithin :
      {es fs es' fs' : List E}
      → IsWithin es fs
      → IsWithin es' fs'
      → IsWithin (es ++ es') (fs ++ fs')
  append-IsWithin (none_left {fs}) k = leave_all fs k
  append-IsWithin (keep e h) k = keep e (append-IsWithin h k)
  append-IsWithin (leave e h) k = leave e (append-IsWithin h k)

  pub IsWithin-refl : (es : List E) → IsWithin es es
  IsWithin-refl [] = none_left
  IsWithin-refl (e ∷ es) = keep e (IsWithin-refl es)

  pub IsWithin-append : {es fs : List E} (gs : List E) → IsWithin es fs → IsWithin es (fs ++ gs)
  IsWithin-append gs none_left = none_left
  IsWithin-append gs (keep e h) = keep e (IsWithin-append gs h)
  IsWithin-append gs (leave e h) = leave e (IsWithin-append gs h)

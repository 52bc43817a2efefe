-- ===== src/Prelude/Picking.antt =====
-- One element of a list and the others, for steps that take any one of those that wait.
use mathlib.Core.List.{List, ◌∷◌}
use easynet.Prelude.Lists.{All}

pub data Picks {T : Type 0} (x : T) : List T → List T → Type 0 where
  here : (l : List T) → Picks x (x ∷ l) l
  there : (y : T) (l r : List T) → Picks x l r → Picks x (y ∷ l) (y ∷ r)

pub picked-All :
    {T : Type 0} {x : T} {l r : List T} (P : T → Type 0) → Picks x l r → All P l → P x × All P r
picked-All P (here l) h = h
picked-All P (there y l r k) (p, h) = let (q, t) = picked-All P k h in (q, (p, t))
